-- ===== src/Queue/Waiting.antt =====
-- core/simple_queue.go with threads: `cv.Wait` puts a taker to sleep, `cv.Broadcast` wakes them all.
use truenas_incus_ctl.Base.{
  ℕ, suc, ◌+◌, ◌<◌, ◌≡◌, List, [], ◌∷◌, ◌++◌, none, some, arith, if◌then◌else◌, refl,
}
use truenas_incus_ctl.Queue.{SimpleQueue, make_simple_queue, add, poll, take}
use truenas_incus_ctl.Queue.Refinement.{
  Represents, make_simple_queue-Represents, add-Represents, poll-Represents, take-Represents,
  take-none,
}

pub record Threads (T : Type 0) : Type 0 where
  pub queue : SimpleQueue T
  pub asleep : ℕ
  pub awake : ℕ

-- `Add` by one thread, with the wake-ups of its broadcast.
pub add_and_wake : {T : Type 0} → Threads T → T → Threads T
add_and_wake s v =
    let (q, woken) = add s.queue v in
    record {
      queue = q;
      asleep = if woken then 0 else s.asleep;
      awake = if woken then s.awake + s.asleep else s.awake;
    }

-- What a thread may do next while it holds the mutex. A woken taker tests the loop's condition
-- again, as one that has just called `Take` does.
pub data Step {T : Type 0} : Threads T → Threads T → Type 0 where
  adds : (s : Threads T) (v : T) → Step s (add_and_wake s v)
  polls : (s : Threads T) → Step s (record s { queue = (poll s.queue).1 })
  calls_take : (s : Threads T) → Step s (record s { awake = suc s.awake })
  takes :
      (s : Threads T) (n : ℕ) (x : T) (q : SimpleQueue T)
      → s.awake ≡ suc n
      → take s.queue ≡ some (x, q)
      → Step s (record s { queue = q; awake = n })
  sleeps :
      (s : Threads T) (n : ℕ)
      → s.awake ≡ suc n
      → take s.queue ≡ none
      → Step s (record s { awake = n; asleep = suc s.asleep })

pub data Reach {T : Type 0} (s : Threads T) : Threads T → Type 0 where
  here : Reach s s
  next : {t u : Threads T} → Reach s t → Step t u → Reach s u

module _ {T : Type 0} where
  unfoldable pub start : Threads T
  start = record { queue = make_simple_queue; asleep = 0; awake = 0 }

  Awaited : Threads T → Type 0
  Awaited s = 0 < s.asleep → s.queue.head ≡ none

  -- The queue is sound, and a thread sleeps only while the head is nil.
  abbrev Inv : Threads T → Type 0
  Inv s = ((xs : List T) × Represents s.queue xs) × Awaited s

  Step-Inv : {s t : Threads T} → Step s t → Inv s → Inv t
  unfolding Awaited add poll take add_and_wake
  Step-Inv (adds s v) ((xs, r), a) = ((xs ++ v ∷ [], add-Represents s.queue xs v r), ground arith)
  Step-Inv (polls s) ((xs, r), a) = (poll-Represents s.queue xs r, ground arith)
  Step-Inv (calls_take s) ((xs, r), a) = ((xs, r), a)
  Step-Inv (takes s k x q e f) ((xs, r), a) = (take-Represents s.queue xs r f, ground arith)
  Step-Inv (sleeps s k e f) ((xs, r), a) = ((xs, r), λ _. take-none s.queue xs r f)

  Reach-Inv : {s : Threads T} → Reach start s → Inv s
  unfolding Awaited start make_simple_queue
  Reach-Inv here = (([], make_simple_queue-Represents), λ h. refl)
  Reach-Inv (next r st) = Step-Inv st (Reach-Inv r)

  -- In every state that threads can reach in which a taker sleeps, a poll finds nothing, and the
  -- next `Add` leaves no taker asleep, so no wake-up is lost though only some calls broadcast.
  pub no_lost_wakeup :
      {s : Threads T} (v : T)
      → Reach start s
      → 0 < s.asleep
      → (poll s.queue ≡ (none, s.queue)) × ((add_and_wake s v).asleep ≡ 0)
  unfolding Awaited add poll add_and_wake
  no_lost_wakeup {s} v r h = let inv = Reach-Inv r in (ground (arith, inv, h), ground (arith, inv))
