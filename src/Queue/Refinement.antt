-- ===== src/Queue/Refinement.antt =====
-- core/simple_queue.go against a list: oldest first, added at the end, taken at the front.
use truenas_incus_ctl.Base.{
  ℕ, zero, suc, ◌+◌, ◌≤◌, ◌≡◌, refl, ap, ◌∙◌, List, [], ◌∷◌, ◌++◌, Option, none, some, arith,
  length, get_elem?, drop, length-append, length-drop, drop-nil, drop-append, drop-suc, ltb,
  if◌then◌else◌,
}
use mathlib.Core.Path.{subst}
use truenas_incus_ctl.Queue.{
  QueueItem, SimpleQueue, make_simple_queue, set_next, link_tail, add, poll, take,
}

-- The address of the item behind `h`, if there is one.
abbrev pub at : ℕ → ℕ → Option ℕ
at h n = if ltb h n then some h else none

abbrev pub last_of : ℕ → Option ℕ
last_of zero = none
last_of (suc n) = some n

module _ {T : Type 0} where
  -- The heap after values were added from address `i` on: each item points to the one behind it.
  pub linked : ℕ → List T → List (QueueItem T)
  linked i [] = []
  linked i (x ∷ []) = record { value = x; next = none } ∷ []
  linked i (x ∷ y ∷ xs) = record { value = x; next = some (suc i) } ∷ linked (suc i) (y ∷ xs)

  -- `vs` is all that was ever added, and `h` of them are taken.
  pub record Layout (q : SimpleQueue T) (vs : List T) (h : ℕ) : Type 0 where
    pub items_linked : q.items ≡ linked 0 vs
    pub head_at : q.head ≡ at h (length vs)
    pub tail_last : q.tail ≡ last_of (length vs)
    pub taken_le : h ≤ length vs

  -- The queue holds `xs`, oldest first.
  abbrev pub Represents : SimpleQueue T → List T → Type 0
  Represents q xs = (vs : List T) × (h : ℕ) × Layout q vs h × (drop h vs ≡ xs)

  length-linked : (i : ℕ) (vs : List T) → length (linked i vs) ≡ length vs
  unfolding linked
  length-linked i [] = refl
  length-linked i (x ∷ []) = refl
  length-linked i (x ∷ y ∷ vs) = ap suc (length-linked (suc i) (y ∷ vs))

  -- Setting the last item's pointer and putting a new item behind it keeps the heap linked.
  linked-append :
      (i : ℕ) (x : T) (vs : List T) (v : T)
      → set_next (linked i (x ∷ vs)) (length vs) (i + suc (length vs))
          ++ record { value = v; next = none } ∷ []
        ≡ linked i ((x ∷ vs) ++ v ∷ [])
  unfolding linked set_next
  linked-append i x [] v = ground arith
  linked-append i x (y ∷ vs) v = ground (arith, linked-append (suc i) y vs v)

  get_elem?-linked :
      (i h : ℕ) (vs : List T) (x : T) (rest : List T)
      → drop h vs ≡ x ∷ rest
      → get_elem? (linked i vs) h
        ≡ some (record {
          value = x;
          next = if ltb (suc h) (length vs) then some (suc (i + h)) else none;
        })
  unfolding linked
  get_elem?-linked i h [] x rest e = absurd (cc (drop-nil {A = T} h))
  get_elem?-linked i zero (y ∷ []) x rest e = ground arith
  get_elem?-linked i zero (y ∷ z ∷ vs) x rest e = ground arith
  get_elem?-linked i (suc h) (y ∷ []) x rest e = absurd (cc (drop-nil {A = T} h))
  get_elem?-linked i (suc h) (y ∷ z ∷ vs) x rest e =
      ground (arith, get_elem?-linked (suc i) h (z ∷ vs) x rest e)

  add-Layout :
      (q : SimpleQueue T) (vs : List T) (h : ℕ) (v : T)
      → Layout q vs h
      → Layout (add q v).0 (vs ++ v ∷ []) h
  unfolding add link_tail linked
  add-Layout q [] h v l = ground arith
  add-Layout q (x ∷ vs) h v l =
      ground (arith, length-linked 0 (x ∷ vs), linked-append 0 x vs v, length-append vs (v ∷ []))

  -- Adding puts the value at the end, wherever the stale tail of an emptied queue points.
  pub add-Represents :
      (q : SimpleQueue T) (xs : List T) (v : T)
      → Represents q xs
      → Represents (add q v).0 (xs ++ v ∷ [])
  add-Represents q xs v (vs, h, l, e) = (
    vs ++ v ∷ [],
    h,
    add-Layout q vs h v l,
    drop-append h vs (v ∷ []) l.taken_le ∙ ap (λ ys. ys ++ v ∷ []) e,
  )

  poll-empty : (q : SimpleQueue T) → Represents q [] → poll q ≡ (none, q)
  unfolding poll
  poll-empty q (vs, h, l, e) = ground (arith, length-drop h vs, ap length e)

  poll-cons :
      (q : SimpleQueue T) (vs : List T) (h : ℕ) (x : T) (xs : List T)
      → Layout q vs h
      → drop h vs ≡ x ∷ xs
      → poll q ≡ (some x, record q { head = at (suc h) (length vs) })
  unfolding poll
  poll-cons q vs h x xs l e =
      ground (arith, length-drop h vs, ap length e, get_elem?-linked 0 h vs x xs)

  take-cons :
      (q : SimpleQueue T) (vs : List T) (h : ℕ) (x : T) (xs : List T)
      → Layout q vs h
      → drop h vs ≡ x ∷ xs
      → take q ≡ some (x, record q { head = at (suc h) (length vs) })
  unfolding take
  take-cons q vs h x xs l e =
      ground (arith, length-drop h vs, ap length e, get_elem?-linked 0 h vs x xs)

  take-empty : (q : SimpleQueue T) → Represents q [] → take q ≡ none
  unfolding take
  take-empty q (vs, h, l, e) = ground (arith, length-drop h vs, ap length e)

  advanced-Represents :
      (q : SimpleQueue T) (vs : List T) (h : ℕ) (x : T) (xs : List T)
      → Layout q vs h
      → drop h vs ≡ x ∷ xs
      → Represents (record q { head = at (suc h) (length vs) }) xs
  advanced-Represents q vs h x xs l e =
      (vs, suc h, ground (arith, length-drop h vs, ap length e), drop-suc h vs x xs e)

  -- Polling keeps a sound queue sound.
  pub poll-Represents :
      (q : SimpleQueue T) (xs : List T) → Represents q xs → (ys : List T) × Represents (poll q).1 ys
  poll-Represents q [] r = ([], rw (poll-empty q r) r)
  poll-Represents q (x ∷ xs) (vs, h, l, e) =
      (xs, rw (poll-cons q vs h x xs l e) (advanced-Represents q vs h x xs l e))

  -- So does taking.
  pub take-Represents :
      (q : SimpleQueue T) (xs : List T)
      → Represents q xs
      → {x : T} {q' : SimpleQueue T} → take q ≡ some (x, q')
      → (ys : List T) × Represents q' ys
  take-Represents q [] r t = absurd (cc (take-empty q r))
  take-Represents q (x ∷ xs) (vs, h, l, e) {q' = q'} t = (
    xs,
    subst (λ p. Represents p xs) (ground (arith, take-cons q vs h x xs l e))
        (advanced-Represents q vs h x xs l e),
  )

  -- A taker finds nothing only where the head is nil.
  pub take-none :
      (q : SimpleQueue T) (xs : List T) → Represents q xs → take q ≡ none → q.head ≡ none
  take-none q [] (vs, h, l, e) t = ground (arith, length-drop h vs, ap length e)
  take-none q (x ∷ xs) (vs, h, l, e) t = absurd (cc (take-cons q vs h x xs l e))

  pub make_simple_queue-Represents : Represents make_simple_queue []
  unfolding make_simple_queue linked
  make_simple_queue-Represents = (
    [],
    0,
    record { items_linked = refl; head_at = refl; tail_last = refl; taken_le = omega arith },
    refl,
  )

-- A call, and what its caller sees. `blocked` is a `Take` that goes to sleep on the empty queue.
pub data Call (T : Type 0) : Type 0 where
  adds : T → Call T
  polls takes : Call T

pub data Outcome (T : Type 0) : Type 0 where
  added blocked : Outcome T
  polled : Option T → Outcome T
  taken : T → Outcome T

module _ {T : Type 0} where
  pub after_take : SimpleQueue T → Option (T × SimpleQueue T) → Outcome T × SimpleQueue T
  after_take q none = (blocked, q)
  after_take q (some (x, q')) = (taken x, q')

  pub call : SimpleQueue T → Call T → Outcome T × SimpleQueue T
  unfolding after_take
  call q (adds v) = (added, (add q v).0)
  call q polls = let r = poll q in (polled r.0, r.1)
  call q takes = after_take q (take q)

  -- What the calls promise, over a list.
  pub promised : List T → Call T → Outcome T × List T
  promised xs (adds v) = (added, xs ++ v ∷ [])
  promised [] polls = (polled none, [])
  promised (x ∷ xs) polls = (polled (some x), xs)
  promised [] takes = (blocked, [])
  promised (x ∷ xs) takes = (taken x, xs)

  pub outcomes : SimpleQueue T → List (Call T) → List (Outcome T)
  outcomes q [] = []
  outcomes q (c ∷ cs) = (call q c).0 ∷ outcomes (call q c).1 cs

  pub promised_outcomes : List T → List (Call T) → List (Outcome T)
  promised_outcomes xs [] = []
  promised_outcomes xs (c ∷ cs) = (promised xs c).0 ∷ promised_outcomes (promised xs c).1 cs

  -- One call answers as promised, and leaves the queue that is promised.
  pub call-Represents :
      (q : SimpleQueue T) (xs : List T) (c : Call T)
      → Represents q xs
      → ((call q c).0 ≡ (promised xs c).0) × Represents (call q c).1 (promised xs c).1
  unfolding call promised
  call-Represents q xs (adds v) r = (refl, add-Represents q xs v r)
  call-Represents q [] polls r = rw (poll-empty q r) (refl, r)
  call-Represents q (x ∷ xs) polls (vs, h, l, e) =
      rw (poll-cons q vs h x xs l e) (refl, advanced-Represents q vs h x xs l e)
  call-Represents q [] takes r = rw (take-empty q r) (refl, r)
  call-Represents q (x ∷ xs) takes (vs, h, l, e) =
      rw (take-cons q vs h x xs l e) (refl, advanced-Represents q vs h x xs l e)

  outcomes-of_Represents :
      (q : SimpleQueue T) (xs : List T) (cs : List (Call T))
      → Represents q xs
      → outcomes q cs ≡ promised_outcomes xs cs
  unfolding outcomes promised_outcomes
  outcomes-of_Represents q xs [] r = refl
  outcomes-of_Represents q xs (c ∷ cs) r =
      let (same, r') = call-Represents q xs c r in
      cc (same, outcomes-of_Represents (call q c).1 (promised xs c).1 cs r')

  -- Every history of calls on a new queue, in the order in which they hold the mutex, answers as a
  -- list does that is added to at its end and taken from at its front.
  pub outcomes-promised :
      (cs : List (Call T)) → outcomes make_simple_queue cs ≡ promised_outcomes [] cs
  outcomes-promised cs = outcomes-of_Represents make_simple_queue [] cs make_simple_queue-Represents
