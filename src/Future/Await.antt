-- ===== src/Future/Await.antt =====
-- core/future.go, AwaitFutureOrTimeout: a goroutine calls `MaybeGet` and hands its result over on a
-- channel, which it closes; the caller takes what comes first, the channel or the timer.
use truenas_incus_ctl.Base.{
  ℕ, zero, suc, ◌≡◌, ◌≢◌, refl, Bool, true, false, List, [], ◌∷◌, map, Bool-cases, inl, inr, Option,
  none, some, All, arith, get_elem?,
}
use truenas_incus_ctl.Future.{
  Future, Waiter, calling, sleeping, woken, returned, Shared, Event, reaches, interrupts,
  calls_maybe_get, runs, reach, wake, interrupt, maybe_get, run_at, step, run, make_future,
}

pub data AwaitResult (V E : Type 0) : Type 0 where
  completed : V → Option E → AwaitResult V E
  timed_out index_panic : AwaitResult V E

-- What `<-doneCh` gives the caller: a pair, nothing yet, or the nil slice of a channel that was
-- closed with nothing sent, whose `result[0]` is out of range.
pub receive : {V E : Type 0} → Waiter V E → Option (AwaitResult V E)
receive calling = none
receive sleeping = none
receive woken = none
receive (returned true v e) = some (completed v e)
receive (returned false v e) = some index_panic

-- The `select`: `timer` says that the timer fires before anything comes on the channel, and then
-- the future is interrupted.
pub await_future_or_timeout :
    {V E : Type 0} → Bool → Future V E → Waiter V E → Option (AwaitResult V E × Future V E)
unfolding receive interrupt
await_future_or_timeout true f w = some (timed_out, interrupt f)
await_future_or_timeout false f w = elim (receive w) [ none ↦ none | some r ↦ some (r, f) ]

-- No interrupt is among the events.
abbrev pub Undisturbed : {V E : Type 0} → List (Event V E) → Type 0
Undisturbed [] = Unit
Undisturbed (interrupts ∷ evs) = ⊥
Undisturbed (reaches v e ∷ evs) = Undisturbed evs
Undisturbed (calls_maybe_get ∷ evs) = Undisturbed evs
Undisturbed (runs i ∷ evs) = Undisturbed evs

-- The caller behind this waiter does not panic.
abbrev pub Served : {V E : Type 0} → Waiter V E → Type 0
Served w = receive w ≢ some index_panic

abbrev Calm : {V E : Type 0} → Shared V E → Type 0
Calm s = (s.future.woken_up ≡ false) × All Served s.waiters

module _ {V E : Type 0} (default_value : V) where
  maybe_get-Calm :
      (f : Future V E) (w : Waiter V E)
      → f.woken_up ≡ false
      → Served w
      → ((maybe_get default_value f w).0.woken_up ≡ false) × Served (maybe_get default_value f w).1
  unfolding maybe_get receive
  maybe_get-Calm f calling c s = (refl, λ e. ground arith)
  maybe_get-Calm f sleeping c s = (c, s)
  maybe_get-Calm f woken c s = (ground arith, λ e. ground arith)
  maybe_get-Calm f (returned d v e) c s = (c, s)

  run_at-Calm :
      (f : Future V E) (ws : List (Waiter V E)) (i : ℕ)
      → f.woken_up ≡ false
      → All Served ws
      → ((run_at default_value f ws i).0.woken_up ≡ false)
        × All Served (run_at default_value f ws i).1
  unfolding run_at
  run_at-Calm f [] i c s = (c, tt)
  run_at-Calm f (w ∷ ws) zero c (s, ss) = let (c', s') = maybe_get-Calm f w c s in (c', (s', ss))
  run_at-Calm f (w ∷ ws) (suc i) c (s, ss) =
      let (c', ss') = run_at-Calm f ws i c ss in (c', (s, ss'))

  wake-Served : (ws : List (Waiter V E)) → All Served ws → All Served (map wake ws)
  unfolding wake receive
  wake-Served [] s = tt
  wake-Served (calling ∷ ws) (s, ss) = (s, wake-Served ws ss)
  wake-Served (sleeping ∷ ws) (s, ss) = (s, wake-Served ws ss)
  wake-Served (woken ∷ ws) (s, ss) = (s, wake-Served ws ss)
  wake-Served (returned c v e ∷ ws) (s, ss) = (s, wake-Served ws ss)

  reach-Calm :
      (s : Shared V E) (v : V) (e : Option E) → Calm s → Calm (step default_value s (reaches v e))
  unfolding step reach
  reach-Calm s v e (c, ss) = elim (Bool-cases s.future.done) [
    | inl d ↦ rw d (c, ss)
    | inr d ↦ rw d (refl, wake-Served s.waiters ss)
  ]

  run-Calm :
      (s : Shared V E) (evs : List (Event V E))
      → Undisturbed evs
      → Calm s
      → Calm (run default_value s evs)
  unfolding run
  run-Calm s [] u c = c
  run-Calm s (interrupts ∷ evs) u c = absurd u
  run-Calm s (reaches v e ∷ evs) u c =
      run-Calm (step default_value s (reaches v e)) evs u (reach-Calm s v e c)
  run-Calm s (calls_maybe_get ∷ evs) u (c, ss) =
      run-Calm (step default_value s calls_maybe_get) evs u
        (unfold step receive in (c, ((λ e. cc), ss)))
  run-Calm s (runs i ∷ evs) u (c, ss) =
      run-Calm (step default_value s (runs i)) evs u
        (unfold step in run_at-Calm s.future s.waiters i c ss)

  abbrev start : Shared V E
  start = record { future = make_future default_value; waiters = [] }

  -- While nobody interrupts a future, as before the first timeout of a caller, no caller takes a
  -- result from a channel that was closed with nothing sent.
  pub await-Undisturbed :
      (evs : List (Event V E)) → Undisturbed evs → All Served (run default_value start evs).waiters
  await-Undisturbed evs u = (run-Calm start evs u (unfold make_future in (refl, tt))).1

  run_at-interrupted :
      (f : Future V E) (ws : List (Waiter V E)) (i : ℕ)
      → f.woken_up ≡ true
      → get_elem? ws i ≡ some sleeping
      → get_elem? (run_at default_value f (map wake ws) i).1 i
        ≡ some (returned false default_value none)
  unfolding run_at maybe_get wake
  run_at-interrupted f [] i u g = absurd (cc)
  run_at-interrupted f (w ∷ ws) zero u g = ground arith
  run_at-interrupted f (w ∷ ws) (suc i) u g = run_at-interrupted f ws i u g

  -- Callers may share a future. When one of them times out it interrupts, and if the goroutine of
  -- another caller runs next, that caller takes from a closed channel and panics, also if the
  -- future is done by then.
  pub await_shared_panics :
      (s : Shared V E) (i : ℕ)
      → get_elem? s.waiters i ≡ some sleeping
      → (w : Waiter V E) × (get_elem? (run default_value s (interrupts ∷ runs i ∷ [])).waiters i
          ≡ some w)
        × (await_future_or_timeout false (run default_value s (interrupts ∷ runs i ∷ [])).future w
            ≡ some (index_panic, (run default_value s (interrupts ∷ runs i ∷ [])).future))
  unfolding run step interrupt await_future_or_timeout
  await_shared_panics s i g = (
    returned false default_value none,
    run_at-interrupted (record s.future { woken_up = true }) s.waiters i refl g,
    refl,
  )
