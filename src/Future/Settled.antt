-- ===== src/Future/Settled.antt =====
-- core/future.go: what the waiters of one future are told.
use truenas_incus_ctl.Base.{
  ◌≢◌, ◌∙◌, ◌++◌, ap, ℕ, zero, suc, ◌≡◌, refl, Bool, true, false, List, [], ◌∷◌, map, Option, some,
  All, arith, get_elem?, if◌then◌else◌,
}
use truenas_incus_ctl.Future.{
  Future, Waiter, calling, sleeping, woken, returned, Shared, Event, reaches, interrupts,
  calls_maybe_get, runs, reach, wake, interrupt, maybe_get, run_at, step, run, make_future, peek,
}

-- The result that a done future holds.
pub record Holds {V E : Type 0} (f : Future V E) (v : V) (e : Option E) : Type 0 where
  pub is_done : f.done ≡ true
  pub has_value : f.value ≡ v
  pub has_err : f.err ≡ e

-- A waiter that was told of a result was told of the one that the future holds.
abbrev pub Told : {V E : Type 0} → Future V E → Waiter V E → Type 0
Told f calling = Unit
Told f sleeping = Unit
Told f woken = Unit
Told f (returned false v e) = Unit
Told f (returned true v e) = Holds f v e

-- `g` keeps the result of `f`.
abbrev Keeps : {V E : Type 0} → Future V E → Future V E → Type 0
Keeps {V} {E} f g = (v : V) (e : Option E) → Holds f v e → Holds g v e

module _ {V E : Type 0} where
  Told-Keeps : (f g : Future V E) (w : Waiter V E) → Keeps f g → Told f w → Told g w
  Told-Keeps f g calling k t = tt
  Told-Keeps f g sleeping k t = tt
  Told-Keeps f g woken k t = tt
  Told-Keeps f g (returned false v e) k t = tt
  Told-Keeps f g (returned true v e) k t = k v e t

  All-Keeps :
      (f g : Future V E) (ws : List (Waiter V E)) → Keeps f g → All (Told f) ws → All (Told g) ws
  All-Keeps f g [] k t = tt
  All-Keeps f g (w ∷ ws) k (t, ts) = (Told-Keeps f g w k t, All-Keeps f g ws k ts)

  All-wake :
      (f : Future V E) (ws : List (Waiter V E)) → All (Told f) ws → All (Told f) (map wake ws)
  unfolding wake
  All-wake f [] t = tt
  All-wake f (calling ∷ ws) (t, ts) = (tt, All-wake f ws ts)
  All-wake f (sleeping ∷ ws) (t, ts) = (tt, All-wake f ws ts)
  All-wake f (woken ∷ ws) (t, ts) = (tt, All-wake f ws ts)
  All-wake f (returned c v e ∷ ws) (t, ts) = (t, All-wake f ws ts)

  All-if :
      (f : Future V E) (b : Bool) (ws : List (Waiter V E))
      → All (Told f) ws
      → All (Told f) (if b then map wake ws else ws)
  All-if f true ws t = All-wake f ws t
  All-if f false ws t = t

  reach-Keeps : (f : Future V E) (v : V) (e : Option E) → Keeps f (reach f v e).0
  unfolding reach
  reach-Keeps f v e v' e' h = ground arith

module _ {V E : Type 0} (default_value : V) where
  maybe_get-Keeps : (f : Future V E) (w : Waiter V E) → Keeps f (maybe_get default_value f w).0
  unfolding maybe_get
  maybe_get-Keeps f w v e h = ground arith

  maybe_get-Told :
      (f : Future V E) (w : Waiter V E)
      → Told f w
      → Told (maybe_get default_value f w).0 (maybe_get default_value f w).1
  unfolding maybe_get
  maybe_get-Told f calling t = ground arith
  maybe_get-Told f sleeping t = tt
  maybe_get-Told f woken t = ground arith
  maybe_get-Told f (returned c v e) t = t

  run_at-Keeps :
      (f : Future V E) (ws : List (Waiter V E)) (i : ℕ) → Keeps f (run_at default_value f ws i).0
  unfolding run_at
  run_at-Keeps f [] i v e h = h
  run_at-Keeps f (w ∷ ws) zero v e h = maybe_get-Keeps f w v e h
  run_at-Keeps f (w ∷ ws) (suc i) v e h = run_at-Keeps f ws i v e h

  run_at-Told :
      (f : Future V E) (ws : List (Waiter V E)) (i : ℕ)
      → All (Told f) ws
      → All (Told (run_at default_value f ws i).0) (run_at default_value f ws i).1
  unfolding run_at
  run_at-Told f [] i t = tt
  run_at-Told f (w ∷ ws) zero (t, ts) =
      (maybe_get-Told f w t, All-Keeps f _ ws (maybe_get-Keeps f w) ts)
  run_at-Told f (w ∷ ws) (suc i) (t, ts) =
      (Told-Keeps f _ w (run_at-Keeps f ws i) t, run_at-Told f ws i ts)

  step-Keeps : (s : Shared V E) (ev : Event V E) → Keeps s.future (step default_value s ev).future
  unfolding step
  step-Keeps s (reaches v e) v' e' h = reach-Keeps s.future v e v' e' h
  step-Keeps s interrupts v e h = unfold interrupt in ground arith
  step-Keeps s calls_maybe_get v e h = h
  step-Keeps s (runs i) v e h = run_at-Keeps s.future s.waiters i v e h

  step-Told :
      (s : Shared V E) (ev : Event V E)
      → All (Told s.future) s.waiters
      → All (Told (step default_value s ev).future) (step default_value s ev).waiters
  unfolding step
  step-Told s (reaches v e) t =
      All-if _ (reach s.future v e).1 s.waiters
        (All-Keeps s.future _ s.waiters (reach-Keeps s.future v e) t)
  step-Told s interrupts t =
      All-Keeps s.future _ _ (λ v e h. step-Keeps s interrupts v e h)
        (All-wake s.future s.waiters t)
  step-Told s calls_maybe_get t = (tt, t)
  step-Told s (runs i) t = run_at-Told s.future s.waiters i t

  run-Keeps :
      (s : Shared V E) (evs : List (Event V E)) → Keeps s.future (run default_value s evs).future
  unfolding run
  run-Keeps s [] v e h = h
  run-Keeps s (ev ∷ evs) v e h = run-Keeps (step default_value s ev) evs v e (step-Keeps s ev v e h)

  run-Told :
      (s : Shared V E) (evs : List (Event V E))
      → All (Told s.future) s.waiters
      → All (Told (run default_value s evs).future) (run default_value s evs).waiters
  unfolding run
  run-Told s [] t = t
  run-Told s (ev ∷ evs) t = run-Told (step default_value s ev) evs (step-Told s ev t)

  abbrev pub start : Shared V E
  start = record { future = make_future default_value; waiters = [] }

  -- In every history of a new future, all waiters that `MaybeGet` told of a result were told of
  -- the one that the future holds now, so any two of them were told the same.
  pub Told-agree :
      (evs : List (Event V E))
      → let s = run default_value start evs in All (Told s.future) s.waiters
  Told-agree evs = run-Told start evs tt

  -- A result that `Peek` has shown is what `Peek` shows ever after, whatever else is reached,
  -- failed or interrupted.
  peek_stable :
      (s : Shared V E) (evs : List (Event V E)) (v : V) (e : Option E)
      → peek default_value s.future ≡ (true, v, e)
      → peek default_value (run default_value s evs).future ≡ (true, v, e)
  unfolding peek
  peek_stable s evs v e h = ground (arith, run-Keeps s evs v e)

  run_at-woken :
      (f : Future V E) (ws : List (Waiter V E)) (i : ℕ)
      → f.done ≡ true
      → f.woken_up ≡ false
      → get_elem? ws i ≡ some woken
      → get_elem? (run_at default_value f ws i).1 i ≡ some (returned true f.value f.err)
  unfolding run_at maybe_get
  run_at-woken f [] i d u g = absurd (cc)
  run_at-woken f (w ∷ ws) zero d u g = ground arith
  run_at-woken f (w ∷ ws) (suc i) d u g = run_at-woken f ws i d u g

  map-wake_sleeping :
      (ws : List (Waiter V E)) (i : ℕ)
      → get_elem? ws i ≡ some sleeping
      → get_elem? (map wake ws) i ≡ some woken
  unfolding wake
  map-wake_sleeping [] i g = absurd (cc)
  map-wake_sleeping (w ∷ ws) zero g = ground arith
  map-wake_sleeping (w ∷ ws) (suc i) g = map-wake_sleeping ws i g

  -- The future holds the result, nobody has interrupted it, and waiter `i` is out of `cv.Wait`.
  record Due (i : ℕ) (v : V) (e : Option E) (s : Shared V E) : Type 0 where
    held : Holds s.future v e
    quiet : s.future.woken_up ≡ false
    out : get_elem? s.waiters i ≡ some woken

  run_at-others :
      (f : Future V E) (ws : List (Waiter V E)) (i j : ℕ)
      → j ≢ i
      → get_elem? (run_at default_value f ws j).1 i ≡ get_elem? ws i
  unfolding run_at
  run_at-others f [] i j n = refl
  run_at-others f (w ∷ ws) zero zero n = absurd (n refl)
  run_at-others f (w ∷ ws) (suc i) zero n = refl
  run_at-others f (w ∷ ws) zero (suc j) n = refl
  run_at-others f (w ∷ ws) (suc i) (suc j) n = run_at-others f ws i j (λ q. n (ap suc q))

  run_at-quiet :
      (f : Future V E) (ws : List (Waiter V E)) (j : ℕ)
      → f.woken_up ≡ false
      → (run_at default_value f ws j).0.woken_up ≡ false
  unfolding run_at maybe_get
  run_at-quiet f [] j u = u
  run_at-quiet f (calling ∷ ws) zero u = ground arith
  run_at-quiet f (sleeping ∷ ws) zero u = ground arith
  run_at-quiet f (woken ∷ ws) zero u = ground arith
  run_at-quiet f (returned c v e ∷ ws) zero u = ground arith
  run_at-quiet f (w ∷ ws) (suc j) u = run_at-quiet f ws j u

  -- Another result, or another waiter that runs.
  abbrev pub IsAside : ℕ → Event V E → Type 0
  IsAside i (reaches v e) = Unit
  IsAside i (runs j) = j ≢ i
  IsAside i interrupts = ⊥
  IsAside i calls_maybe_get = ⊥

  step-Due :
      (i : ℕ) (v : V) (e : Option E) (s : Shared V E) (ev : Event V E)
      → IsAside i ev
      → Due i v e s
      → Due i v e (step default_value s ev)
  unfolding step reach
  step-Due i v e s (reaches v' e') a d =
      let done = d.held.is_done in
      record {
        held = step-Keeps s (reaches v' e') v e d.held;
        quiet = rw done d.quiet;
        out = rw done d.out;
      }
  step-Due i v e s (runs j) a d = record {
    held = step-Keeps s (runs j) v e d.held;
    quiet = run_at-quiet s.future s.waiters j d.quiet;
    out = run_at-others s.future s.waiters i j a ∙ d.out;
  }
  step-Due i v e s interrupts a d = absurd a
  step-Due i v e s calls_maybe_get a d = absurd a

  run-served :
      (i : ℕ) (v : V) (e : Option E) (s : Shared V E) (evs : List (Event V E))
      → All (IsAside i) evs
      → Due i v e s
      → get_elem? (run default_value s (evs ++ runs i ∷ [])).waiters i ≡ some (returned true v e)
  unfolding run step
  run-served i v e s [] a d =
      run_at-woken s.future s.waiters i d.held.is_done d.quiet d.out
      ∙ cc (d.held.has_value, d.held.has_err)
  run-served i v e s (ev ∷ evs) (a, rest) d =
      run-served i v e (step default_value s ev) evs rest (step-Due i v e s ev a d)

  -- A waiter that sleeps when a future is first reached returns that result when it runs next, where in
  -- between other waiters may run and other results may be reached, but nobody interrupts the future or
  -- starts to wait at it.
  pub reach_serves_waiter :
      (s : Shared V E) (i : ℕ) (v : V) (e : Option E) (evs : List (Event V E))
      → s.future.done ≡ false
      → get_elem? s.waiters i ≡ some sleeping
      → All (IsAside i) evs
      → get_elem? (run default_value s (reaches v e ∷ evs ++ runs i ∷ [])).waiters i
        ≡ some (returned true v e)
  unfolding run step reach
  reach_serves_waiter s i v e evs h g a =
      run-served i v e (step default_value s (reaches v e)) evs a (record {
        held = rw (step, h) (record { is_done = refl; has_value = refl; has_err = refl });
        quiet = rw (step, h) refl;
        out = rw (step, h) (map-wake_sleeping s.waiters i g);
      })
