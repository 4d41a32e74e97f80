-- ===== src/Future.antt =====
-- core/future.go: a value that is set once, awaited by threads that `Interrupt` may wake early.
-- `wokenUp_` is one flag for all the waiters. Every method holds the mutex, so it is one step; a
-- thread that waits gives the mutex up in `cv.Wait` and goes on at its next `runs`.
pub mod Settled
pub mod Await
mod Tests
use truenas_incus_ctl.Base.{
  ℕ, zero, suc, Bool, true, false, List, [], ◌∷◌, map, Option, none, some, if◌then◌else◌,
}

-- A nil error is `none`.
pub record Future (V E : Type 0) : Type 0 where
  pub done : Bool
  pub woken_up : Bool
  pub value : V
  pub err : Option E

-- A thread inside `MaybeGet`: at its call, in `cv.Wait`, out of it, or back at its caller.
pub data Waiter (V E : Type 0) : Type 0 where
  calling sleeping woken : Waiter V E
  returned : Bool → V → Option E → Waiter V E

pub record Shared (V E : Type 0) : Type 0 where
  pub future : Future V E
  pub waiters : List (Waiter V E)

-- What happens to a future: a method of another thread, or the next round of waiter `i`.
pub data Event (V E : Type 0) : Type 0 where
  reaches : V → Option E → Event V E
  interrupts calls_maybe_get : Event V E
  runs : ℕ → Event V E

module _ {V E : Type 0} where
  -- The flag says whether the condition variable is broadcast.
  unfoldable pub reach : Future V E → V → Option E → Future V E × Bool
  reach f value err =
      if f.done
      then (f, false)
      else (record { value = value; err = err; woken_up = false; done = true }, true)

  unfoldable pub complete : Future V E → V → Future V E × Bool
  unfolding reach
  complete f value = reach f value none

  -- `none` while the caller has to wait.
  unfoldable pub get : Future V E → Option (V × Option E)
  get f = if f.done then some (f.value, f.err) else none

  unfoldable pub interrupt : Future V E → Future V E
  interrupt f = record f { woken_up = true }

  -- The test at the head of the loop in `MaybeGet`.
  unfoldable pub test_done : Future V E → Waiter V E
  test_done f = if f.done then returned true f.value f.err else sleeping

  unfoldable pub wake : Waiter V E → Waiter V E
  wake calling = calling
  wake sleeping = woken
  wake woken = woken
  wake (returned c v e) = returned c v e

-- `default_value` is the zero value of the Go type.
module _ {V E : Type 0} (default_value : V) where
  unfoldable pub make_future : Future V E
  make_future = record { done = false; woken_up = false; value = default_value; err = none }

  unfoldable pub fail : Future V E → E → Future V E × Bool
  unfolding reach
  fail f e = reach f default_value (some e)

  unfoldable pub peek : Future V E → Bool × V × Option E
  peek f = if f.done then (true, f.value, f.err) else (false, default_value, none)

  -- One round of `MaybeGet`, up to its next `cv.Wait` or its return.
  unfoldable pub maybe_get : Future V E → Waiter V E → Future V E × Waiter V E
  unfolding test_done
  maybe_get f calling = let g = record f { woken_up = false } in (g, test_done g)
  maybe_get f sleeping = (f, sleeping)
  maybe_get f woken =
      if f.woken_up
      then (record f { woken_up = false }, returned false default_value none)
      else (f, test_done f)
  maybe_get f (returned c v e) = (f, returned c v e)

  -- Waiter `i` runs; the others stay as they are.
  unfoldable pub run_at : Future V E → List (Waiter V E) → ℕ → Future V E × List (Waiter V E)
  unfolding maybe_get
  run_at f [] i = (f, [])
  run_at f (w ∷ ws) zero = let (g, w') = maybe_get f w in (g, w' ∷ ws)
  run_at f (w ∷ ws) (suc i) = let (g, ws') = run_at f ws i in (g, w ∷ ws')

  unfoldable pub step : Shared V E → Event V E → Shared V E
  unfolding reach interrupt run_at wake
  step s (reaches v e) =
      let (f, broadcast) = reach s.future v e in
      record { future = f; waiters = if broadcast then map wake s.waiters else s.waiters }
  step s interrupts = record { future = interrupt s.future; waiters = map wake s.waiters }
  step s calls_maybe_get = record s { waiters = calling ∷ s.waiters }
  step s (runs i) = let (f, ws) = run_at s.future s.waiters i in record { future = f; waiters = ws }

  unfoldable pub run : Shared V E → List (Event V E) → Shared V E
  unfolding step
  run s [] = s
  run s (e ∷ es) = run (step s e) es
