-- ===== src/Future/Tests.antt =====
-- Runs of core/future.go.
use truenas_incus_ctl.Base.{
  ℕ, ◌≡◌, refl, true, false, List, [], ◌∷◌, none, some, All, get_elem?, arith,
}
use truenas_incus_ctl.Future.{
  Waiter, sleeping, returned, Shared, Event, reaches, interrupts, calls_maybe_get, runs, run,
}
use truenas_incus_ctl.Future.Settled.{Told, start, Told-agree, reach_serves_waiter}
use truenas_incus_ctl.Future.Await.{
  index_panic, Served, await_future_or_timeout, await-Undisturbed, await_shared_panics,
}

-- Two waiters of one future, which is reached twice; the error of a future is a number here.
abbrev history : List (Event ℕ ℕ)
history =
    calls_maybe_get
    ∷ calls_maybe_get
    ∷ runs 0
    ∷ runs 1
    ∷ reaches 7 none
    ∷ runs 0
    ∷ reaches 8 (some 1)
    ∷ runs 1
    ∷ []

abbrev waiting : Shared ℕ ℕ
waiting = record {
  future = record { done = false; woken_up = false; value = 0; err = none };
  waiters = sleeping ∷ sleeping ∷ [];
}

abbrev settled : Shared ℕ ℕ
settled = record {
  future = record { done = true; woken_up = false; value = 7; err = none };
  waiters = sleeping ∷ [];
}

Told-agree_example : All (Told (run 0 (start 0) history).future) (run 0 (start 0) history).waiters
Told-agree_example = Told-agree 0 history

reach_serves_waiter_example :
    get_elem? (run 0 waiting (reaches 7 none ∷ reaches 8 none ∷ runs 0 ∷ runs 1 ∷ [])).waiters 1
    ≡ some (returned true 7 none)
reach_serves_waiter_example =
    reach_serves_waiter 0 waiting 1 7 none (reaches 8 none ∷ runs 0 ∷ []) refl refl
      (tt, ((λ e. absurd (omega (arith, e))), tt))

await-Undisturbed_example : All Served (run 0 (start 0) history).waiters
await-Undisturbed_example = await-Undisturbed 0 history tt

await_shared_panics_example :
    (w : Waiter ℕ ℕ) × (get_elem? (run 0 waiting (interrupts ∷ runs 1 ∷ [])).waiters 1 ≡ some w)
    × (await_future_or_timeout false (run 0 waiting (interrupts ∷ runs 1 ∷ [])).future w
        ≡ some (index_panic, (run 0 waiting (interrupts ∷ runs 1 ∷ [])).future))
await_shared_panics_example = await_shared_panics 0 waiting 1 refl
