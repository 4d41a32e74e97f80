-- ===== src/Queue/Tests.antt =====
-- Runs of core/simple_queue.go.
use truenas_incus_ctl.Base.{ℕ, ◌≡◌, refl, List, [], ◌∷◌, none, arith}
use truenas_incus_ctl.Queue.{make_simple_queue, poll, take}
use truenas_incus_ctl.Queue.Refinement.{
  Call, adds, polls, takes, outcomes, promised_outcomes, outcomes-promised,
}
use truenas_incus_ctl.Queue.Waiting.{
  Threads, add_and_wake, calls_take, sleeps, Reach, here, next, start, no_lost_wakeup,
}

abbrev some_calls : List (Call ℕ)
some_calls = polls ∷ adds 3 ∷ adds 4 ∷ takes ∷ adds 5 ∷ polls ∷ polls ∷ takes ∷ []

outcomes-promised_example :
    outcomes (make_simple_queue {T = ℕ}) some_calls ≡ promised_outcomes [] some_calls
outcomes-promised_example = outcomes-promised some_calls

-- One thread that called `Take` on the empty queue and sleeps.
abbrev one_asleep : Threads ℕ
one_asleep = record { queue = make_simple_queue; asleep = 1; awake = 0 }

one_asleep-Reach : Reach (start {T = ℕ}) one_asleep
unfolding start take make_simple_queue
one_asleep-Reach = next (next here (calls_take start)) (sleeps _ 0 refl refl)

no_lost_wakeup_example :
    (poll make_simple_queue ≡ (none, make_simple_queue {T = ℕ}))
    × ((add_and_wake one_asleep 7).asleep ≡ 0)
no_lost_wakeup_example = no_lost_wakeup 7 one_asleep-Reach (omega arith)
