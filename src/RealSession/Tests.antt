-- ===== src/RealSession/Tests.antt =====
-- Runs of core/real_api.go.
use truenas_incus_ctl.Base.{
  Bool, ℕ, ◌≡◌, ◌≤◌, ◌+◌, ◌↔◌, ◌⊎◌, ◌==◌, sym, ap, Bool-cases, inl, inr, refl, true, false, List,
  [], ◌∷◌, ◌++◌, Option, none, some, ℤ, pos, int_eq, Str, codes, arith, int_eqb,
}
use truenas_incus_ctl.Base.Dict.{lookup}
use truenas_incus_ctl.Json.{null, str, int}
use truenas_incus_ctl.Json.Sample.{nat_ops}
use truenas_incus_ctl.Api.{panics, make_error_from_list}
use truenas_incus_ctl.RealSession.{
  ApiJobResult, RealSession, waited, wait_for_job, remove_skipped, sweep, should_skip, swap_remove,
  last_or, close, as_list, call_failed, job_started, call_async_raw,
}
use truenas_incus_ctl.RealSession.Removal.{bit, count}
use truenas_incus_ctl.RealSession.Closing.{ids, first_errors, close-reports}
use truenas_incus_ctl.RealSession.Waiting.{wait_for_job-takes, call_async_raw-panics_iff}

abbrev failed_result : ApiJobResult ℕ
failed_result = record {
  job_id = pos 5;
  method = [];
  state = codes "FAILED";
  result = null;
  error = str (codes "no");
}

abbrev good_result : ApiJobResult ℕ
good_result = record {
  job_id = pos 3;
  method = [];
  state = codes "SUCCESS";
  result = int (pos 1);
  error = null;
}

abbrev no_error : Option Str
no_error = none

abbrev two_jobs : RealSession ℕ
two_jobs = record {
  has_client = true;
  subscribed_to_jobs = true;
  results_queue = failed_result ∷ good_result ∷ [];
  jobs_list = pos 3 ∷ pos 5 ∷ [];
  map_skip_wait_on_close = none;
}

-- The entry that is swapped in is not looked at: job 5 is waited for all the same.
skip_misses_one :
    remove_skipped (some ((pos 3, true) ∷ (pos 5, true) ∷ [])) (pos 3 ∷ pos 4 ∷ pos 5 ∷ [])
    ≡ pos 5 ∷ pos 4 ∷ []
unfolding remove_skipped sweep should_skip swap_remove last_or lookup int_eqb
skip_misses_one = refl

bit_bound : (t : Bool) → bit t ≤ 1
bit_bound true = omega arith
bit_bound false = omega arith

two_distinct : (b : ℤ) → count b two_jobs.jobs_list ≤ 1
unfolding count int_eqb
two_distinct b = elim (Bool-cases (pos 3 == b)) [
  | inl t ↦
      rw (count, t, ap (λ (c : ℤ). pos 5 == c) (sym ((int_eq.beq_iff (pos 3) b).0 t))) (omega arith)
  | inr f ↦ rw (count, f) (omega (arith, bit_bound (pos 5 == b)))
]

two_covered : (b : ℤ) → count b two_jobs.jobs_list ≤ count b (ids two_jobs.results_queue)
unfolding count
two_covered b = omega arith

close-reports_example :
    (taken : List (ApiJobResult ℕ)) × (left : List (ApiJobResult ℕ)) × (two_jobs.results_queue
      ≡ taken ++ left)
    × ((b : ℤ) → count b two_jobs.jobs_list ≤ count b (ids taken))
    × (close nat_ops two_jobs none none
        ≡ some (
          record two_jobs { has_client = false; jobs_list = []; results_queue = left },
          make_error_from_list
              (as_list none ++ (first_errors nat_ops [] two_jobs.jobs_list taken ++ as_list none)),
        ))
close-reports_example = close-reports nat_ops two_jobs none none refl refl two_distinct two_covered

wait_for_job-takes_example :
    (jobs : List ℤ) × (wait_for_job nat_ops two_jobs (pos 3)
      ≡ some (
        record two_jobs { results_queue = [] ++ failed_result ∷ []; jobs_list = jobs },
        waited nat_ops good_result,
      ))
    × ((b : ℤ) → count b jobs + bit (pos 3 == b) ≡ count b two_jobs.jobs_list)
unfolding count int_eqb
wait_for_job-takes_example =
    wait_for_job-takes nat_ops two_jobs (pos 3) (failed_result ∷ []) good_result [] (omega arith)
      refl refl refl

call_async_raw-panics_iff_example :
    ((call_async_raw two_jobs no_error (call_failed (codes "timeout")) (job_started (pos 1))).1
      ≡ panics)
    ↔ (((two_jobs.subscribed_to_jobs ≡ true) ⊎ (no_error ≡ none))
        × ((e : Str) × (call_failed (codes "timeout") ≡ call_failed e)))
call_async_raw-panics_iff_example =
    call_async_raw-panics_iff two_jobs no_error (call_failed (codes "timeout"))
      (job_started (pos 1))
