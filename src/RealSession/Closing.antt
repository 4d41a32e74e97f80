-- ===== src/RealSession/Closing.antt =====
-- core/real_api.go: what `Close` waits for, and the errors it reports.
use truenas_incus_ctl.Base.{
  ℕ, zero, suc, ◌+◌, ◌≤◌, ◌≡◌, refl, sym, ap, ◌∙◌, inl, inr, Bool, true, false, List, [], ◌∷◌, ◌++◌,
  Option, none, some, ℤ, int_eq, ◌==◌, eq_refl, contains, length, get_elem?, map, Str,
  if◌then◌else◌, arith, Bool-cases, Option-cases,
}
use mathlib.Core.Path.{subst}
use truenas_incus_ctl.Base.Dict.{Dict}
use truenas_incus_ctl.Json.{FloatOps}
use truenas_incus_ctl.Api.{make_error_from_list}
use truenas_incus_ctl.RealSession.{
  ApiJobResult, RealSession, as_list, errors_of, sweep, should_skip, remove_skipped, remove_job,
  drain, close,
}
use truenas_incus_ctl.RealSession.Removal.{bit, count, sweep-past, sweep-kept, remove_job_lem}

-- A map that was never made skips no job.
sweep-none : (n i : ℕ) (jobs : List ℤ) → sweep (should_skip none) n i jobs ≡ (jobs, 0)
unfolding sweep should_skip
sweep-none zero i jobs = refl
sweep-none (suc n) i jobs = elim (Option-cases (get_elem? jobs i)) [
  | inl e ↦ sweep-past (should_skip none) n i jobs e
  | inr (j, e) ↦ rw (sweep-kept (should_skip none) n i jobs e refl) (sweep-none n (suc i) jobs)
]

module _ {F : Type 0} where
  abbrev pub ids : List (ApiJobResult F) → List ℤ
  ids rs = map (λ jr. jr.job_id) rs

-- The jobs of a list that are not answered yet.
abbrev pub pending : List ℤ → List ℤ → ℤ → ℕ
pending answered jobs b = if contains answered b then 0 else count b jobs

module _ {F : Type 0} (ops : FloatOps F) where
  -- The errors of the first result for each of the jobs, in the order of the results.
  unfoldable pub first_errors : List ℤ → List ℤ → List (ApiJobResult F) → List Str
  first_errors answered jobs [] = []
  first_errors answered jobs (jr ∷ rs) =
      errors_of ops (pending answered jobs jr.job_id) jr
      ++ first_errors (jr.job_id ∷ answered) jobs rs

-- An answered job is not pending any more; the others are as before.
pending-answer :
    (a b : ℤ) (answered jobs : List ℤ)
    → (if a == b then 0 else pending answered jobs b) ≡ pending (a ∷ answered) jobs b
pending-answer a b answered jobs = elim (Bool-cases (a == b)) [
  | inl t ↦ rw t refl
  | inr f ↦ rw f refl
]

pending-bound : (answered jobs : List ℤ) (b : ℤ) → count b jobs ≤ 1 → pending answered jobs b ≤ 1
pending-bound answered jobs b h = elim (Bool-cases (contains answered b)) [
  | inl t ↦ rw t (omega arith)
  | inr f ↦ rw f h
]

bound_before : (t : Bool) (n k : ℕ) {r : ℕ} → r ≡ (if t then 0 else n) → n ≤ bit t + k → r ≤ k
bound_before true n k e h = omega (arith, e)
bound_before false n k e h = omega (arith, e, h)

bound_after :
    (t : Bool) (n k : ℕ) {r : ℕ} → r ≡ (if t then 0 else n) → n ≤ 1 → r ≤ k → n ≤ bit t + k
bound_after true n k e u h = omega (arith, u)
bound_after false n k e u h = omega (arith, e, h)

module _ {F : Type 0} (ops : FloatOps F) where
  drain-step :
      (j : ℤ) (js : List ℤ) (jr : ApiJobResult F) (rs : List (ApiJobResult F)) {errors : List Str}
      {left : List (ApiJobResult F)}
      → drain ops (remove_job jr.job_id (j ∷ js)).0 rs ≡ some (errors, left)
      → drain ops (j ∷ js) (jr ∷ rs)
        ≡ some (errors_of ops (remove_job jr.job_id (j ∷ js)).1 jr ++ errors, left)
  unfolding drain
  drain-step j js jr rs e = rw (drain, e) refl

  pub drain-answers :
      (answered jobs m : List ℤ) (rs : List (ApiJobResult F))
      → ((b : ℤ) → count b jobs ≤ 1)
      → ((b : ℤ) → count b m ≡ pending answered jobs b)
      → ((b : ℤ) → count b m ≤ count b (ids rs))
      → (taken : List (ApiJobResult F)) × (left : List (ApiJobResult F)) × (rs ≡ taken ++ left)
        × (drain ops m rs ≡ some (first_errors ops answered jobs taken, left))
        × ((b : ℤ) → count b m ≤ count b (ids taken))
  unfolding drain first_errors count
  drain-answers answered jobs [] rs u h c = ([], rs, refl, refl, λ b. omega arith)
  drain-answers answered jobs (j ∷ js) [] u h c = absurd (omega (arith, c j, ap bit (eq_refl j)))
  drain-answers answered jobs (j ∷ js) (jr ∷ rs) u h c =
      let a = jr.job_id in
      let bound : (b : ℤ) → count b (j ∷ js) ≤ 1 =
        λ b. subst (λ (n : ℕ). n ≤ 1) (sym (h b)) (pending-bound answered jobs b (u b)) in
      let (n, left_counts) = remove_job_lem a (j ∷ js) (bound a) in
      let (taken, left, split, run, all) =
        drain-answers (a ∷ answered) jobs (remove_job a (j ∷ js)).0 rs u
          (λ b.
            left_counts b
            ∙ (ap (λ (n : ℕ). if a == b then 0 else n) (h b) ∙ pending-answer a b answered jobs))
          (λ b.
            bound_before (a == b) (count b (j ∷ js)) (count b (ids rs)) (left_counts b) (c b)) in
      (
        jr ∷ taken,
        left,
        ap (λ (l : List (ApiJobResult F)). jr ∷ l) split,
        drain-step j js jr rs run
            ∙ ap
                (λ (k : ℕ).
                  some (errors_of ops k jr ++ first_errors ops (a ∷ answered) jobs taken, left))
                (n ∙ h a),
        λ b.
            bound_after (a == b) (count b (j ∷ js)) (count b (ids taken)) (left_counts b) (bound b)
              (all b),
      )

  -- `close`, on a session that has a client and that no code told to skip a job: where the jobs of
  -- the list differ from each other and each has a result among those that come, it ends, it has
  -- taken a first part of the results with a result of each job in it, and it reports the error it
  -- was called with, then the errors of the first result of each job, then the error of closing the
  -- client.
  pub close-reports :
      (s : RealSession F) (internal_error close_error : Option Str)
      → s.has_client ≡ true
      → s.map_skip_wait_on_close ≡ none
      → ((b : ℤ) → count b s.jobs_list ≤ 1)
      → ((b : ℤ) → count b s.jobs_list ≤ count b (ids s.results_queue))
      → (taken : List (ApiJobResult F)) × (left : List (ApiJobResult F)) × (s.results_queue
          ≡ taken ++ left)
        × ((b : ℤ) → count b s.jobs_list ≤ count b (ids taken))
        × (close ops s internal_error close_error
            ≡ some (
              record s { has_client = false; jobs_list = []; results_queue = left },
              make_error_from_list (
                  as_list internal_error
                  ++ (first_errors ops [] s.jobs_list taken ++ as_list close_error)),
            ))
  unfolding close
  close-reports s internal_error close_error login skip u c =
      let (taken, left, split, run, all) =
        drain-answers [] s.jobs_list s.jobs_list s.results_queue u (λ b. refl) c in
      (
        taken,
        left,
        split,
        all,
        rw
            (
              close,
              login,
              ap (λ (m : Option (Dict ℤ Bool)). remove_skipped m s.jobs_list) skip,
              sweep-none (length s.jobs_list) 0 s.jobs_list,
              run,
            )
            refl,
      )
