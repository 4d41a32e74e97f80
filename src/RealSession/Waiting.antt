-- ===== src/RealSession/Waiting.antt =====
-- core/real_api.go: the result that `WaitForJob` takes from the queue.
use truenas_incus_ctl.Base.{
  ℕ, suc, ◌+◌, ◌≤◌, ◌≡◌, refl, sym, ap, ◌∙◌, ◌↔◌, ◌⊎◌, inl, inr, true, List, [], ◌∷◌, ◌++◌, Option,
  none, some, ℤ, int_eq, ◌==◌, eq_refl, get_elem?, arith, Bool-cases, append_assoc, Str, append-nil,
}
use truenas_incus_ctl.Json.{FloatOps}
use truenas_incus_ctl.RealSession.{
  ApiJobResult, RealSession, waited, index_of_job, take_until, finish_wait, swap_remove,
  wait_for_job, JobReply, call_failed, job_started, call_async_raw, start_main_job, await_main_job,
}
use truenas_incus_ctl.Api.{panics}
use truenas_incus_ctl.RealSession.Removal.{bit, count, swap_remove-counts}
use truenas_incus_ctl.RealSession.Closing.{ids}

-- A job of the list is found, at a place where it stands.
index_of_job-found :
    (a : ℤ) (xs : List ℤ) (i : ℕ)
    → 1 ≤ count a xs
    → (k : ℕ) × (index_of_job xs a i ≡ some (i + k)) × (get_elem? xs k ≡ some a)
unfolding index_of_job count
index_of_job-found a [] i h = absurd (omega arith)
index_of_job-found a (x ∷ xs) i h = elim (Bool-cases (x == a)) [
  | inl t ↦ (
    0,
    rw (index_of_job, t) (ap (λ (n : ℕ). some n) (omega arith)),
    ap (λ (b : ℤ). some b) ((int_eq.beq_iff x a).0 t),
  )
  | inr f ↦
      let (k, e, g) = index_of_job-found a xs (suc i) (omega (arith, ap bit f)) in
      (suc k, rw (index_of_job, f) (e ∙ ap (λ (n : ℕ). some n) (omega arith)), g)
]

module _ {F : Type 0} where
  take_until-found :
      (a : ℤ) (before : List (ApiJobResult F)) (jr : ApiJobResult F)
      (after irrelevant : List (ApiJobResult F))
      → count a (ids before) ≡ 0
      → jr.job_id ≡ a
      → take_until a (before ++ jr ∷ after) irrelevant ≡ some (jr, irrelevant ++ before, after)
  unfolding take_until count
  take_until-found a [] jr after irrelevant h e =
      rw (take_until, ap (λ (b : ℤ). b == a) e, eq_refl a)
        (ap (λ (l : List (ApiJobResult F)). some (jr, l, after)) (sym (append-nil irrelevant)))
  take_until-found a (b ∷ before) jr after irrelevant h e = elim (Bool-cases (b.job_id == a)) [
    | inl t ↦ absurd (omega (arith, h, ap bit t))
    | inr f ↦
        rw
          (
            take_until,
            f,
            take_until-found a before jr after (irrelevant ++ b ∷ []) (omega (arith, h)) e,
          )
          (ap (λ (l : List (ApiJobResult F)). some (jr, l, after))
            (append_assoc irrelevant (b ∷ []) before))
  ]

  take_until-missing :
      (a : ℤ) (rs irrelevant : List (ApiJobResult F))
      → count a (ids rs) ≡ 0
      → take_until a rs irrelevant ≡ none
  unfolding take_until count
  take_until-missing a [] irrelevant h = refl
  take_until-missing a (b ∷ rs) irrelevant h = elim (Bool-cases (b.job_id == a)) [
    | inl t ↦ absurd (omega (arith, h, ap bit t))
    | inr f ↦ rw (take_until, f) (take_until-missing a rs (irrelevant ++ b ∷ []) (omega (arith, h)))
  ]

  wait_for_job-found :
      (ops : FloatOps F) (s : RealSession F) (job_id : ℤ) (k : ℕ)
      {found : ApiJobResult F × List (ApiJobResult F) × List (ApiJobResult F)}
      → index_of_job s.jobs_list job_id 0 ≡ some k
      → take_until job_id s.results_queue [] ≡ some found
      → wait_for_job ops s job_id ≡ some (finish_wait ops s k found)
  unfolding wait_for_job
  wait_for_job-found ops s job_id k e f = rw (wait_for_job, e, f) refl

  -- `wait_for_job`, for a job of the list of which a result comes: it returns what the first of its
  -- results holds, the results before that one are put back behind those after it, and one entry of
  -- the job, and nothing else, leaves the list of jobs.
  pub wait_for_job-takes :
      (ops : FloatOps F) (s : RealSession F) (job_id : ℤ) (before : List (ApiJobResult F))
      (jr : ApiJobResult F) (after : List (ApiJobResult F))
      → 1 ≤ count job_id s.jobs_list
      → s.results_queue ≡ before ++ jr ∷ after
      → count job_id (ids before) ≡ 0
      → jr.job_id ≡ job_id
      → (jobs : List ℤ) × (wait_for_job ops s job_id
          ≡ some (record s { results_queue = after ++ before; jobs_list = jobs }, waited ops jr))
        × ((b : ℤ) → count b jobs + bit (job_id == b) ≡ count b s.jobs_list)
  unfolding finish_wait
  wait_for_job-takes ops s job_id before jr after h q z e =
      let (k, found, at_k) = index_of_job-found job_id s.jobs_list 0 h in
      (
        swap_remove s.jobs_list k,
        wait_for_job-found ops s job_id k (found ∙ ap (λ (n : ℕ). some n) (omega arith)) (
            ap (λ (rs : List (ApiJobResult F)). take_until job_id rs []) q
            ∙ take_until-found job_id before jr after [] z e),
        (swap_remove-counts s.jobs_list k at_k).1,
      )

  -- The first result of a job, where one comes.
  first_result :
      (a : ℤ) (rs : List (ApiJobResult F))
      → (count a (ids rs) ≡ 0)
        ⊎ ((before : List (ApiJobResult F)) × (jr : ApiJobResult F) × (after : List
              (ApiJobResult F))
            × (rs ≡ before ++ jr ∷ after)
            × (count a (ids before) ≡ 0)
            × (jr.job_id ≡ a))
  unfolding count
  first_result a [] = inl refl
  first_result a (r ∷ rs) = elim (Bool-cases (r.job_id == a)) [
    | inl t ↦ inr ([], r, rs, refl, refl, (int_eq.beq_iff r.job_id a).0 t)
    | inr f ↦ elim (first_result a rs) [
      | inl z ↦ inl (omega (arith, ap bit f, z))
      | inr (before, jr, after, e, z, h) ↦ inr (
        r ∷ before,
        jr,
        after,
        ap (λ (l : List (ApiJobResult F)). r ∷ l) e,
        omega (arith, ap bit f, z),
        h,
      )
    ]
  ]

  wait_for_job-missing :
      (ops : FloatOps F) (s : RealSession F) (job_id : ℤ) (k : ℕ)
      → index_of_job s.jobs_list job_id 0 ≡ some k
      → take_until job_id s.results_queue [] ≡ none
      → wait_for_job ops s job_id ≡ none
  unfolding wait_for_job
  wait_for_job-missing ops s job_id k e f = rw (wait_for_job, e, f) refl

  -- `wait_for_job`, for a job of the list: it waits for ever where, and only where, no result of the
  -- job comes.
  pub wait_for_job-hangs_iff :
      (ops : FloatOps F) (s : RealSession F) (job_id : ℤ)
      → 1 ≤ count job_id s.jobs_list
      → (wait_for_job ops s job_id ≡ none) ↔ (count job_id (ids s.results_queue) ≡ 0)
  wait_for_job-hangs_iff ops s job_id h = (
    λ e. elim (first_result job_id s.results_queue) [
      | inl z ↦ z
      | inr (before, jr, after, q, z, i) ↦
          let (jobs, run, rest) = wait_for_job-takes ops s job_id before jr after h q z i in
          absurd (cc)
    ],
    λ z.
        let (k, found, at_k) = index_of_job-found job_id s.jobs_list 0 h in
        wait_for_job-missing ops s job_id (0 + k) found
          (take_until-missing job_id s.results_queue [] z),
  )

-- `call_async_raw` panics where, and only where, the session is subscribed to jobs, or is by this
-- call, and the call of the method itself gives an error.
pub call_async_raw-panics_iff :
    {F : Type 0} (s : RealSession F) (subscribe_error : Option Str)
    (main_reply wait_reply : JobReply)
    → ((call_async_raw s subscribe_error main_reply wait_reply).1 ≡ panics) ↔ (
        ((s.subscribed_to_jobs ≡ true) ⊎ (subscribe_error ≡ none))
        × ((e : Str) × (main_reply ≡ call_failed e)))
unfolding call_async_raw start_main_job await_main_job
call_async_raw-panics_iff s subscribe_error (call_failed e) wait_reply = ground arith
call_async_raw-panics_iff s subscribe_error (job_started id) wait_reply = ground arith
