-- ===== src/RealSession.antt =====
-- core/real_api.go: a session with a websocket of its own. The listen thread adds the results of jobs
-- to a queue; here the queue is the list of what it holds and of what comes while a method waits.
pub mod Removal
pub mod Closing
pub mod Waiting
pub mod Login
mod Tests
use truenas_incus_ctl.Base.{
  ℕ, zero, suc, ◌+◌, ◌-◌, Bool, true, false, ◌||◌, not, List, [], ◌∷◌, ◌++◌, Option, none, some, ℤ,
  int_eq, negsuc, Str, str_eq, codes, ◌==◌, to_upper, is_empty, length, get_elem?, set, take,
  replicate, if◌then◌else◌, ltb, pos,
}
use truenas_incus_ctl.Base.Dict.{Dict, lookup, insert}
use truenas_incus_ctl.Base.Decimal.{itoa}
use truenas_incus_ctl.Json.{
  Json, null, str, arr, obj, Items, nil, cons, Fields, FloatOps, get_field, as_str, sprint,
}
use truenas_incus_ctl.Api.{Run, returns, panics, make_error_from_list, or_null}
use truenas_incus_ctl.Session.{Started}

-- A nil result or error is `null`.
pub record ApiJobResult (F : Type 0) : Type 0 where
  pub job_id : ℤ
  pub method : Str
  pub state : Str
  pub result : Json F
  pub error : Json F

-- A nil map for the jobs to skip is `none`: no code makes the map.
pub record RealSession (F : Type 0) : Type 0 where
  pub has_client : Bool
  pub subscribed_to_jobs : Bool
  pub results_queue : List (ApiJobResult F)
  pub jobs_list : List ℤ
  pub map_skip_wait_on_close : Option (Dict ℤ Bool)

module _ {F : Type 0} (ops : FloatOps F) where
  -- The elements of the result that may hold an error, each with its place.
  unfoldable pub array_of_results : Items F → List (Option (Fields F))
  array_of_results nil = []
  array_of_results (cons (obj fs) js) = some fs ∷ array_of_results js
  array_of_results (cons j js) = none ∷ array_of_results js

  unfoldable pub results_of : Json F → List (Option (Fields F))
  unfolding array_of_results
  results_of (arr js) = array_of_results js
  results_of (obj fs) = some fs ∷ []
  results_of _ = []

  -- The error in one element: a string that is empty is reported as any other value.
  unfoldable pub element_error : ℕ → Option (Json F) → List Str
  element_error i none = []
  element_error i (some null) = []
  element_error i (some v) = (itoa (pos i) ++ (codes ": " ++ sprint ops v)) ∷ []

  unfoldable pub element_errors : ℕ → List (Option (Fields F)) → List Str
  unfolding element_error
  element_errors i [] = []
  element_errors i (none ∷ rs) = element_errors (suc i) rs
  element_errors i (some fs ∷ rs) =
      element_error i (get_field (codes "error") fs) ++ element_errors (suc i) rs

  unfoldable pub error_in : Json F → Json F → Option Str
  unfolding element_errors results_of
  error_in null null = none
  error_in result null = make_error_from_list (element_errors 0 (results_of result))
  error_in result error = some (sprint ops error)

  unfoldable pub get_error : ApiJobResult F → Option Str
  unfolding error_in
  get_error jr = error_in jr.result jr.error

-- What `CallWithJob` gives: on an error the job is a nil pointer.
pub data JobReply : Type 0 where
  call_failed : Str → JobReply
  job_started : ℤ → JobReply

module _ {F : Type 0} where
  unfoldable pub handle_job_update : RealSession F → ℤ → Fields F → RealSession F
  unfolding or_null
  handle_job_update s inner_job_id params =
      let state = to_upper (as_str (get_field (codes "state") params)) in
      if state == codes "SUCCESS" || state == codes "FAILED"
      then record s {
        results_queue =
            s.results_queue
            ++ record {
              job_id = inner_job_id;
              method = as_str (get_field (codes "params") params);
              state = state;
              result = or_null (get_field (codes "result") params);
              error = or_null (get_field (codes "error") params);
            }
              ∷ [];
      }
      else s

  unfoldable pub await_main_job : RealSession F → ℤ → JobReply → RealSession F × Run Started
  await_main_job s id (call_failed e) = (s, returns (record { job_id = id; error = some e }))
  await_main_job s id (job_started _) = (
    record s { jobs_list = s.jobs_list ++ id ∷ [] },
    returns (record { job_id = id; error = none }),
  )

  -- `mainJob.ID` is read also where `mainJob` is nil.
  unfoldable pub start_main_job : RealSession F → JobReply → JobReply → RealSession F × Run Started
  unfolding await_main_job
  start_main_job s (call_failed e) wait_reply = (s, panics)
  start_main_job s (job_started id) wait_reply = await_main_job s id wait_reply

  -- The arguments are what `SubscribeToJobs` and the two calls of `CallWithJob` give.
  unfoldable pub call_async_raw :
      RealSession F → Option Str → JobReply → JobReply → RealSession F × Run Started
  unfolding start_main_job
  call_async_raw s subscribe_error main_reply wait_reply =
      if s.subscribed_to_jobs
      then start_main_job s main_reply wait_reply
      else elim subscribe_error [
        | some e ↦ (s, returns (record { job_id = negsuc 0; error = some e }))
        | none ↦ start_main_job (record s { subscribed_to_jobs = true }) main_reply wait_reply
      ]

  -- A write to a nil map panics.
  unfoldable pub skip_waiting_job_on_close : RealSession F → ℤ → Run (RealSession F)
  skip_waiting_job_on_close s job_id = elim s.map_skip_wait_on_close [
    | none ↦ panics
    | some m ↦ returns (record s { map_skip_wait_on_close = some (insert job_id true m) })
  ]

-- `l[i] = l[len(l)-1]; l = l[:len(l)-1]`
unfoldable pub last_or : ℤ → List ℤ → ℤ
last_or d [] = d
last_or d (x ∷ xs) = last_or x xs

unfoldable pub swap_remove : List ℤ → ℕ → List ℤ
unfolding last_or
swap_remove jobs i = take (length jobs - 1) (set jobs i (last_or (negsuc 0) jobs))

unfoldable pub index_of_job : List ℤ → ℤ → ℕ → Option ℕ
index_of_job [] job_id i = none
index_of_job (j ∷ jobs) job_id i =
    let rest = index_of_job jobs job_id (suc i) in if j == job_id then some i else rest

module _ {F : Type 0} where
  -- The loop of `WaitForJob`: the result of the job, the list of the irrelevant ones, and what the
  -- queue still holds. `none` is a wait that does not end.
  unfoldable pub take_until :
      ℤ
      → List (ApiJobResult F)
      → List (ApiJobResult F)
      → Option (ApiJobResult F × List (ApiJobResult F) × List (ApiJobResult F))
  take_until job_id [] irrelevant = none
  take_until job_id (jr ∷ rs) irrelevant =
      let rest = take_until job_id rs (irrelevant ++ jr ∷ []) in
      if jr.job_id == job_id then some (jr, irrelevant, rs) else rest

-- The two results of `WaitForJob`, before `json.Marshal`; no data is `null`.
pub record Waited (F : Type 0) : Type 0 where
  pub message : Json F
  pub error : Option Str

module _ {F : Type 0} (ops : FloatOps F) where
  unfoldable pub waited : ApiJobResult F → Waited F
  unfolding get_error
  waited jr = elim (get_error ops jr) [
    | some e ↦ record { message = null; error = some e }
    | none ↦ record { message = jr.result; error = none }
  ]

  unfoldable pub finish_wait :
      RealSession F
      → ℕ
      → ApiJobResult F × List (ApiJobResult F) × List (ApiJobResult F)
      → RealSession F × Waited F
  unfolding waited swap_remove
  finish_wait s idx (jr, irrelevant, rest) = (
    record s { results_queue = rest ++ irrelevant; jobs_list = swap_remove s.jobs_list idx },
    waited jr,
  )

  unfoldable pub wait_for_job : RealSession F → ℤ → Option (RealSession F × Waited F)
  unfolding index_of_job take_until finish_wait
  wait_for_job s job_id = elim (index_of_job s.jobs_list job_id 0) [
    | none ↦ some (
      s,
      record {
        message = null;
        error =
            some
              (codes "Job ID " ++ (itoa job_id ++ codes " was not submitted during this session"));
      },
    )
    | some idx ↦ elim (take_until job_id s.results_queue []) [
      | none ↦ none
      | some found ↦ some (finish_wait s idx found)
    ]
  ]

-- The loops of `Close` over `jobsList`: an entry that passes the test is removed by `swap_remove`,
-- and the counter goes on to the next place. The second result counts the entries removed.
unfoldable pub sweep : (ℤ → Bool) → ℕ → ℕ → List ℤ → List ℤ × ℕ
unfolding swap_remove
sweep test zero i jobs = (jobs, 0)
sweep test (suc rounds) i jobs =
    let removed = sweep test rounds (suc i) (swap_remove jobs i) in
    let kept = sweep test rounds (suc i) jobs in
    elim (get_elem? jobs i) [
      | none ↦ (jobs, 0)
      | some j ↦ if test j then (removed.0, suc removed.1) else kept
    ]

unfoldable pub should_skip : Option (Dict ℤ Bool) → ℤ → Bool
should_skip none j = false
should_skip (some m) j = elim (lookup j m) [ none ↦ false | some b ↦ b ]

unfoldable pub remove_skipped : Option (Dict ℤ Bool) → List ℤ → List ℤ
unfolding sweep should_skip
remove_skipped skip jobs = (sweep (should_skip skip) (length jobs) 0 jobs).0

unfoldable pub remove_job : ℤ → List ℤ → List ℤ × ℕ
unfolding sweep
remove_job job_id jobs = sweep (λ j. j == job_id) (length jobs) 0 jobs

abbrev pub as_list : Option Str → List Str
as_list none = []
as_list (some e) = e ∷ []

module _ {F : Type 0} (ops : FloatOps F) where
  abbrev pub errors_of : ℕ → ApiJobResult F → List Str
  errors_of zero jr = []
  errors_of (suc n) jr = as_list (get_error ops jr) ++ errors_of n jr

  -- The loop that takes results until no job is left: the errors, and what the queue still holds.
  -- `none` is a loop that waits for ever.
  unfoldable pub drain : List ℤ → List (ApiJobResult F) → Option (List Str × List (ApiJobResult F))
  unfolding remove_job
  drain [] rs = some ([], rs)
  drain (j ∷ js) [] = none
  drain (j ∷ js) (jr ∷ rs) =
      let (jobs, n) = remove_job jr.job_id (j ∷ js) in
      let rest = drain jobs rs in
      elim rest [ none ↦ none | some (errors, left) ↦ some (errors_of n jr ++ errors, left) ]

  -- `close_error` is what closing the client gives.
  unfoldable pub close :
      RealSession F → Option Str → Option Str → Option (RealSession F × Option Str)
  unfolding drain remove_skipped
  close s internal_error close_error =
      if not s.has_client
      then some (s, internal_error)
      else elim (drain (remove_skipped s.map_skip_wait_on_close s.jobs_list) s.results_queue) [
        | none ↦ none
        | some (errors, left) ↦ some (
          record s { has_client = false; jobs_list = []; results_queue = left },
          make_error_from_list (as_list internal_error ++ (errors ++ as_list close_error)),
        )
      ]
