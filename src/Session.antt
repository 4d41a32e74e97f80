-- ===== src/Session.antt =====
-- core/session.go: the interface of a session and the two calls that the commands make over it, and
-- cmd/util_common.go, `MaybeBulkApiCallArray`.
pub mod Calls
pub mod Bulk
mod Tests
use truenas_incus_ctl.Base.{
  ℕ, Bool, true, false, ◌&&◌, ◌||◌, not, List, [], ◌∷◌, ◌++◌, Option, none, some, ℤ, zero, suc, pos,
  negsuc, is_neg, Str, codes, is_empty, if◌then◌else◌,
}
use truenas_incus_ctl.Json.{Json, str, arr, obj, Items, nil, cons, FloatOps}
use truenas_incus_ctl.Api.{extract_api_error_json}

-- A json.RawMessage: no bytes, bytes that `json.Unmarshal` refuses with an error, or a value.
pub data Message (F : Type 0) : Type 0 where
  no_message : Message F
  malformed : Str → Message F
  value : Json F → Message F

-- The two results of a call; a nil error is `none`.
pub record Answer (F : Type 0) : Type 0 where
  pub message : Message F
  pub error : Option Str

-- The two results of a call that starts a job.
pub record Started : Type 0 where
  pub job_id : ℤ
  pub error : Option Str

-- What a session does to its state `S`.
pub record Session (S F : Type 0) : Type 0 where
  pub is_logged_in : S → Bool
  pub login : S → S × Option Str
  pub call_raw : S → Str → ℤ → Json F → S × Answer F
  pub call_async_raw : S → Str → Json F → S × Started
  pub wait_for_job : S → ℤ → S × Answer F
  pub skip_waiting_job_on_close : S → ℤ → S

unfoldable pub is_positive : ℤ → Bool
is_positive (pos zero) = false
is_positive (pos (suc n)) = true
is_positive (negsuc n) = false

module _ {F : Type 0} (ops : FloatOps F) where
  -- `ExtractApiError`: the empty text is no error.
  unfoldable pub extract_api_error : Message F → Str
  extract_api_error no_message = []
  extract_api_error (malformed e) = codes "\n" ++ e
  extract_api_error (value (obj fs)) = extract_api_error_json ops fs
  extract_api_error (value _) = []

  unfoldable pub with_api_error : Message F → Str → Answer F
  with_api_error out [] = record { message = out; error = none }
  with_api_error out (c ∷ e) = record { message = out; error = some (c ∷ e) }

  -- What `ApiCall` returns for the results of `CallRaw`.
  unfoldable pub checked : Answer F → Answer F
  unfolding extract_api_error with_api_error
  checked a = elim a.error [
    | some e ↦ record { message = a.message; error = some e }
    | none ↦ with_api_error a.message (extract_api_error a.message)
  ]

module _ {S F : Type 0} (api : Session S F) where
  unfoldable pub maybe_login : S → S × Option Str
  maybe_login s = if api.is_logged_in s then (s, none) else api.login s

  unfoldable pub call_logged_in : FloatOps F → Str → ℤ → Json F → S × Option Str → S × Answer F
  unfolding checked
  call_logged_in ops method timeout params (s, some e) =
      (s, record { message = no_message; error = some e })
  call_logged_in ops method timeout params (s, none) =
      let (t, a) = api.call_raw s method timeout params in (t, checked ops a)

  unfoldable pub api_call : FloatOps F → S → Str → ℤ → Json F → S × Answer F
  unfolding call_logged_in maybe_login
  api_call ops s method timeout params = call_logged_in ops method timeout params (maybe_login s)

  -- The test behind `CallAsyncRaw`.
  unfoldable pub maybe_skip : Bool → S × Started → S × Started
  unfolding is_positive
  maybe_skip await_this_job (t, r) = elim r.error [
    | none ↦ (t, r)
    | some e ↦ (
      if is_positive r.job_id && not await_this_job
          then api.skip_waiting_job_on_close t r.job_id
          else t,
      r,
    )
  ]

  unfoldable pub start_logged_in : Str → Json F → Bool → S × Option Str → S × Started
  unfolding maybe_skip
  start_logged_in method params await_this_job (s, some e) =
      (s, record { job_id = negsuc 0; error = some e })
  start_logged_in method params await_this_job (s, none) =
      maybe_skip await_this_job (api.call_async_raw s method params)

  unfoldable pub api_call_async : S → Str → Json F → Bool → S × Started
  unfolding start_logged_in maybe_login
  api_call_async s method params await_this_job =
      start_logged_in method params await_this_job (maybe_login s)

abbrev calls_of : {F : Type 0} → List (Json F) → Items F
calls_of [] = nil
calls_of (j ∷ js) = cons j (calls_of js)

-- The three results of a bulk call.
pub record BulkAnswer (F : Type 0) : Type 0 where
  pub message : Message F
  pub job_id : ℤ
  pub error : Option Str

module _ {S F : Type 0} (api : Session S F) where
  unfoldable pub of_answer : ℤ → S × Answer F → S × BulkAnswer F
  of_answer job (s, a) = (s, record { message = a.message; job_id = job; error = a.error })

  unfoldable pub maybe_await : Bool → S × Started → S × BulkAnswer F
  unfolding of_answer
  maybe_await should_wait_now (s, r) = elim r.error [
    | some e ↦ (s, record { message = no_message; job_id = r.job_id; error = some e })
    | none ↦
        if not should_wait_now || is_neg r.job_id
        then (s, record { message = no_message; job_id = r.job_id; error = none })
        else of_answer r.job_id (api.wait_for_job s r.job_id)
  ]

  unfoldable pub maybe_bulk_api_call_array :
      FloatOps F → S → Str → ℤ → List (Json F) → Bool → S × BulkAnswer F
  unfolding of_answer maybe_await api_call api_call_async
  maybe_bulk_api_call_array ops s endpoint timeout [] should_wait_now = (
    s,
    record {
      message = no_message;
      job_id = negsuc 0;
      error = some (codes "MaybeBulkApiCallArray: Nothing to do");
    },
  )
  maybe_bulk_api_call_array ops s endpoint timeout (p ∷ []) should_wait_now =
      of_answer (negsuc 0) (api_call api ops s endpoint timeout p)
  maybe_bulk_api_call_array ops s endpoint timeout (p ∷ q ∷ ps) should_wait_now =
      maybe_await should_wait_now (
        api_call_async api s (codes "core.bulk")
          (arr (cons (str endpoint) (cons (arr (calls_of (p ∷ q ∷ ps))) nil))) should_wait_now)
