-- ===== src/Session/Calls.antt =====
-- core/session.go: what the errors of `ApiCall` and the flag of `ApiCallAsync` mean.
use truenas_incus_ctl.Base.{◌≡◌, ◌↔◌, refl, Bool, [], ◌∷◌, Option, none, some, ℤ, Str, arith}
use truenas_incus_ctl.Json.{Json, FloatOps}
use truenas_incus_ctl.Session.{
  Message, Answer, Started, Session, extract_api_error, with_api_error, checked, maybe_login,
  call_logged_in, api_call, maybe_skip, start_logged_in, api_call_async,
}

module _ {S F : Type 0} (ops : FloatOps F) (api : Session S F) where
  with_api_error-ok_iff :
      (out : Message F) (e : Str) → ((with_api_error ops out e).error ≡ none) ↔ (e ≡ [])
  unfolding with_api_error
  with_api_error-ok_iff out [] = ground arith
  with_api_error-ok_iff out (c ∷ e) = ground arith

  checked-ok_iff :
      (a : Answer F)
      → ((checked ops a).error ≡ none) ↔ ((a.error ≡ none) × (extract_api_error ops a.message ≡ []))
  unfolding checked
  checked-ok_iff a =
      ground (arith, with_api_error-ok_iff a.message (extract_api_error ops a.message))

  call_logged_in-ok_iff :
      (method : Str) (timeout : ℤ) (params : Json F) (l : S × Option Str)
      → ((call_logged_in api ops method timeout params l).1.error ≡ none) ↔ (
          (l.1 ≡ none)
          × ((api.call_raw l.0 method timeout params).1.error ≡ none)
          × (extract_api_error ops (api.call_raw l.0 method timeout params).1.message ≡ []))
  unfolding call_logged_in
  call_logged_in-ok_iff method timeout params (s, some e) = ground arith
  call_logged_in-ok_iff method timeout params (s, none) =
      ground (arith, checked-ok_iff (api.call_raw s method timeout params).1)

  -- ApiCall has no error exactly if the session is logged in or its login succeeds, the call behind
  -- that has no error, and its message holds none.
  api_call-ok_iff :
      (s : S) (method : Str) (timeout : ℤ) (params : Json F)
      → let l = maybe_login api s in
        let r = api.call_raw l.0 method timeout params in
        ((api_call api ops s method timeout params).1.error ≡ none)
        ↔ ((l.1 ≡ none) × (r.1.error ≡ none) × (extract_api_error ops r.1.message ≡ []))
  unfolding api_call
  api_call-ok_iff s method timeout params =
      call_logged_in-ok_iff method timeout params (maybe_login api s)

module _ {S F : Type 0} (api : Session S F) where
  maybe_skip-flag :
      (b c : Bool) (r : S × Started)
      → (maybe_skip api b r).1.error ≡ none
      → maybe_skip api b r ≡ maybe_skip api c r
  unfolding maybe_skip
  maybe_skip-flag b c (t, r) h = ground (arith, h)

  start_logged_in-flag :
      (method : Str) (params : Json F) (b c : Bool) (l : S × Option Str)
      → (start_logged_in api method params b l).1.error ≡ none
      → start_logged_in api method params b l ≡ start_logged_in api method params c l
  unfolding start_logged_in
  start_logged_in-flag method params b c (s, some e) h = refl
  start_logged_in-flag method params b c (s, none) h =
      maybe_skip-flag b c (api.call_async_raw s method params) h

  -- A job that ApiCallAsync starts without an error is waited for or not whatever the flag says that
  -- asks not to wait: the state of the session and the results are the same for both flags.
  pub api_call_async-flag :
      (s : S) (method : Str) (params : Json F) (b c : Bool)
      → (api_call_async api s method params b).1.error ≡ none
      → api_call_async api s method params b ≡ api_call_async api s method params c
  unfolding api_call_async
  api_call_async-flag s method params b c h =
      start_logged_in-flag method params b c (maybe_login api s) h
