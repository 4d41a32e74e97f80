-- ===== src/Client/Requests.antt =====
-- truenas_api/truenas_api.go: the calls that a client makes by itself. `listen` passes on only
-- messages that it decoded as an object, so `json.Unmarshal` does not fail on the answers.
use truenas_incus_ctl.Base.{
  Bool, false, not, ◌&&◌, [], ◌++◌, Option, none, some, ℤ, int_eq, Str, codes, is_empty,
  if◌then◌else◌,
}
use truenas_incus_ctl.Base.Dict.{lookup, insert}
use truenas_incus_ctl.Json.{Json, bool, str, float, Items, nil, cons, FloatOps, get_field, sprint}
use truenas_incus_ctl.RealSession.{JobReply, call_failed, job_started}
use truenas_incus_ctl.Client.Jobs.{Jobs, add_job, add_owned_job}
use truenas_incus_ctl.Client.Listen.{Client}
use truenas_incus_ctl.Client.Calls.{Called, failed, answered}

module _ {F : Type 0} where
  unfoldable pub subscribe_to_jobs : Called F → Option Str
  subscribe_to_jobs (failed e) = some e
  subscribe_to_jobs (answered response) = none

  unfoldable pub pong : Option (Json F) → Str × Option Str
  pong (some (str s)) = (s, none)
  pong _ = ([], some (codes "unexpected ping response format"))

  unfoldable pub ping : Called F → Str × Option Str
  unfolding pong
  ping (failed e) = ([], some e)
  ping (answered response) = pong (get_field (codes "result") response)

  -- The method and the parameters of the call that logs in; none without credentials.
  unfoldable pub login_call : Str → Str → Str → Option (Str × Items F)
  login_call username password api_key =
      if not (is_empty api_key)
      then some (codes "auth.login_with_api_key", cons (str api_key) nil)
      else if not (is_empty username) && not (is_empty password)
      then some (codes "auth.login", cons (str username) (cons (str password) nil))
      else none

  unfoldable pub is_json_true : Option (Json F) → Bool
  is_json_true (some (bool b)) = b
  is_json_true _ = false

module _ {F : Type 0} (ops : FloatOps F) where
  unfoldable pub login_answer : Called F → Option Str
  unfolding is_json_true
  login_answer (failed e) = some (codes "login failed: " ++ e)
  login_answer (answered response) = elim (get_field (codes "error") response) [
    | some v ↦ some (codes "login error: " ++ sprint ops v)
    | none ↦
        if is_json_true (get_field (codes "result") response)
        then none
        else some (codes "login failed, unexpected response")
  ]

  -- `call` is what `Call` gives for a method and its parameters.
  unfoldable pub login : Str → Str → Str → (Str → Items F → Called F) → Option Str
  unfolding login_call login_answer
  login username password api_key call = elim (login_call {F = F} username password api_key) [
    | none ↦ some (codes "either username/password or API key must be provided")
    | some (method, params) ↦ login_answer (call method params)
  ]

  -- The job's own callback is set where it is not nil.
  unfoldable pub keep_callback : Jobs F → ℤ → Bool → Jobs F
  keep_callback j job_id has_callback = elim (lookup job_id j.jobs) [
    | none ↦ j
    | some job ↦ record j {
      jobs = insert job_id (record job { has_callback = has_callback }) j.jobs;
    }
  ]

  unfoldable pub track_job : Client F → ℤ → Str → Bool → Client F
  unfolding keep_callback
  track_job c job_id method has_callback = if c.has_jobs_cb then c else record c {
    jobs =
        keep_callback (add_owned_job (add_job ops c.jobs job_id method).0 job_id) job_id
          has_callback;
  }

  unfoldable pub start_job : Client F → Str → Bool → Option (Json F) → Client F × JobReply
  unfolding track_job
  start_job c method has_callback (some (float f)) =
      (track_job c (ops.to_int64 f) method has_callback, job_started (ops.to_int64 f))
  start_job c method has_callback _ = (c, call_failed (codes "unexpected response format for job"))

  unfoldable pub call_with_job : Client F → Str → Bool → Called F → Client F × JobReply
  unfolding start_job
  call_with_job c method has_callback (failed e) = (c, call_failed e)
  call_with_job c method has_callback (answered response) =
      elim (get_field (codes "error") response) [
        | some v ↦ (c, call_failed (codes "API error: " ++ sprint ops v))
        | none ↦ start_job c method has_callback (get_field (codes "result") response)
      ]
