-- ===== src/Daemon/Jobs.antt =====
-- core/daemon.go, `handleDaemonProcedure`: "peek_job" and "await_job".
pub mod Delivery
use truenas_incus_ctl.Base.{
  ℕ, Bool, true, false, List, [], ◌∷◌, ◌++◌, Option, none, some, ℤ, int_eq, Str, str_eq, ◌==◌,
  codes, get_elem?, if◌then◌else◌,
}
use truenas_incus_ctl.Base.Dict.{lookup}
use truenas_incus_ctl.Base.Decimal.{itoa}
use truenas_incus_ctl.Json.{
  Json, null, str, float, int64, arr, obj, nil, cons, end, field, FloatOps,
}
use truenas_incus_ctl.Future.{Future, peek, get}
use truenas_incus_ctl.Daemon.Session.{TruenasSession}
use truenas_incus_ctl.Daemon.Listen.{job_future}

-- The two results of a daemon procedure.
abbrev pub Answer : Type 0 → Type 0
Answer F = Json F × Option Str

-- A procedure answers, or has to call "core.job_wait" and then wait for the future at the pointer.
pub data Procedure (F : Type 0) : Type 0 where
  answers : Answer F → Procedure F
  waits_for : ℤ → ℕ → Procedure F

module _ {F : Type 0} where
  -- The first parameter, if it is a number.
  unfoldable pub first_param_as_number : FloatOps F → List (Json F) → Option ℤ
  first_param_as_number ops (float f ∷ ps) = some (ops.to_int64 f)
  first_param_as_number ops _ = none

  unfoldable pub make_incomplete_job_status : ℤ → Json F
  make_incomplete_job_status id = obj (
      field (codes "arguments") (arr (cons (int64 id) nil))
        (field (codes "state") (str (codes "WAITING")) end))

  abbrev job_missing : ℤ → Answer F
  job_missing id = (null, some (codes "Job #" ++ itoa id ++ codes " could not be found internally"))

  unfoldable pub peek_future : ℤ → Option (Future (Json F) Str) → Answer F
  unfolding make_incomplete_job_status
  peek_future id none = job_missing id
  peek_future id (some f) =
      if f.done then (f.value, f.err) else (make_incomplete_job_status id, none)

  unfoldable pub peek_job : TruenasSession F → ℤ → Answer F
  unfolding peek_future
  peek_job s id = elim (lookup id s.job_map) [
    | none ↦ job_missing id
    | some p ↦ peek_future id (get_elem? s.futures p)
  ]

  -- The job has a future: its result if it is done.
  unfoldable pub await_future : ℤ → ℕ → Option (Future (Json F) Str) → Procedure F
  await_future id p none = waits_for id p
  await_future id p (some f) = if f.done then answers (f.value, f.err) else waits_for id p

  -- A job that is not known yet gets its future here.
  unfoldable pub await_job : TruenasSession F → ℤ → TruenasSession F × Procedure F
  unfolding job_future await_future
  await_job s id =
      let (t, p) = job_future s id in
      elim (lookup id s.job_map) [
        | none ↦ (t, waits_for id p)
        | some q ↦ (t, await_future id q (get_elem? s.futures q))
      ]

  -- `fJob.Get()` behind the call of "core.job_wait", whose error is `call_error`; `none` while the
  -- job is not done.
  unfoldable pub get_job : TruenasSession F → ℕ → Option Str → Option (Answer F)
  unfolding get
  get_job s p (some e) = some (null, some e)
  get_job s p none = elim (get_elem? s.futures p) [ none ↦ none | some f ↦ get f ]

  unfoldable pub number_or :
      Option ℤ
      → Str
      → (ℤ → TruenasSession F × Procedure F)
      → TruenasSession F
      → TruenasSession F × Procedure F
  number_or none proc k s = (
    s,
    answers (
      null,
      some (codes "tnc_daemon." ++ proc ++ codes " expects the first parameter to be a job number"),
    ),
  )
  number_or (some id) proc k s = k id

  unfoldable pub handle_daemon_procedure :
      FloatOps F → TruenasSession F → Str → List (Json F) → TruenasSession F × Procedure F
  unfolding peek_job await_job first_param_as_number number_or
  handle_daemon_procedure ops s proc params =
      let id = first_param_as_number ops params in
      if proc == codes "peek_job"
      then number_or id proc (λ n. (s, answers (peek_job s n))) s
      else if proc == codes "await_job"
      then number_or id proc (λ n. await_job s n) s
      else (
        s,
        answers
            (null, some (codes "Unrecognised daemon command \"tnc_daemon." ++ proc ++ codes "\"")),
      )
