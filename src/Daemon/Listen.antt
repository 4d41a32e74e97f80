-- ===== src/Daemon/Listen.antt =====
-- core/daemon.go, `listen`: what one message from the server does to a session, and the exit.
use truenas_incus_ctl.Base.{
  ℕ, Bool, ◌||◌, List, [], ◌∷◌, Option, none, some, ℤ, pos, negsuc, int_eq, is_neg, Str, str_eq,
  ◌==◌, codes, length, if◌then◌else◌,
}
use truenas_incus_ctl.Base.Dict.{lookup, insert}
use truenas_incus_ctl.Json.{
  Json, null, float, arr, obj, cons, Fields, end, FloatOps, get_field, as_str,
}
use truenas_incus_ctl.Daemon.Session.{TruenasSession, alloc, reach_at}

module _ {F : Type 0} (ops : FloatOps F) where
  -- `v, _ := x.(float64); int64(v)`
  unfoldable pub as_int64 : Option (Json F) → ℤ
  as_int64 (some (float f)) = ops.to_int64 f
  as_int64 _ = pos 0

  -- `core.job_wait` reports the job that it waits for as its first argument.
  unfoldable pub waited_job : Option (Json F) → ℤ → ℤ
  waited_job (some (arr (cons (float f) js))) job = ops.to_int64 f
  waited_job _ job = job

  unfoldable pub inner_job_of : ℤ → Fields F → ℤ
  unfolding waited_job
  inner_job_of job fields =
      if as_str (get_field (codes "method") fields) == codes "core.job_wait"
      then waited_job (get_field (codes "arguments") fields) job
      else job

  abbrev pub is_final : Str → Bool
  is_final state = state == codes "SUCCESS" || state == codes "FAILED"

  -- A nil map has no keys.
  unfoldable pub as_map : Option (Json F) → Fields F
  as_map (some (obj fs)) = fs
  as_map _ = end

  -- The job that a message settles, or -1.
  unfoldable pub settled_job : Fields F → ℤ
  unfolding as_int64 inner_job_of as_map
  settled_job response =
      let params = as_map (get_field (codes "params") response) in
      let fields = as_map (get_field (codes "fields") params) in
      if as_str (get_field (codes "method") response) == codes "collection_update"
      then (if is_final (as_str (get_field (codes "state") fields))
          then inner_job_of (as_int64 (get_field (codes "id") params)) fields
          else negsuc 0)
      else negsuc 0

  unfoldable pub update_fields : Fields F → Fields F
  unfolding as_map
  update_fields response =
      as_map (get_field (codes "fields") (as_map (get_field (codes "params") response)))

  -- The call that a message answers, or -1.
  unfoldable pub id_value : Option (Json F) → ℤ
  unfolding as_int64
  id_value none = negsuc 0
  id_value (some j) = as_int64 (some j)

-- `fJob, exists = s.jobMap_[id]`, with a new future if there is none.
unfoldable pub job_future : {F : Type 0} → TruenasSession F → ℤ → TruenasSession F × ℕ
unfolding alloc
job_future s id = elim (lookup id s.job_map) [
  | some p ↦ (s, p)
  | none ↦ (
    record s { job_map = insert id (length s.futures) s.job_map; futures = alloc s.futures },
    length s.futures,
  )
]

unfoldable pub settle_job : {F : Type 0} → TruenasSession F → ℤ → Json F → TruenasSession F
unfolding job_future
settle_job s id v =
    if is_neg id
    then s
    else let (t, p) = job_future s id in record t { futures = reach_at t.futures p v none }

unfoldable pub complete_call : {F : Type 0} → TruenasSession F → ℤ → Json F → TruenasSession F
complete_call s id v = if is_neg id then s else elim (lookup id s.call_map) [
  | none ↦ s
  | some p ↦ record s { futures = reach_at s.futures p v none }
]

-- One round of the loop, for a message that is a JSON object; others are skipped.
unfoldable pub handle_message :
    {F : Type 0} → FloatOps F → TruenasSession F → Fields F → TruenasSession F
unfolding settle_job complete_call settled_job id_value update_fields
handle_message ops s response =
    complete_call (settle_job s (settled_job ops response) (obj (update_fields ops response)))
      (id_value ops (get_field (codes "id") response)) (obj response)

unfoldable pub fail_all : {F : Type 0} → TruenasSession F → List (ℤ × ℕ) → Str → TruenasSession F
fail_all s [] e = s
fail_all s ((id, p) ∷ ps) e =
    fail_all (record s { futures = reach_at s.futures p null (some e) }) ps e

-- The deferred part of `listen`: every call and every job that is not done fails.
unfoldable pub exit_listen : {F : Type 0} → TruenasSession F → Str → TruenasSession F
unfolding fail_all
exit_listen s e = let t = fail_all s s.call_map e in fail_all t t.job_map e
