-- ===== src/Client/Listen.antt =====
-- truenas_api/truenas_api.go, `listen`: what one message from the server does to a client.
use truenas_incus_ctl.Base.{
  Bool, List, [], ◌∷◌, ◌++◌, Option, none, some, ℤ, pos, int_eq, Str, str_eq, ◌==◌, codes,
  if◌then◌else◌,
}
use truenas_incus_ctl.Base.Dict.{Dict, lookup, insert}
use truenas_incus_ctl.Json.{Json, float, str, obj, Fields, FloatOps, get_field, as_str}
use truenas_incus_ctl.Api.{Run, returns, panics}
use truenas_incus_ctl.Daemon.Listen.{inner_job_of}
use truenas_incus_ctl.Client.Jobs.{Job, Jobs, is_owned_job, get_job, update_job_state}

-- `pending` maps the id of a call to what its channel, which has room for one message, holds.
pub record Client (F : Type 0) : Type 0 where
  pub is_closed : Bool
  pub call_id : ℤ
  pub pending : Dict ℤ (Option (Fields F))
  pub jobs : Jobs F
  pub has_jobs_cb : Bool

-- What a message makes the client tell others: the call of `jobsCb`, what is sent over a job's
-- `DoneCh`, and the call of a job's own callback.
pub data Notice (F : Type 0) : Type 0 where
  jobs_cb : ℤ → ℤ → Fields F → Notice F
  done_sent : ℤ → Str → Notice F
  callback : ℤ → F → Str → Str → Notice F

-- One round of the loop. A message for a channel that is full stops the loop, with the lock held.
pub data Handled (F : Type 0) : Type 0 where
  goes_on : Client F → List (Notice F) → Handled F
  is_stuck : Handled F
  has_panicked : Handled F

module _ {F : Type 0} (ops : FloatOps F) where
  -- `v.(map[string]interface{})`
  unfoldable pub as_object : Option (Json F) → Option (Fields F)
  as_object (some (obj fs)) = some fs
  as_object _ = none

  -- `v.(float64)`
  unfoldable pub as_float : Option (Json F) → Option F
  as_float (some (float f)) = some f
  as_float _ = none

  -- `f, _ := v.(float64)`
  unfoldable pub float_or_zero : Option (Json F) → F
  float_or_zero (some (float f)) = f
  float_or_zero _ = ops.of_int (pos 0)

  unfoldable pub done_notice : ℤ → Option Str → List (Notice F)
  done_notice job_id none = []
  done_notice job_id (some err) = done_sent job_id err ∷ []

  unfoldable pub call_back : ℤ → Option (Job F) → F → Str → Str → List (Notice F)
  call_back job_id none percent state description = []
  call_back job_id (some job) percent state description =
      if job.has_callback then callback job_id percent state description ∷ [] else []

  -- What follows `UpdateJobState`.
  unfoldable pub after_update : Client F → ℤ → F → Str → Str → Run (Jobs F × Option Str) → Handled F
  unfolding done_notice call_back
  after_update c job_id percent state description panics = has_panicked
  after_update c job_id percent state description (returns (jobs, sent)) =
      goes_on (record c { jobs = jobs })
        (done_notice job_id sent
          ++ call_back job_id (get_job jobs job_id) percent state description)

  -- The update of a job of this client, with its progress if that is an object.
  unfoldable pub update_with_progress : Client F → ℤ → Fields F → Option (Fields F) → Handled F
  unfolding after_update
  update_with_progress c job_id fields none = has_panicked
  update_with_progress c job_id fields (some progress) =
      let percent = float_or_zero (get_field (codes "percent") progress) in
      let state = as_str (get_field (codes "state") fields) in
      after_update c job_id percent state (as_str (get_field (codes "description") progress)) (
        update_job_state c.jobs job_id state percent
          (str (as_str (get_field (codes "result") fields)))
          (as_str (get_field (codes "error") fields)))

  unfoldable pub update_job : Client F → ℤ → Fields F → Handled F
  unfolding update_with_progress
  update_job c job_id fields =
      if c.has_jobs_cb
      then goes_on c (jobs_cb job_id (inner_job_of ops job_id fields) fields ∷ [])
      else if is_owned_job c.jobs job_id
      then update_with_progress c job_id fields (as_object (get_field (codes "progress") fields))
      else goes_on c []

  -- An update with its `id`, if that is a number, and its `fields`, if they are an object.
  unfoldable pub update_of : Client F → Option F → Option (Fields F) → Handled F
  unfolding update_job
  update_of c (some id) (some fields) = update_job c (ops.to_int64 id) fields
  update_of c _ _ = has_panicked

  unfoldable pub collection_update : Client F → Option (Fields F) → Handled F
  unfolding update_of
  collection_update c none = has_panicked
  collection_update c (some params) =
      update_of c (as_float (get_field (codes "id") params))
        (as_object (get_field (codes "fields") params))

  -- `ch <- message`
  unfoldable pub send_message : Client F → ℤ → Fields F → Option (Option (Fields F)) → Handled F
  send_message c call_id response none = goes_on c []
  send_message c call_id response (some (some m)) = is_stuck
  send_message c call_id response (some none) =
      goes_on (record c { pending = insert call_id (some response) c.pending }) []

  unfoldable pub answer_call : Client F → Fields F → Option F → Handled F
  unfolding send_message
  answer_call c response none = goes_on c []
  answer_call c response (some id) =
      send_message c (ops.to_int64 id) response (lookup (ops.to_int64 id) c.pending)

  unfoldable pub is_update : Fields F → Bool
  is_update response = as_str (get_field (codes "method") response) == codes "collection_update"

  -- A message that is a JSON object; the others are skipped.
  unfoldable pub handle_message : Client F → Fields F → Handled F
  unfolding collection_update answer_call
  handle_message c response =
      if is_update response
      then collection_update c (as_object (get_field (codes "params") response))
      else answer_call c response (as_float (get_field (codes "id") response))
