-- ===== src/Client/Jobs.antt =====
-- truenas_api/truenas_api.go: the jobs that a client keeps track of.
use truenas_incus_ctl.Base.{
  Bool, true, false, ◌||◌, [], Option, none, some, ℤ, pos, int_eq, Str, str_eq, ◌==◌, codes,
  if◌then◌else◌,
}
use truenas_incus_ctl.Base.Dict.{Dict, lookup, insert, erase, has}
use truenas_incus_ctl.Json.{Json, null, FloatOps}
use truenas_incus_ctl.Api.{Run, returns, panics}

-- `finished` also says that both channels are closed: the two happen under one lock.
pub record Job (F : Type 0) : Type 0 where
  pub id : ℤ
  pub method : Str
  pub state : Str
  pub result : Json F
  pub progress : F
  pub finished : Bool
  pub has_callback : Bool

pub record Jobs (F : Type 0) : Type 0 where
  pub jobs : Dict ℤ (Job F)
  pub owned_job_ids : Dict ℤ Bool

module _ {F : Type 0} where
  unfoldable pub new_jobs : Jobs F
  new_jobs = record { jobs = []; owned_job_ids = [] }

  unfoldable pub add_owned_job : Jobs F → ℤ → Jobs F
  add_owned_job j job_id = record j { owned_job_ids = insert job_id true j.owned_job_ids }

  unfoldable pub is_owned_job : Jobs F → ℤ → Bool
  is_owned_job j job_id = has job_id j.owned_job_ids

  unfoldable pub get_job : Jobs F → ℤ → Option (Job F)
  get_job j job_id = lookup job_id j.jobs

  unfoldable pub remove_job : Jobs F → ℤ → Jobs F
  remove_job j job_id = record j { jobs = erase job_id j.jobs }

  unfoldable pub add_job : FloatOps F → Jobs F → ℤ → Str → Jobs F × Job F
  add_job ops j job_id method =
      let job : Job F = record {
        id = job_id;
        method = method;
        state = codes "PENDING";
        result = null;
        progress = ops.of_int (pos 0);
        finished = false;
        has_callback = false;
      } in
      (record j { jobs = insert job_id job j.jobs }, job)

  -- The job is finished: its error is sent, once somebody reads it, and the channels are closed.
  -- To send to a closed channel panics.
  unfoldable pub finish_job : Jobs F → ℤ → Job F → Json F → Str → Run (Jobs F × Option Str)
  finish_job j job_id job result err =
      if job.finished
      then panics
      else returns (
        record j { jobs = insert job_id (record job { finished = true; result = result }) j.jobs },
        some err,
      )

  -- The second result is what is sent over `DoneCh`, at which the update waits for a reader.
  unfoldable pub update_job_state : Jobs F → ℤ → Str → F → Json F → Str → Run (Jobs F × Option Str)
  unfolding finish_job
  update_job_state j job_id state progress result err = elim (lookup job_id j.jobs) [
    | none ↦ returns (j, none)
    | some job ↦
        let moved = record job { state = state; progress = progress } in
        if state == codes "SUCCESS" || state == codes "FAILED"
        then finish_job j job_id moved result err
        else returns (record j { jobs = insert job_id moved j.jobs }, none)
  ]
