-- ===== src/Session/Tests.antt =====
-- A session that counts its calls, and its runs.
use truenas_incus_ctl.Base.{ℕ, suc, ◌≡◌, refl, true, false, none, pos, codes}
use truenas_incus_ctl.Json.{null, obj, end, field}
use truenas_incus_ctl.Session.{Session, value, no_message, api_call_async}
use truenas_incus_ctl.Session.Calls.{api_call_async-flag}

-- The state is the number of calls; each starts a job of that number.
abbrev counting : Session ℕ ℕ
counting = record {
  is_logged_in = λ n. false;
  login = λ n. (n, none);
  call_raw = λ n m t p.
      (suc n, record { message = value (obj (field (codes "result") p end)); error = none });
  call_async_raw = λ n m p. (suc n, record { job_id = pos (suc n); error = none });
  wait_for_job = λ n j. (n, record { message = no_message; error = none });
  skip_waiting_job_on_close = λ n j. 0;
}

api_call_async-flag_example :
    api_call_async counting 4 (codes "core.bulk") null false
    ≡ api_call_async counting 4 (codes "core.bulk") null true
unfolding api_call_async
api_call_async-flag_example =
    api_call_async-flag counting 4 (codes "core.bulk") null false true refl
