-- ===== src/Daemon/Tests.antt =====
-- Runs of core/daemon.go.
use truenas_incus_ctl.Base.{
  arith, ℕ, ◌≡◌, ◌<◌, ◌⊎◌, refl, true, false, List, [], ◌∷◌, none, some, pos, int_eq, str_eq, Str,
  codes, length, get_elem?, str_eqb, String,
}
use truenas_incus_ctl.Base.Dict.{lookup, insert}
use truenas_incus_ctl.Json.{null, str}
use truenas_incus_ctl.Daemon.Session.{TruenasSession}
use truenas_incus_ctl.Daemon.Listen.{job_future, settle_job}
use truenas_incus_ctl.Daemon.Jobs.{peek_job, await_job, get_job, waits_for}
use truenas_incus_ctl.Daemon.Jobs.Delivery.{InHeap, NotSettled, job_delivered}
use truenas_incus_ctl.Daemon.Pool.{failed, Daemon, ready, choose_channel, delete_session}
use truenas_incus_ctl.Daemon.Pool.Channels.{slots_of}
use truenas_incus_ctl.Daemon.Pool.Races.{
  Event, requests, deletes, step, run, start, channels_unshared,
}
use truenas_incus_ctl.Daemon.Serve.{
  Headers, admit, session_key_of, login_failed, finish_create, no_session, conclude,
  failed_login_frees, session_key_collides,
}

abbrev fresh : TruenasSession ℕ
fresh = record {
  session_key = codes "host";
  channel = 0;
  call_in_progress = false;
  cur_call_id = pos 0;
  call_map = [];
  job_map = [];
  futures = [];
}

-- Call 1 waits at future 0, and job 9 at future 1.
abbrev waiting : TruenasSession ℕ
waiting = record {
  session_key = codes "host";
  channel = 0;
  call_in_progress = true;
  cur_call_id = pos 1;
  call_map = (pos 1, 0) ∷ [];
  job_map = (pos 9, 1) ∷ [];
  futures =
      record { done = false; woken_up = false; value = null; err = none }
      ∷ record { done = false; woken_up = false; value = null; err = none }
      ∷ [];
}

fresh-InHeap : InHeap fresh
unfolding lookup
fresh-InHeap = record { calls_in = λ i p e. absurd (cc); jobs_in = λ i p e. absurd (cc) }

fresh-NotSettled : NotSettled fresh (pos 9)
unfolding lookup
fresh-NotSettled p f e g = absurd (cc)

job_delivered_example :
    (peek_job (settle_job fresh (pos 9) (str (codes "ok"))) (pos 9) ≡ (str (codes "ok"), none))
    × ((await_job fresh (pos 9)).1 ≡ waits_for (pos 9) (job_future fresh (pos 9)).1)
    × (get_job
          (settle_job (await_job fresh (pos 9)).0 (pos 9) (str (codes "ok")))
          (job_future fresh (pos 9)).1
          none
        ≡ some (str (codes "ok"), none))
job_delivered_example =
    job_delivered fresh (pos 9) (str (codes "ok")) fresh-InHeap refl fresh-NotSettled

abbrev host : Str
host = codes "host"

-- One channel, whose session is idle.
abbrev one_idle : Daemon
one_idle = record {
  session_map = (codes "host", some 0 ∷ []) ∷ [];
  futures = ready 0 ∷ [];
  in_progress = false ∷ [];
}

-- Two channels of one key, of which the first is given back and taken again.
abbrev three_requests : List Event
three_requests = requests host ∷ requests host ∷ deletes host 0 ∷ requests host ∷ []

channels_unshared_example :
    (2 < length (run start three_requests).futures) × (host ≡ host) × ◌≡◌ {A = ℕ} 0 0
unfolding run choose_channel lookup insert str_eqb delete_session step
channels_unshared_example = channels_unshared three_requests host host 0 0 2 refl refl

abbrev other_host : Str
other_host = codes "other"

-- Two keys; the session of the first one is in use, so that a request for it has to log in.
abbrev one_busy : Daemon
one_busy = record {
  session_map = (codes "host", some 0 ∷ []) ∷ (codes "other", some 1 ∷ []) ∷ [];
  futures = ready 0 ∷ ready 1 ∷ [];
  in_progress = true ∷ false ∷ [];
}

failed_login_frees_example :
    let (t, c) = choose_channel one_busy host in
    let u =
      (conclude {F = ℕ}
        (finish_create t c (login_failed (codes "no")))
        host
        c.channel
        (no_session (codes "no"))).0 in
    (get_elem? (slots_of u host) c.channel ≡ some none)
    × (get_elem? u.futures c.future ≡ some (failed (codes "no")))
    × (slots_of u other_host ≡ slots_of one_busy other_host)
    × (get_elem? u.futures 1 ≡ get_elem? one_busy.futures 1)
unfolding choose_channel lookup str_eqb
failed_login_frees_example =
    failed_login_frees ℕ one_busy host (codes "no") other_host 1 refl (λ e. absurd (cc))
      (omega arith)

abbrev with_password : String → String → Headers
with_password user pass = record {
  host = codes "nas";
  key = [];
  user = codes user;
  pass = codes pass;
  method = codes "pool.query";
  allow_insecure = [];
}

session_key_collides_example :
    (session_key_of (admit (with_password "adminx" "yz")) ≡ none)
    ⊎ (session_key_of (admit (with_password "adminx" "yz")) ≡ some (codes "nasadminxyzfalse"))
unfolding admit str_eqb
session_key_collides_example =
    session_key_collides (with_password "admin" "xyz") (with_password "adminx" "yz")
      (codes "nasadminxyzfalse") refl refl refl refl refl refl
