-- ===== src/ClientSession/Tests.antt =====
-- Runs of core/client_api.go.
use truenas_incus_ctl.Base.{
  ℕ, zero, suc, ◌+◌, ◌≡◌, refl, true, [], none, Str, codes, arith, contains_str,
}
use truenas_incus_ctl.ClientSession.{
  ClientSession, Attempt, responded, not_removed, removed, is_socket, missing,
  request_and_maybe_retry, before_ping,
}
use truenas_incus_ctl.ClientSession.Retries.{
  IsRelaunched, relaunches_forever, EndsBy, IsPlain, request_and_maybe_retry-EndsBy,
}

abbrev local : ClientSession
local = record {
  host_name = codes "nas";
  api_key = codes "1-key";
  socket_path = codes "/run/tnc";
  allow_insecure = true;
  has_client = true;
  jobs_list = [];
  map_skip_wait_on_close = none;
}

abbrev dial_error : Str
dial_error = codes "Post: dial unix /run/tnc: refused"

-- Each time the daemon is gone, its socket is removed, and a new one is launched.
abbrev relaunched : ℕ → Attempt
relaunched i = removed dial_error (record {
  first_look = missing (codes "no such file");
  launch_error = none;
  second_look = is_socket;
})

relaunched-IsRelaunched : (i : ℕ) → IsRelaunched local (relaunched i)
unfolding before_ping contains_str
relaunched-IsRelaunched i = record {
  e = dial_error;
  c = record {
    first_look = missing (codes "no such file");
    launch_error = none;
    second_look = is_socket;
  };
  is = refl;
  dial = refl;
  fine = refl;
}

relaunches_forever_example : request_and_maybe_retry 50 local relaunched 10 0 ≡ none
relaunches_forever_example = relaunches_forever local relaunched 50 10 0 relaunched-IsRelaunched

-- The daemon is gone and its socket cannot be removed; then it answers.
abbrev second_answers : ℕ → Attempt
second_answers zero = not_removed dial_error
second_answers (suc i) = responded 200 (codes "1") none

second_answers-IsPlain : (i : ℕ) → IsPlain (second_answers i)
second_answers-IsPlain zero = tt
second_answers-IsPlain (suc i) = tt

request_and_maybe_retry-EndsBy_example :
    EndsBy (0 + 10) (request_and_maybe_retry 10 local second_answers 10 0)
request_and_maybe_retry-EndsBy_example =
    request_and_maybe_retry-EndsBy local second_answers 10 0 (omega arith) second_answers-IsPlain
