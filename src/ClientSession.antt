-- ===== src/ClientSession.antt =====
-- core/client_api.go: a session whose calls a daemon makes, over HTTP on a unix socket. How the HTTP
-- client ends each attempt, and what the operating system says of the socket, are arguments.
pub mod Retries
mod Tests
use truenas_incus_ctl.Base.{
  ℕ, zero, suc, ◌-◌, Bool, true, false, not, ◌||◌, List, [], ◌∷◌, ◌++◌, Option, none, some, ℤ, pos,
  negsuc, int_eq, is_neg, Str, str_eq, ◌==◌, codes, is_empty, contains_str, leb, ltb, if◌then◌else◌,
}
use truenas_incus_ctl.Base.Dict.{Dict, lookup, insert}
use truenas_incus_ctl.Base.Decimal.{itoa}
use truenas_incus_ctl.Json.{Json, obj, int64, Items, nil, cons, Fields, FloatOps, depth}
use truenas_incus_ctl.Api.{
  Run, returns, panics, make_error_from_list, get_job_number_from_object,
  get_results_and_errors_from_api_response, extract_api_error_json_given_error,
}
use truenas_incus_ctl.Session.{Message, no_message, malformed, value, Answer, Started, is_positive}
use truenas_incus_ctl.Daemon.Serve.{Headers, bool_text}

-- A nil map for the jobs to skip is `none`: no code makes the map.
pub record ClientSession : Type 0 where
  pub host_name : Str
  pub api_key : Str
  pub socket_path : Str
  pub allow_insecure : Bool
  pub has_client : Bool
  pub jobs_list : List ℤ
  pub map_skip_wait_on_close : Option (Dict ℤ Bool)

-- `GetApiUrlFromHostName` of core/util.go; `parsed` is the text of `url.Parse(hostname)`, none if that
-- fails.
unfoldable pub get_api_url_from_host_name : (Str → Option Str) → Str → Str
get_api_url_from_host_name parsed hostname =
    let default = codes "wss://" ++ (hostname ++ codes "/api/current") in
    if contains_str hostname (codes "://")
    then elim (parsed hostname) [ none ↦ default | some u ↦ u ]
    else default

-- The three results of `requestAndMaybeRetry`; nil data is no bytes.
pub record Reply : Type 0 where
  pub contents : Str
  pub error : Option Str
  pub completed : Bool

-- What `os.Stat` says of the socket's path.
pub data Stat : Type 0 where
  missing : Str → Stat
  is_file : Stat
  is_socket : Stat

-- What a `Login` finds: the first look, the launch of a daemon, and the look after that.
pub record SocketCheck : Type 0 where
  pub first_look : Stat
  pub launch_error : Option Str
  pub second_look : Stat

-- One `client.Do`: a response (status, body, error of reading it), or an error. After a dial error the
-- socket is removed or not; if it is, `Login` is called and looks at the socket.
pub data Attempt : Type 0 where
  responded : ℕ → Str → Option Str → Attempt
  not_removed : Str → Attempt
  removed : Str → SocketCheck → Attempt

unfoldable pub finish_response : ℕ → Str → Option Str → Reply
finish_response status body (some e) = record { contents = body; error = some e; completed = true }
finish_response status body none =
    if leb 400 status
    then record { contents = []; error = some (codes "Error: " ++ body); completed = true }
    else record { contents = body; error = none; completed = true }

abbrev pub broken_off : Str → Reply
broken_off e = record { contents = []; error = some e; completed = false }

abbrev pub is_dial_error : Str → Bool
is_dial_error e = contains_str e (codes ": dial unix")

unfoldable pub check_stat : Str → Stat → Option Str
check_stat path (missing e) = some e
check_stat path is_file = some (path ++ codes " was not a socket")
check_stat path is_socket = none

unfoldable pub check_launch : Str → Option Str → Stat → Option Str
unfolding check_stat
check_launch path (some e) look = some (codes "launchDaemonAndAwaitSocket: " ++ e)
check_launch path none look = check_stat path look

unfoldable pub check_socket : Str → SocketCheck → Option Str
unfolding check_launch
check_socket path c = elim c.first_look [
  | missing _ ↦ check_launch path c.launch_error c.second_look
  | is_file ↦ check_stat path is_file
  | is_socket ↦ check_stat path is_socket
]

-- The three tests at the start of `Login`.
unfoldable pub missing_credentials : ClientSession → Str
missing_credentials s =
    (if is_empty s.host_name then codes "Hostname was not provided\n" else [])
    ++ ((if is_empty s.api_key then codes "API key was not provided\n" else [])
        ++ (if is_empty s.socket_path then codes "Socket path was not provided\n" else []))

-- The tests of `Login` before its request.
unfoldable pub before_ping : ClientSession → SocketCheck → Option Str
unfolding missing_credentials check_socket
before_ping s c = elim (missing_credentials s) [
  | [] ↦ check_socket s.socket_path c
  | m ∷ ms ↦ some (m ∷ ms)
]

-- The end of `Login`.
unfoldable pub check_pong : Reply → Option Str
check_pong r = elim r.error [
  | some e ↦ some e
  | none ↦
      if r.contents == codes "\"pong\""
      then none
      else some (codes "Unexpected response: " ++ r.contents)
]

-- Of a request: how many attempts there were until then, and the reply.
abbrev pub Requested : Type 0
Requested = ℕ × Reply

-- The end of a `Login` after its request.
unfoldable pub pinged : Option Requested → Option (ℕ × Option Str)
unfolding check_pong
pinged none = none
pinged (some (n, r)) = some (n, check_pong r)

-- A `Login` after `n` attempts, with the request that it makes if it gets to one.
unfoldable pub login_from :
    ClientSession → SocketCheck → ℕ → Option Requested → Option (ℕ × Option Str)
unfolding before_ping pinged
login_from s c n ping = elim (before_ping s c) [ some e ↦ some (n, some e) | none ↦ pinged ping ]

-- `retriesLeft--`, and `goto call` if any is left.
unfoldable pub next_try : ℕ → Str → ℕ → Option Requested → Option Requested
next_try retries e n again = if ltb 1 retries then again else some (n, broken_off e)

unfoldable pub after_login :
    ℕ → Str → (ℕ → Option Requested) → Option (ℕ × Option Str) → Option Requested
unfolding next_try
after_login retries e again none = none
after_login retries e again (some (n, some login_error)) = some (n, broken_off login_error)
after_login retries e again (some (n, none)) = next_try retries e n (again n)

-- `requestAndMaybeRetry` with so many retries left, after `n` attempts; `attempts` is how each attempt
-- ends. It and `Login` call one another without a bound, so it is on fuel; `none` is a request that
-- has not ended.
unfoldable pub request_and_maybe_retry :
    ℕ → ClientSession → (ℕ → Attempt) → ℕ → ℕ → Option Requested
unfolding login_from next_try after_login
request_and_maybe_retry zero s attempts retries n = none
request_and_maybe_retry (suc fuel) s attempts retries n =
    let again = request_and_maybe_retry fuel s attempts (retries - 1) in
    let ping = request_and_maybe_retry fuel s attempts 10 (suc n) in
    elim (attempts n) [
      | responded status body e ↦ some (suc n, finish_response status body e)
      | not_removed e ↦
          if is_dial_error e
          then next_try retries e (suc n) (again (suc n))
          else some (suc n, broken_off e)
      | removed e c ↦
          if is_dial_error e
          then after_login retries e again (login_from s c (suc n) ping)
          else some (suc n, broken_off e)
    ]

unfoldable pub login :
    ℕ → ClientSession → SocketCheck → (ℕ → Attempt) → Option (ClientSession × Option Str)
unfolding login_from request_and_maybe_retry
login fuel s c attempts = elim (login_from s c 0 (request_and_maybe_retry fuel s attempts 10 0)) [
  | none ↦ none
  | some (n, e) ↦ some (
    record s {
      has_client = s.has_client || elim (before_ping s c) [ none ↦ true | some _ ↦ false ];
    },
    e,
  )
]

-- The headers that `CallRaw` sets, with the text of the timeout; `carried` is what net/http makes of a
-- value on its way to the daemon. Those that it does not set are empty.
unfoldable pub headers_of : (Str → Str) → (Str → Option Str) → ClientSession → Str → Headers
unfolding get_api_url_from_host_name
headers_of carried parsed s method = record {
  host = carried (get_api_url_from_host_name parsed s.host_name);
  key = carried s.api_key;
  user = [];
  pass = [];
  method = carried method;
  allow_insecure = carried (bool_text s.allow_insecure);
}

unfoldable pub timeout_header : ℤ → Str
timeout_header seconds = if is_positive seconds then itoa seconds ++ codes "s" else []

-- The two results of `CallRaw`, with what `json.Marshal` and the attempts of the request give.
unfoldable pub call_raw : ℕ → ClientSession → Option Str → (ℕ → Attempt) → Option (Str × Option Str)
unfolding request_and_maybe_retry
call_raw fuel s (some marshal_error) attempts = some ([], some marshal_error)
call_raw fuel s none attempts = elim (request_and_maybe_retry fuel s attempts 10 0) [
  | none ↦ none
  | some (n, r) ↦ some (r.contents, r.error)
]

-- `decode` is `json.Unmarshal`.
module _ {F : Type 0} (ops : FloatOps F) (decode : Str → Message F) where
  -- `GetJobNumber`, whose error is not looked at: it then gives -1.
  unfoldable pub get_job_number : Message F → ℤ
  get_job_number (value j) = elim (get_job_number_from_object ops j) [
    | none ↦ negsuc 0
    | some n ↦ n
  ]
  get_job_number _ = negsuc 0

  unfoldable pub call_async_raw : ClientSession → Reply → ClientSession × Started
  unfolding get_job_number
  call_async_raw s r = elim r.error [
    | some e ↦ (s, record { job_id = negsuc 0; error = some e })
    | none ↦
        let job_id = get_job_number (decode r.contents) in
        (
          record s { jobs_list = s.jobs_list ++ job_id ∷ [] },
          record { job_id = job_id; error = none },
        )
  ]

  unfoldable pub results_and_errors_raw : Message F → List (Json F)
  results_and_errors_raw (value (obj response)) =
      (get_results_and_errors_from_api_response response).1
  results_and_errors_raw _ = []

  abbrev pub error_texts : List (Json F) → List Str
  error_texts [] = []
  error_texts (e ∷ es) = extract_api_error_json_given_error ops e ∷ error_texts es

  -- What the reply to "tnc_daemon.await_job" adds to the errors.
  unfoldable pub reply_errors : Reply → List Str
  unfolding results_and_errors_raw
  reply_errors r = elim r.error [
    | some e ↦ e ∷ []
    | none ↦ error_texts (results_and_errors_raw (decode r.contents))
  ]

  abbrev pub is_skipped : Option (Dict ℤ Bool) → ℤ → Bool
  is_skipped none job_id = false
  is_skipped (some m) job_id = elim (lookup job_id m) [ none ↦ false | some b ↦ b ]

  -- The loop of `Close`; `await_job` is the reply to "tnc_daemon.await_job" for a job.
  unfoldable pub close_errors : Option (Dict ℤ Bool) → (ℤ → Reply) → List ℤ → List Str
  unfolding reply_errors
  close_errors skip await_job [] = []
  close_errors skip await_job (job_id ∷ jobs) =
      (if is_neg job_id || is_skipped skip job_id then [] else reply_errors (await_job job_id))
      ++ close_errors skip await_job jobs

  unfoldable pub close : ClientSession → Option Str → (ℤ → Reply) → ClientSession × Option Str
  unfolding close_errors
  close s internal_error await_job = if not s.has_client then (s, internal_error) else (
    record s { has_client = false },
    make_error_from_list (
        elim internal_error [ none ↦ [] | some e ↦ e ∷ [] ]
        ++ close_errors s.map_skip_wait_on_close await_job s.jobs_list),
  )

-- A write to a nil map panics.
unfoldable pub skip_waiting_job_on_close : ClientSession → ℤ → Run ClientSession
skip_waiting_job_on_close s job_id = elim s.map_skip_wait_on_close [
  | none ↦ panics
  | some m ↦ returns (record s { map_skip_wait_on_close = some (insert job_id true m) })
]
