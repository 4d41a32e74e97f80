-- ===== src/Iscsi/Tool.antt =====
-- cmd/iscsi_util.go: RunIscsiAdminTool and what calls it, with core/util.go: RunCommand. How a run of
-- a program ends is an argument.
use truenas_incus_ctl.Base.{
  ℕ, zero, suc, Bool, true, false, ◌&&◌, ◌||◌, not, [], ◌∷◌, ◌++◌, Option, none, some, ℤ, pos,
  int_eq, ◌==◌, Str, codes, has_prefix, is_empty, ltb, eqb, if◌then◌else◌,
}
use truenas_incus_ctl.Json.{Json, null, end, obj, arr, str, cons, nil, Fields, FloatOps}
use truenas_incus_ctl.Api.{is_value_true}
use truenas_incus_ctl.Session.{Session, Message, no_message, malformed, value, Answer, api_call}

-- `RunCommandRaw`: what the program wrote to both outputs, its error, and its exit status, which is 0
-- also for an error that is no exit.
pub record Ran : Type 0 where
  pub out : Str
  pub warn : Str
  pub error : Option Str
  pub status : ℤ

-- The three results of `RunCommand`.
pub record Command : Type 0 where
  pub out : Str
  pub error : Option Str
  pub status : ℤ

unfoldable pub ends_line : Str → Bool
ends_line [] = false
ends_line (c ∷ s) = if is_empty s then eqb c b'\n' else ends_line s

unfoldable pub warning_text : Str → Str
unfolding ends_line
warning_text warn =
    if is_empty warn then [] else if ends_line warn then warn else warn ++ codes "\n"

abbrev pub or_no_text : Option Str → Str
or_no_text none = []
or_no_text (some e) = e

unfoldable pub run_command : Ran → Command
unfolding warning_text
run_command r =
    let is_error =
      not (is_empty r.warn) || elim r.error as (λ _. Bool) [ none ↦ false | some _ ↦ true ] in
    if is_error
    then record {
      out = [];
      error = some (warning_text r.warn ++ or_no_text r.error);
      status = r.status;
    }
    else record { out = r.out; error = none; status = r.status }

unfoldable pub should_retry : Option Str → Bool
should_retry none = false
should_retry (some e) =
    has_prefix e (codes "iscsiadm: Could not scan /sys/class/iscsi_transport")
    || has_prefix e (codes "iscsiadm: Could not stat")

-- The tries, with so many retries left: the last run of the program.
unfoldable pub try_command : ℕ → (ℕ → Ran) → Command
unfolding run_command should_retry
try_command zero runs = run_command (runs 0)
try_command (suc n) runs =
    let first = run_command (runs 0) in
    let later = try_command n (λ i. runs (suc i)) in
    if should_retry first.error && ltb 0 n then later else first

-- `json.Unmarshal` into a map: its keys, or an error. `type_error` is the text for a value that is no
-- object.
pub data Decoded (F : Type 0) : Type 0 where
  fields_of : Fields F → Decoded F
  undecoded : Str → Decoded F

unfoldable pub decode_object : {F : Type 0} → (Json F → Str) → Message F → Decoded F
decode_object type_error no_message = undecoded (codes "unexpected end of JSON input")
decode_object type_error (malformed e) = undecoded e
decode_object type_error (value (obj response)) = fields_of response
decode_object type_error (value null) = fields_of end
decode_object type_error (value j) = undecoded (type_error j)

module _ {S F : Type 0} (api : Session S F) (ops : FloatOps F) (default_call_timeout : ℤ)
    (type_error : Json F → Str) where
  unfoldable pub service_message : Fields F → Str
  service_message response =
      if is_value_true response (codes "result")
      then []
      else codes
          "The iSCSI service has not been started\nRun this tool with:\nservice start --enable iscsitarget\nTo start the service"

  -- The text of a message, or an error.
  unfoldable pub read_service : Answer F → Str × Option Str
  unfolding service_message decode_object
  read_service a = elim a.error [
    | some e ↦ ([], some e)
    | none ↦ elim (decode_object type_error a.message) [
      | undecoded e ↦ ([], some e)
      | fields_of response ↦ (service_message response, none)
    ]
  ]

  unfoldable pub check_remote_iscsi_service_is_running : S → S × (Str × Option Str)
  unfolding read_service api_call
  check_remote_iscsi_service_is_running s =
      let (t, a) =
        api_call api ops s (codes "service.started") default_call_timeout
          (arr (cons (str (codes "iscsitarget")) nil)) in
      (t, read_service a)

  -- The error of the tool, with what the server says of its service.
  unfoldable pub explain : Str → Str × Option Str → Str
  explain e (msg, some api_error) = e
  explain e (msg, none) =
      if is_empty msg
      then e
        ++ codes
            "\nThe remote iscsitarget service is running. It may need to be restarted with:\nservice restart iscsitarget"
      else e ++ (codes "\n" ++ msg)

  -- The end of `RunIscsiAdminTool`: a status of 0 is no error.
  unfoldable pub finish_tool : S → Command → S × (Str × Option Str)
  unfolding explain check_remote_iscsi_service_is_running
  finish_tool s c =
      let (t, checked) = check_remote_iscsi_service_is_running s in
      elim c.error [
        | none ↦ (s, (c.out, none))
        | some e ↦
            if c.status == pos 0 then (s, (c.out, none)) else (t, (c.out, some (explain e checked)))
      ]

  unfoldable pub run_iscsi_admin_tool : S → (ℕ → Ran) → S × (Str × Option Str)
  unfolding finish_tool try_command
  run_iscsi_admin_tool s runs = finish_tool s (try_command 10 runs)
