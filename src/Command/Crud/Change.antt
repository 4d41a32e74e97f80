-- ===== src/Command/Crud/Change.antt =====
-- cmd/iscsi_crud.go: iscsiCrudUpdateCreate. The flags are given as
-- GetCobraFlags of cmd/util_flags.go reads them.
use truenas_incus_ctl.Base.{
  ℕ, suc, Bool, ◌&&◌, not, List, [], ◌∷◌, ◌++◌, map, Option, none, some, pos, Str, str_eq, ◌==◌,
  codes, is_empty, join, length, eqb, if◌then◌else◌,
}
use truenas_incus_ctl.Base.Decimal.{atoi, itoa}
use truenas_incus_ctl.Base.Dict.{Dict}
use truenas_incus_ctl.Json.{
  Json, str, int, arr, obj, nil, cons, Fields, end, field, get_field, set_field, as_str, sprint,
  entries,
}
use truenas_incus_ctl.Api.{Run, returns, panics, or_null, extract_json_array_of_maps}
use truenas_incus_ctl.Session.{Message, no_message, malformed, value}
use truenas_incus_ctl.Names.Hosts.{ip_port_to_json_string}
use truenas_incus_ctl.Options.Columns.{get_used_property_columns}
use truenas_incus_ctl.Options.Params.{
  Enums, Parsed, parsed, refused, parse_string_and_validate, write_kv_array_to_map,
  convert_params_string_to_kv_array,
}
use truenas_incus_ctl.Query.Filter.{to_items}
use truenas_incus_ctl.Table.Formats.{build_table_data}
use truenas_incus_ctl.Command.Steps.{
  Outside, Outcome, ends, errs, crashes, exits, M, pure, ◌>>=◌, ◌>>◌, call, default_iscsi_port,
}
use truenas_incus_ctl.Command.Crud.{identifiers_of, required_of, as_disk}

-- A list of texts as `fmt` prints it.
abbrev pub listed_texts : List Str → Str
listed_texts texts = codes "[" ++ (join (codes " ") texts ++ codes "]")

-- An id that reads as a number is sent as one.
abbrev pub id_value : {F : Type 0} → Str → Json F
id_value text = elim (atoi text) [ none ↦ str text | some n ↦ int n ]

-- `parse_float` is `strconv.ParseFloat`, and `marshal` is `json.Marshal`.
module _ {S F : Type 0} (w : Outside S F) (parse_float : Str → Option F)
    (marshal : Json F → Str × Option Str) (category : Str) (enums : Enums) where
  abbrev set_parsed : Str → Fields F → Parsed F → Outcome (Fields F)
  set_parsed name out (refused e) = errs e
  set_parsed name out (parsed v) = ends (set_field name v out)

  abbrev of_written : Run (Fields F × Option Str) → Outcome (Fields F)
  of_written panics = crashes
  of_written (returns (out, some e)) = errs e
  of_written (returns (out, none)) = ends out

  -- One flag that was given.
  unfoldable pub add_flag : Str → Str → Fields F → Outcome (Fields F)
  unfolding write_kv_array_to_map parse_string_and_validate
  add_flag name text out =
      if name == codes "option"
      then of_written (
          write_kv_array_to_map parse_float listed_texts out
            (convert_params_string_to_kv_array text) enums)
      else set_parsed name out (
          parse_string_and_validate parse_float listed_texts name
            (if name == codes "disk" then as_disk text else text) enums)

  unfoldable pub add_flags : Dict Str Str → Fields F → Outcome (Fields F)
  unfolding add_flag
  add_flags [] out = ends out
  add_flags ((name, text) ∷ flags) out = elim (add_flag name text out) [
    | ends out' ↦ add_flags flags out'
    | errs e ↦ errs e
    | crashes ↦ crashes
    | exits ↦ exits
    | Outcome.spins ↦ Outcome.spins
  ]

  -- The address of a portal, in the form of the API.
  abbrev listen_value : Option (Json F) → Fields F → Fields F
  listen_value none out = out
  listen_value (some v) out =
      set_field (codes "listen")
        (str (ip_port_to_json_string w.lookup_ip (as_str (some v)) w.host_name default_iscsi_port))
        out

  unfoldable pub with_listen : Bool → Fields F → Fields F
  with_listen should_match_host out =
      let matched =
        if should_match_host then set_field (codes "listen") (str (codes ":")) out else out in
      if category == codes "portal"
      then listen_value (get_field (codes "listen") matched) matched
      else out

  unfoldable pub missing_attrs : Fields F → List Str → List Str
  missing_attrs out [] = []
  missing_attrs out (key ∷ required) =
      let rest = missing_attrs out required in
      elim (get_field key out) [ none ↦ key ∷ rest | some _ ↦ rest ]

  -- The conditions on the identifying attributes that are given.
  unfoldable pub identity_filter : Fields F → List Str → List (Json F)
  identity_filter out [] = []
  identity_filter out (key ∷ ids) =
      let rest = identity_filter out ids in
      elim (get_field key out) [
        | none ↦ rest
        | some v ↦ arr (cons (str key) (cons (str (codes "=")) (cons v nil))) ∷ rest
      ]

  abbrev iscsi_method : Str → Str
  iscsi_method verb = codes "iscsi." ++ (category ++ verb)

  unfoldable pub create_one : Fields F → M S (List Str)
  unfolding missing_attrs required_of call
  create_one out = elim (missing_attrs out (required_of category)) [
    | [] ↦
        call w (iscsi_method (codes ".create")) (arr (cons (obj out) nil)) >>= λ _. pure (ends [])
    | key ∷ missing ↦ pure (
        errs (
          codes "An iSCSI "
          ++ (category
              ++ (codes " also requires these attributes to be set on creation: "
                  ++ listed_texts (key ∷ missing)))))
  ]

  unfoldable pub update_one : Json F → Fields F → M S (List Str)
  unfolding call
  update_one id out =
      call w (iscsi_method (codes ".update")) (arr (cons id (cons (obj out) nil))) >>= λ _.
      pure (ends [])

  -- The objects in the answer to the query.
  abbrev rows_or_message : List (Fields F) × Str → Outcome (List (Fields F))
  rows_or_message (rows, []) = ends rows
  rows_or_message (rows, c ∷ e) = errs (codes "API response results: " ++ (c ∷ e))

  unfoldable pub matches_in : Message F → Outcome (List (Fields F))
  unfolding extract_json_array_of_maps
  matches_in (value (obj m)) = rows_or_message (extract_json_array_of_maps m (codes "result"))
  matches_in (value _) = errs (codes "API response was not a JSON object")
  matches_in (malformed e) = errs (codes "response error: " ++ e)
  matches_in no_message = errs (codes "response error: unexpected end of JSON input")

  abbrev field_count : Fields F → ℕ
  field_count end = 0
  field_count (field k v fs) = suc (field_count fs)

  abbrev nothing_to_change : Json F → Str
  nothing_to_change id =
      codes "Only identifiable parameters for the "
      ++ (category
          ++ (codes
                " were specified,\nand no id was provided, therefore no change would take place.\nThe id for this "
              ++ (category ++ (codes " is " ++ (sprint w.ops id ++ codes "\nExiting.")))))

  abbrev id_of_row : Fields F → Json F
  id_of_row row = or_null (get_field (codes "id") row)

  -- The text of several matches. The table of the matches is added only if it came with an error.
  abbrev matches_text : ℕ → Str
  matches_text n =
      itoa (pos n) ++ (codes " matches for this " ++ (category ++ codes " were found:"))

  abbrev with_table : Str → Option (Str × Option Str) → Outcome (List Str)
  with_table msg none = crashes
  with_table msg (some (table, none)) = errs msg
  with_table msg (some (table, some e)) = errs (msg ++ b'\n' ∷ table)

  unfoldable pub list_matches : List (Fields F) → Outcome (List Str)
  unfolding build_table_data get_used_property_columns
  list_matches rows = with_table (matches_text (length rows)) (
      build_table_data w.ops marshal (codes "compact") (category ++ codes "s")
        (get_used_property_columns (map entries rows) (codes "id" ∷ [])) rows)

  -- What is sent for the one match.
  unfoldable pub update_match : List (Json F) → Fields F → List (Fields F) → M S (List Str)
  unfolding update_one list_matches
  update_match filter out [] =
      pure (errs (codes "No matches for this " ++ (category ++ codes " were found")))
  update_match filter out (row ∷ []) =
      if eqb (length filter) (field_count out)
      then pure (ends (nothing_to_change (id_of_row row) ∷ []))
      else update_one (id_of_row row) out
  update_match filter out (row ∷ row2 ∷ rows) = pure (list_matches (row ∷ row2 ∷ rows))

  unfoldable pub update_found : Fields F → M S (List Str)
  unfolding identity_filter identifiers_of call matches_in update_match
  update_found out = do
    let filter = identity_filter out (identifiers_of category)
    answer ←
        call w (iscsi_method (codes ".query"))
          (arr (cons (arr (to_items filter)) (cons (obj end) nil)))
    rows ← pure (matches_in answer)
    update_match filter out rows

  -- `given_id` is the text of "--id", empty if it is not given; `used` the other flags that are given.
  unfoldable pub iscsi_crud_update_create : Bool → Str → Bool → Dict Str Str → M S (List Str)
  unfolding add_flags with_listen create_one update_one update_found
  iscsi_crud_update_create is_update given_id should_match_host used = do
    pure (
        if not is_update && not (is_empty given_id)
        then errs (codes "--id is incompatible with create")
        else ends tt)
    flags ← pure (add_flags used end)
    let out = with_listen should_match_host flags
    if not is_update
        then create_one out
        else if is_empty given_id
        then update_found out
        else update_one (id_value given_id) out
