-- ===== src/Query/Request.antt =====
-- cmd/util_common.go: QueryApi around its loop, and LookupNfsIdByPath.
use truenas_incus_ctl.Base.{
  Bool, true, false, not, List, [], ◌∷◌, ◌++◌, Option, none, some, ℤ, pos, Str, str_eq, ◌==◌, codes,
  is_empty, contains_str, length, eqb, if◌then◌else◌,
}
use truenas_incus_ctl.Base.Dict.{Dict, insert}
use truenas_incus_ctl.Base.Decimal.{atoi, itoa}
use truenas_incus_ctl.Json.{
  Json, str, arr, obj, nil, cons, Fields, FloatOps, get_field, sprint, entries,
}
use truenas_incus_ctl.Api.{extract_json_array_of_maps}
use truenas_incus_ctl.Session.{Session, Message, no_message, malformed, value, Answer, api_call}
use truenas_incus_ctl.Query.Filter.{
  QueryParams, Result, fails, gives, make_query_filter, make_query_options, to_items,
}
use truenas_incus_ctl.Query.Properties.{build_value_order}
use truenas_incus_ctl.Query.Collect.{Response, no_rows, collect_response, primary_of}
use truenas_incus_ctl.Query.Rows.{Order, get_list_from_query_response}

-- `entries[i]` with `entryTypes[i]`.
abbrev pub paired : List Str → List Str → List (Str × Str)
paired (e ∷ es) (t ∷ ts) = (e, t) ∷ paired es ts
paired _ _ = []

abbrev pub is_nfs_endpoint : Str → Bool
is_nfs_endpoint category = category ++ codes ".query" == codes "sharing.nfs.query"

module _ {F : Type 0} where
  -- The parameters of the call: the filter and, but for nfs shares, the options.
  unfoldable pub query_of : Str → List Str → QueryParams → List (Json F) → Json F
  unfolding make_query_options
  query_of category props_list params filter =
      let endpoint = category ++ codes ".query" in
      let options =
        make_query_options props_list params (contains_str endpoint (codes "snapshot")) in
      if is_nfs_endpoint category
      then arr (cons (arr (to_items filter)) nil)
      else arr (cons (arr (to_items filter)) (cons (obj options) nil))

module _ {F : Type 0} (ops : FloatOps F) where
  -- `none` is a loop that ran out of fuel.
  unfoldable pub rows_or_error :
      Bool → QueryParams → List (Fields F) × Str → Option (Response F × Option Str)
  unfolding collect_response
  rows_or_error is_nfs params (rows, c ∷ message) =
      some (no_rows, some (codes "API response results: " ++ (c ∷ message)))
  rows_or_error is_nfs params (rows, []) = elim (collect_response ops is_nfs params rows) [
    | none ↦ none
    | some r ↦ some (r, none)
  ]

  unfoldable pub read_response : Bool → QueryParams → Message F → Option (Response F × Option Str)
  unfolding rows_or_error
  read_response is_nfs params (malformed e) = some (no_rows, some (codes "response error: " ++ e))
  read_response is_nfs params (value (obj m)) =
      rows_or_error is_nfs params (extract_json_array_of_maps m (codes "result"))
  read_response is_nfs params (value _) =
      some (no_rows, some (codes "API response was not a JSON object"))
  read_response is_nfs params no_message =
      some (no_rows, some (codes "response error: unexpected end of JSON input"))

  unfoldable pub read_answer : Bool → QueryParams → Answer F → Option (Response F × Option Str)
  unfolding read_response
  read_answer is_nfs params a = elim a.error [
    | some e ↦ some (no_rows, some e)
    | none ↦ read_response is_nfs params a.message
  ]

  module _ {S : Type 0} (api : Session S F) (unmarshal : Str → Json F)
      (default_call_timeout : ℤ) where
    unfoldable pub send_query :
        S
        → Str
        → List Str
        → QueryParams
        → Result (List (Json F))
        → S × Option (Response F × Option Str)
    unfolding query_of read_answer api_call
    send_query s category props_list params (fails e) = (s, some (no_rows, some e))
    send_query s category props_list params (gives filter) =
        let (t, a) =
          api_call api ops s (category ++ codes ".query") default_call_timeout
            (query_of category props_list params filter) in
        (t, read_answer (is_nfs_endpoint category) params a)

    -- The session's state, and the two results.
    unfoldable pub query_api :
        S
        → Str
        → List Str
        → List Str
        → List Str
        → QueryParams
        → S × Option (Response F × Option Str)
    unfolding send_query make_query_filter
    query_api s category es entry_types props_list params =
        if not (eqb (length entry_types) (length es))
        then (
          s,
          some (
            no_rows,
            some (
                codes "length mismatch between entries and entry types: "
                ++ (itoa (pos (length es)) ++ (codes " != " ++ itoa (pos (length entry_types))))),
          ),
        )
        else send_query s category props_list params
            (make_query_filter unmarshal (paired es entry_types) params)

-- The results of `LookupNfsIdByPath`, and the properties that it writes, if they are asked for.
pub record NfsShare : Type 0 where
  pub id : Str
  pub is_found : Bool
  pub error : Option Str
  pub properties : Option (Dict Str Str)

module _ {F : Type 0} (ops : FloatOps F) where
  -- The id of a share: a text must be a number.
  unfoldable pub id_text : Option (Json F) → Str
  id_text none = []
  id_text (some (str s)) = elim (atoi s) [ none ↦ [] | some _ ↦ s ]
  id_text (some v) = sprint ops v

  -- The loop over the properties of the share.
  unfoldable pub write_texts : List (Str × Json F) → Dict Str Str → Dict Str Str
  unfolding primary_of
  write_texts [] d = d
  write_texts ((k, v) ∷ es) d = write_texts es (insert k (primary_of ops (some v)) d)

  unfoldable pub share_of : Fields F → Str → Option (Dict Str Str) → NfsShare
  unfolding write_texts
  share_of row id props =
      if is_empty id
      then record { id = []; is_found = false; error = none; properties = props }
      else record {
        id = id;
        is_found = true;
        error = none;
        properties = elim props [ none ↦ none | some d ↦ some (write_texts (entries row) d) ];
      }

  -- The first of the shares; a nil map has no keys.
  unfoldable pub first_share : List (Option (Fields F)) → Option (Dict Str Str) → NfsShare
  unfolding share_of id_text
  first_share (some row ∷ _) props = share_of row (id_text (get_field (codes "id") row)) props
  first_share _ props = record { id = []; is_found = false; error = none; properties = props }

  abbrev pub share_params : Bool → QueryParams
  share_params wants_props = record {
    value_order = build_value_order false;
    should_skip_key_build = false;
    should_get_all_props = wants_props;
    should_get_user_props = wants_props;
    should_recurse = false;
  }

  module _ {S : Type 0} (api : Session S F) (unmarshal : Str → Json F) (default_call_timeout : ℤ)
      (parse_int : Str → Option ℤ) (sort_stable : (Str → Str → Order) → List Str → List Str) where
    unfoldable pub read_shares :
        Option (Dict Str Str) → Option (Response F × Option Str) → Option NfsShare
    unfolding first_share get_list_from_query_response
    read_shares props none = none
    read_shares props (some (r, some e)) = some (record {
      id = [];
      is_found = false;
      error = some (codes "API error: " ++ e);
      properties = props;
    })
    read_shares props (some (r, none)) =
        some (first_share (get_list_from_query_response ops parse_int sort_stable r).1 props)

    unfoldable pub lookup_nfs_id_by_path : S → Str → Option (Dict Str Str) → S × Option NfsShare
    unfolding read_shares query_api
    lookup_nfs_id_by_path s share_path props =
        let wants_props = elim props as (λ _. Bool) [ none ↦ false | some _ ↦ true ] in
        let (t, r) =
          query_api ops api unmarshal default_call_timeout s (codes "sharing.nfs") (share_path ∷ [])
            (codes "path" ∷ []) (codes "id" ∷ codes "path" ∷ []) (share_params wants_props) in
        if is_empty share_path
        then (
          s,
          some (record {
            id = [];
            is_found = false;
            error = some (codes "Error looking up NFS share: no path was specified");
            properties = props;
          }),
        )
        else (t, read_shares props r)
