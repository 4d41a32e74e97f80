-- ===== src/Command/Tests.antt =====
-- Runs of the commands of cmd/iscsi.go and cmd/iscsi_crud.go, over a session that keeps the endpoints
-- that it was asked for.
mod Undo
use truenas_incus_ctl.Base.{
  ℕ, ◌+◌, ◌≡◌, ◌≢◌, refl, Bool, true, false, not, if◌then◌else◌, List, [], ◌∷◌, ◌++◌, map, none,
  some, pos, negsuc, Str, str_eq, ◌==◌, codes, str_eqb, replicate, length, has_suffix, to_lower,
  All, Any, All-append, has_prefix,
}
use truenas_incus_ctl.Base.Dict.{Dict, lookup, insert, erase, has}
use truenas_incus_ctl.Base.Decimal.{atoi, itoa}
use truenas_incus_ctl.Json.{
  Json, null, str, int64, int, arr, obj, nil, cons, Fields, field, end, get_field, depth, sprint,
}
use truenas_incus_ctl.Json.Sample.{nat_ops}
use truenas_incus_ctl.Api.{
  returns, extract_api_error_json, extract_json_array_of_maps,
  get_results_and_errors_from_api_response, is_string_true, or_null,
}
use truenas_incus_ctl.Session.{Session, value, maybe_bulk_api_call_array}
use truenas_incus_ctl.Query.Filter.{entry_value, fails, make_query_filter, gives}
use truenas_incus_ctl.Query.Groups.{any, all, is_none}
use truenas_incus_ctl.Query.Sample.{passes, is_named, passes-FilterLaws}
use truenas_incus_ctl.Query.Properties.{insert_properties}
use truenas_incus_ctl.Query.Collect.{Response}
use truenas_incus_ctl.Query.Request.{query_api, paired}
use truenas_incus_ctl.Iscsi.Portals.{lookup_portal_id_or_create}
use truenas_incus_ctl.Iscsi.Lookups.{lookup_initiator_or_create_blank}
use truenas_incus_ctl.Iscsi.Listings.{LoginSpec}
use truenas_incus_ctl.Iscsi.Tool.{run_iscsi_admin_tool}
use truenas_incus_ctl.Command.Crud.{identifiers_of, query_values, query_attrs, iscsi_crud_query}
use truenas_incus_ctl.Command.Crud.Entries.{crud_query-denotes, asks_for}
use truenas_incus_ctl.Command.Crud.Delete.{iscsi_crud_delete, delete_ids, id_params}
use truenas_incus_ctl.Command.Steps.{Outside, ends, query, query_params, portal_id, initiator_id}
use truenas_incus_ctl.Command.Sample.{world_of}
use truenas_incus_ctl.Command.Keeping.{Kept}
use truenas_incus_ctl.Command.Create.{create_iscsi}
use truenas_incus_ctl.Command.Create.Own.{Harmless}
use truenas_incus_ctl.Command.Create.Undone.{create_deletes_nothing}
use truenas_incus_ctl.Command.Create.Plans.{pairs_of, drop_known}
use truenas_incus_ctl.Command.Create.Pairs.{pairs_created, Unknown, PairOf, HasExtent}
use truenas_incus_ctl.Command.Activate.{Event, quiet, arrived, Waiting, log_in_all, watch}
use truenas_incus_ctl.Command.Activate.Reports.{unseen}
use truenas_incus_ctl.Command.Activate.Logins.{devices_reported}
use truenas_incus_ctl.Command.Delete.{args_index}
use truenas_incus_ctl.Command.Delete.Ids.{ids_of_args}
use truenas_incus_ctl.Query.Rows.{
  get_ids_ordered_by_args_from_response, get_map_from_query_response_keyed_on,
  get_list_from_query_response, known_ids,
}

abbrev Log : Type 0
Log = List Str

-- A query finds nothing, and a call creates the object that it is given, with the id 7.
abbrev reply_to : Str → Json ℕ → Json ℕ
reply_to m (arr (cons (obj fs) js)) =
    if has_suffix m (codes ".create")
    then obj (field (codes "result") (obj (field (codes "id") (int (pos 7)) fs)) end)
    else obj end
reply_to m _ = obj (field (codes "result") (arr nil) end)

abbrev endpoint_of : Json ℕ → Str
endpoint_of (arr (cons (str m) js)) = m
endpoint_of _ = []

abbrev recorder : Session Log ℕ
recorder = record {
  is_logged_in = λ log. true;
  login = λ log. (log, none);
  call_raw = λ log m t p. (log ++ m ∷ [], record { message = value (reply_to m p); error = none });
  call_async_raw = λ log m p. (log ++ endpoint_of p ∷ [], record { job_id = pos 1; error = none });
  wait_for_job = λ log j. (log, record { message = value (obj end); error = none });
  skip_waiting_job_on_close = λ log j. log;
}

abbrev world : Outside Log ℕ
world = world_of recorder

-- No endpoint that was called deletes.
abbrev NothingDeleted : Log → Type 0
NothingDeleted log = All Harmless log

recorder-Kept : Kept recorder Harmless NothingDeleted
recorder-Kept = record {
  login = λ log i. i;
  call = λ log m t p h i. All-append Harmless log (m ∷ []) i (h, tt);
  start = λ log m ps h i. All-append Harmless log (m ∷ []) i (h, tt);
  wait = λ log j i. i;
  skip = λ log j i. i;
}

abbrev create_flags : Dict Str Str
create_flags =
    (codes "target_prefix", codes "tnc")
    ∷ (codes "portal", codes "1")
    ∷ (codes "initiator", codes "2")
    ∷ []

abbrev one_volume : List Str
one_volume = codes "tank/a" ∷ []

created_lines :
    (create_iscsi world (codes "create") create_flags one_volume []).1
    ≡ ends (codes "created\ttank/a" ∷ [])
unfolding create_iscsi lookup str_eqb to_lower has query query_api has_suffix extract_api_error_json
    get_field extract_json_array_of_maps portal_id lookup_portal_id_or_create atoi initiator_id
    lookup_initiator_or_create_blank maybe_bulk_api_call_array get_map_from_query_response_keyed_on
    get_list_from_query_response get_results_and_errors_from_api_response depth insert sprint
    has_prefix is_string_true
created_lines = refl

create_deletes_nothing_example :
    NothingDeleted (create_iscsi world (codes "create") create_flags one_volume []).0
create_deletes_nothing_example =
    create_deletes_nothing world recorder-Kept (codes "create") create_flags one_volume []
      (codes "created\ttank/a" ∷ []) tt created_lines

abbrev target_a : Fields ℕ
target_a = field (codes "id") (int (pos 3)) (field (codes "alias") (str (codes "tank/a")) end)

abbrev extent_a : Fields ℕ
extent_a = field (codes "id") (int (pos 4)) end

abbrev extents_by_disk : Dict Str (Fields ℕ)
extents_by_disk = (codes "zvol/tank/a", extent_a) ∷ []

abbrev pairs_of_a : Dict Str (Fields ℕ)
unfolding drop_known pairs_of
pairs_of_a = drop_known nat_ops [] (pairs_of nat_ops extents_by_disk (target_a ∷ []) [])

pairs_created_example :
    ((te : Fields ℕ)
      → lookup (codes "3-4") pairs_of_a ≡ some te
      → Unknown nat_ops extents_by_disk (codes "3-4") []
        × Any (PairOf nat_ops extents_by_disk (codes "3-4") te) (target_a ∷ []))
    × (Unknown nat_ops extents_by_disk (codes "3-4") []
        → Any (HasExtent nat_ops extents_by_disk (codes "3-4")) (target_a ∷ [])
        → (te : Fields ℕ) × (lookup (codes "3-4") pairs_of_a ≡ some te))
unfolding pairs_of_a drop_known
pairs_created_example = pairs_created nat_ops extents_by_disk (target_a ∷ []) [] (codes "3-4")

abbrev login_a : LoginSpec
login_a = record { remote_ip = codes "10.0.0.2"; iqn = codes "iqn"; target = codes "a" }

abbrev login_b : LoginSpec
login_b = record { remote_ip = codes "10.0.0.2"; iqn = codes "iqn"; target = codes "b" }

abbrev both_waiting : Waiting
both_waiting = (codes "iqn:a", true) ∷ (codes "iqn:b", true) ∷ []

abbrev b_waiting : Waiting
b_waiting = (codes "iqn:b", true) ∷ []

-- Only the device of the first target is ever seen.
abbrev a_arrives : ℕ → Event
a_arrives i = arrived (codes "/dev/sda") (codes "iqn:a")

both_log_in :
    (log_in_all world (codes "10.0.0.2") true false (login_a ∷ login_b ∷ []) [] ([], [])).1
    ≡ ends both_waiting
unfolding log_in_all str_eqb run_iscsi_admin_tool insert
both_log_in = refl

a_is_seen :
    watch true false (codes "10.0.0.2") 2 a_arrives both_waiting
    ≡ returns (codes "/dev/sda" ∷ [], b_waiting)
unfolding watch has str_eqb erase
a_is_seen = refl

devices_reported_example :
    (1 + 1 ≡ length both_waiting)
    × ((k : Str)
        → lookup k b_waiting
          ≡ (if not (unseen (codes "10.0.0.2") 2 a_arrives k) then none else lookup k both_waiting))
devices_reported_example =
    devices_reported world (codes "10.0.0.2") true false (login_a ∷ login_b ∷ []) ([], []) 2
      a_arrives both_waiting b_waiting (codes "/dev/sda" ∷ []) both_log_in a_is_seen

abbrev two_rows : Response ℕ
two_rows = record {
  results_map =
      (codes "3", target_a)
      ∷ (
        codes "9",
        field (codes "id") (int (pos 9)) (field (codes "alias") (str (codes "tank/c")) end),
      )
      ∷ [];
  int_keys = [];
  str_keys = [];
}

abbrev three_volumes : List Str
three_volumes = codes "tank/c" ∷ codes "tank/b" ∷ codes "tank/a" ∷ []

ids_of_args_example :
    get_ids_ordered_by_args_from_response nat_ops two_rows
      (codes "alias")
      three_volumes
      (args_index 0 three_volumes [])
    ≡ returns (int (pos 9) ∷ int (pos 3) ∷ [], codes "tank/c" ∷ codes "tank/a" ∷ [])
unfolding str_eqb get_field known_ids sprint or_null
ids_of_args_example =
    ids_of_args nat_ops (codes "alias") two_rows three_volumes (refl, (refl, (refl, tt)))

abbrev target_values : List Str
unfolding query_values
target_values =
    query_values world (codes "target") (identifiers_of (codes "target")) (codes "tank/a" ∷ [])

abbrev target_attrs : List Str
unfolding query_attrs
target_attrs =
    query_attrs world (codes "target") (identifiers_of (codes "target")) (codes "tank/a" ∷ [])

crud_query-denotes_example :
    (length target_attrs ≡ length target_values)
    × ((fs : List (Json ℕ)) × (make_query_filter world.unmarshal_value
            (paired target_values target_attrs)
            (query_params true false)
          ≡ gives fs)
        × (all passes fs ≡ true))
unfolding identifiers_of str_eqb target_attrs query_attrs target_values query_values entry_value
    atoi has_prefix
crud_query-denotes_example =
    crud_query-denotes world (codes "target") passes is_named passes-FilterLaws
      (query_params true false) (codes "tank/a") [] refl (refl, tt)
