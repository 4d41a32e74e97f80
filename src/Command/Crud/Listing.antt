-- ===== src/Command/Crud/Listing.antt =====
-- cmd/iscsi_crud.go: iscsiCrudList.
use truenas_incus_ctl.Base.{
  Bool, false, ◌&&◌, ◌||◌, List, [], ◌∷◌, ◌++◌, map, Option, none, some, Str, str_eq, ◌==◌, codes,
  if◌then◌else◌,
}
use truenas_incus_ctl.Base.Dict.{Dict}
use truenas_incus_ctl.Json.{Json, Fields, entries}
use truenas_incus_ctl.Api.{is_string_true}
use truenas_incus_ctl.Options.Columns.{
  Format, format, conflict, get_table_format, enumerate_output_properties,
  get_used_property_columns,
}
use truenas_incus_ctl.Query.Filter.{QueryParams}
use truenas_incus_ctl.Query.Properties.{build_value_order}
use truenas_incus_ctl.Query.Collect.{Response, is_empty_list}
use truenas_incus_ctl.Query.Rows.{get_list_from_query_response}
use truenas_incus_ctl.Table.Formats.{build_table_data}
use truenas_incus_ctl.Command.Steps.{Outside, Outcome, ends, errs, crashes, M, pure, ◌>>=◌}
use truenas_incus_ctl.Command.Create.Plans.{or_no_keys}
use truenas_incus_ctl.Command.Crud.{identifiers_of, iscsi_crud_query}
use truenas_incus_ctl.Command.Crud.Join.{iscsi_query_target_extent_with_join}

module _ {S F : Type 0} (w : Outside S F) (category : Str) where
  abbrev used_columns : List (Fields F) → List Str → List Str
  used_columns rows = get_used_property_columns (map entries rows)

  unfoldable pub list_columns : Bool → List Str → List (Fields F) → List Str
  unfolding identifiers_of
  list_columns all_props properties rows =
      if all_props
      then used_columns rows (identifiers_of category)
      else elim properties [ [] ↦ identifiers_of category | p ∷ ps ↦ p ∷ ps ]

  abbrev list_params : Dict Str Str → List Str → QueryParams
  list_params flags properties = record {
    value_order = build_value_order (is_string_true flags (codes "parsable"));
    should_skip_key_build = false;
    should_get_all_props =
        is_string_true flags (codes "all")
        || (category == codes "targetextent" && is_empty_list properties);
    should_get_user_props = false;
    should_recurse = false;
  }

  abbrev of_table : Option (Str × Option Str) → Outcome (List Str)
  of_table none = crashes
  of_table (some (text, none)) = ends (text ∷ [])
  of_table (some (text, some e)) = errs e

  abbrev of_format : Format → Outcome Str
  of_format (format f) = ends f
  of_format (conflict e) = errs e

  unfoldable pub query_listed : List Str → List Str → QueryParams → M S (Response F)
  unfolding iscsi_crud_query iscsi_query_target_extent_with_join
  query_listed args properties extras =
      if category == codes "targetextent"
      then iscsi_query_target_extent_with_join w args properties extras
      else iscsi_crud_query w category args properties extras

  -- `marshal` is `json.Marshal`. The text of a table that comes with an error is left out.
  unfoldable pub iscsi_crud_list :
      (Json F → Str × Option Str) → Dict Str Str → List Str → M S (List Str)
  unfolding query_listed list_columns build_table_data
  iscsi_crud_list marshal flags args = do
    f ← pure (of_format (get_table_format flags))
    let properties = enumerate_output_properties flags
    let extras = list_params flags properties
    response ← query_listed args properties extras
    let rows =
        map or_no_keys (get_list_from_query_response w.ops w.parse_int w.sort_stable response).1
    pure (
        of_table (
          build_table_data w.ops marshal f (category ++ codes "s")
            (list_columns extras.should_get_all_props properties rows) rows))
