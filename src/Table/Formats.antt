-- ===== src/Table/Formats.antt =====
-- core/print_data.go: `BuildTableData` and `WriteJson`.
use truenas_incus_ctl.Base.{
  true, false, List, [], ◌∷◌, ◌++◌, Option, none, some, Str, str_eq, ◌==◌, codes, to_lower,
  if◌then◌else◌,
}
use truenas_incus_ctl.Json.{Json, obj, Fields, end, field, FloatOps, get_field, set_field, sprint}
use truenas_incus_ctl.Table.Write.{write_list_csv, write_list_table}

module _ {F : Type 0} where
  -- The name of a row: its "id", or else its "name".
  unfoldable pub row_id : Fields F → Option (Json F)
  row_id row = elim (get_field (codes "id") row) [
    | some v ↦ some v
    | none ↦ get_field (codes "name") row
  ]

  unfoldable pub copy_column : Str → Option (Json F) → Fields F → Fields F
  copy_column c none out = out
  copy_column c (some v) out = set_field c v out

  -- The columns that a row has.
  unfoldable pub row_record : List Str → Fields F → Fields F → Fields F
  unfolding copy_column
  row_record [] row out = out
  row_record (c ∷ columns) row out = row_record columns row (copy_column c (get_field c row) out)

-- `marshal` is `json.Marshal`: the text, or an error.
module _ {F : Type 0} (ops : FloatOps F) (marshal : Json F → Str × Option Str) where
  -- The loop over the rows; `none` is a row with neither an id nor a name.
  unfoldable pub json_rows : List (Fields F) → List Str → Fields F → Option (Fields F)
  unfolding row_id row_record
  json_rows [] columns out = some out
  json_rows (row ∷ rows) columns out = elim (row_id row) [
    | none ↦ none
    | some id ↦
        json_rows rows columns (set_field (sprint ops id) (obj (row_record columns row end)) out)
  ]

  unfoldable pub marshalled : Str × Option Str → Str × Option Str
  marshalled (text, some e) = ([], some e)
  marshalled (text, none) = (text ++ codes "\n", none)

  -- What is written, and the error.
  unfoldable pub write_json : List (Fields F) → List Str → Str → Str × Option Str
  unfolding json_rows marshalled
  write_json rows columns json_name = elim (json_rows rows columns end) [
    | none ↦ ([], some (codes "Could not find id or name in json table data"))
    | some out ↦ marshalled (marshal (obj (field json_name (obj out) end)))
  ]

  unfoldable pub table_or_panic : Option Str → Option (Str × Option Str)
  table_or_panic none = none
  table_or_panic (some text) = some (text, none)

  -- `none` is an index or a slice out of range.
  unfoldable pub build_table_data :
      Str → Str → List Str → List (Fields F) → Option (Str × Option Str)
  unfolding write_json table_or_panic write_list_csv write_list_table
  build_table_data format json_name columns rows =
      let f = to_lower format in
      if f == codes "compact"
      then some (write_list_csv ops rows columns false, none)
      else if f == codes "csv"
      then some (write_list_csv ops rows columns true, none)
      else if f == codes "json"
      then some (write_json rows columns json_name)
      else if f == codes "table"
      then table_or_panic (write_list_table ops rows columns true)
      else some ([], some (codes "Unrecognised table format \"" ++ (f ++ codes "\"")))
