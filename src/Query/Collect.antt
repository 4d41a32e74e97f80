-- ===== src/Query/Collect.antt =====
-- cmd/util_common.go: the loop of `QueryApi` over the rows of a response, `MergeResponseInto` and
-- `DeleteResponseEntries`.
use truenas_incus_ctl.Base.{
  ℕ, zero, suc, ◌+◌, Bool, true, false, ◌&&◌, ◌||◌, not, List, [], ◌∷◌, ◌++◌, Option, none, some, ℤ,
  int_eq, Str, str_eq, codes, is_empty, if◌then◌else◌,
}
use truenas_incus_ctl.Base.Dict.{Dict, insert, erase, has, keys}
use truenas_incus_ctl.Base.Decimal.{atoi}
use truenas_incus_ctl.Json.{
  Json, null, str, obj, Fields, end, field, FloatOps, get_field, sprint, depth,
}
use truenas_incus_ctl.Api.{extract_json_array_of_maps}
use truenas_incus_ctl.Query.Filter.{QueryParams}
use truenas_incus_ctl.Query.Properties.{insert_properties}

-- `typeQueryResponse`
pub record Response (F : Type 0) : Type 0 where
  pub results_map : Dict Str (Fields F)
  pub int_keys : List ℤ
  pub str_keys : List Str

abbrev pub is_empty_list {ℓ} : {A : Type ℓ} → List A → Bool
is_empty_list [] = true
is_empty_list (_ ∷ _) = false

module _ {F : Type 0} where
  -- A key that `strconv.Atoi` reads goes to the one list, another to the other.
  unfoldable pub add_key : Response F → Str → Response F
  add_key r k = elim (atoi k) [
    | some n ↦ record {
      results_map = r.results_map;
      int_keys = r.int_keys ++ n ∷ [];
      str_keys = r.str_keys;
    }
    | none ↦ record {
      results_map = r.results_map;
      int_keys = r.int_keys;
      str_keys = r.str_keys ++ k ∷ [];
    }
  ]

  unfoldable pub put_row : Response F → Str → Fields F → Response F
  put_row r k v = record {
    results_map = insert k v r.results_map;
    int_keys = r.int_keys;
    str_keys = r.str_keys;
  }

  unfoldable pub merge_row : Response F → Str → Fields F → Response F
  unfolding add_key put_row
  merge_row dst k v = if has k dst.results_map then put_row dst k v else put_row (add_key dst k) k v

  -- The loop over the source's map.
  unfoldable pub merge_rows : Response F → Dict Str (Fields F) → Response F
  unfolding merge_row
  merge_rows dst [] = dst
  merge_rows dst ((k, v) ∷ src) = merge_rows (merge_row dst k v) src

  unfoldable pub merge_response_into : Response F → Response F → Response F
  unfolding merge_rows
  merge_response_into dst src = merge_rows dst src.results_map

  unfoldable pub add_keys : Response F → List Str → Response F
  unfolding add_key
  add_keys r [] = r
  add_keys r (k ∷ ks) = add_keys (add_key r k) ks

  unfoldable pub erase_all : Dict Str (Fields F) → List Str → Dict Str (Fields F)
  erase_all d [] = d
  erase_all d (k ∷ ks) = erase_all (erase k d) ks

  unfoldable pub any_present : Dict Str (Fields F) → List Str → Bool
  any_present d [] = false
  any_present d (k ∷ ks) = has k d || any_present (erase k d) ks

  -- The key lists are made again, if there were any, from the keys that are left.
  unfoldable pub delete_response_entries : Response F → List Str → Response F
  unfolding add_keys erase_all any_present
  delete_response_entries r ks =
      let left = erase_all r.results_map ks in
      if any_present r.results_map ks && not (is_empty_list r.int_keys && is_empty_list r.str_keys)
      then add_keys (record { results_map = left; int_keys = []; str_keys = [] }) (keys left)
      else record { results_map = left; int_keys = r.int_keys; str_keys = r.str_keys }

  -- How deep the rows are nested, together.
  unfoldable pub weight : List (Fields F) → ℕ
  weight [] = 0
  weight (row ∷ rows) = depth (obj row) + weight rows

  abbrev pub no_rows : Response F
  no_rows = record { results_map = []; int_keys = []; str_keys = [] }

  abbrev pub children_of : Fields F → List (Fields F)
  children_of row = (extract_json_array_of_maps row (codes "children")).0

module _ {F : Type 0} (ops : FloatOps F) where
  unfoldable pub primary_of : Option (Json F) → Str
  primary_of none = []
  primary_of (some (str s)) = s
  primary_of (some v) = sprint ops v

  unfoldable pub inner_of : Option (Json F) → Fields F
  inner_of (some (obj fs)) = fs
  inner_of _ = end

  unfoldable pub id_or_null : Option (Json F) → Json F
  id_or_null none = null
  id_or_null (some v) = v

  -- `dict`, with the properties of the row, of "properties" and of "user_properties".
  unfoldable pub row_dict : Bool → List Str → Fields F → Fields F
  unfolding inner_of id_or_null
  row_dict is_nfs order row =
      let start =
        field (codes "id") (id_or_null (get_field (codes "id") row))
          (if is_nfs then field (codes "type") (str (codes "NFS")) end else end) in
      let exclude = codes "id" ∷ codes "children" ∷ codes "properties" ∷ [] in
      let own = insert_properties ops start row exclude order in
      let inner =
        insert_properties ops own (inner_of (get_field (codes "properties") row)) [] order in
      insert_properties ops inner (inner_of (get_field (codes "user_properties") row)) [] order

  unfoldable pub collect_row : Bool → QueryParams → Response F → Fields F → Response F
  unfolding add_key put_row row_dict primary_of
  collect_row is_nfs params out row =
      let primary = primary_of (get_field (codes "id") row) in
      if is_empty primary || has primary out.results_map
      then out
      else (let next = put_row out primary (row_dict is_nfs params.value_order row) in
          if params.should_skip_key_build then next else add_key next primary)

  -- The loop, which appends the children of a row to the rows that are still to come; `none` stands
  -- for a loop that has run out of fuel.
  unfoldable pub collect_rows :
      ℕ → Bool → QueryParams → Response F → List (Fields F) → Option (Response F)
  unfolding collect_row
  collect_rows fuel is_nfs params out [] = some out
  collect_rows zero is_nfs params out (row ∷ rows) = none
  collect_rows (suc fuel) is_nfs params out (row ∷ rows) =
      collect_rows fuel is_nfs params (collect_row is_nfs params out row) (rows ++ children_of row)

  unfoldable pub collect_response : Bool → QueryParams → List (Fields F) → Option (Response F)
  unfolding collect_rows weight
  collect_response is_nfs params rows = collect_rows (weight rows) is_nfs params no_rows rows
