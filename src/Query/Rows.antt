-- ===== src/Query/Rows.antt =====
-- cmd/util_common.go: GetListFromQueryResponse, GetMapFromQueryResponseKeyedOn and
-- GetIdsOrderedByArgsFromResponse, the readers of a query's response.
use truenas_incus_ctl.Base.{
  ℕ, Bool, true, false, ◌||◌, not, List, [], ◌∷◌, ◌++◌, map, Option, none, some, ℤ, pos, negsuc,
  int_eq, Str, str_eq, ◌==◌, codes, index_of, take, set, replicate, length, ltb, eqb, if◌then◌else◌,
}
use truenas_incus_ctl.Base.Dict.{Dict, lookup, insert}
use truenas_incus_ctl.Base.Decimal.{itoa}
use truenas_incus_ctl.Json.{Json, null, Fields, FloatOps, get_field, sprint, str_ltb}
use truenas_incus_ctl.Api.{Run, returns, panics, get_integer_from_json_object_or, or_null}
use truenas_incus_ctl.Query.Collect.{Response, primary_of}

-- The sign of a comparison.
pub data Order : Type 0 where
  below : Order
  same : Order
  above : Order

-- `strings.Compare`
unfoldable pub compare_strs : Str → Str → Order
compare_strs s t = if s == t then same else if str_ltb s t then below else above

unfoldable pub int_ltb : ℤ → ℤ → Bool
int_ltb (pos a) (pos b) = ltb a b
int_ltb (pos a) (negsuc b) = false
int_ltb (negsuc a) (pos b) = true
int_ltb (negsuc a) (negsuc b) = ltb b a

-- `slices.Sort` on integers.
unfoldable pub insert_int : ℤ → List ℤ → List ℤ
unfolding int_ltb
insert_int n [] = n ∷ []
insert_int n (m ∷ ms) = if int_ltb m n then m ∷ insert_int n ms else n ∷ m ∷ ms

unfoldable pub sort_ints : List ℤ → List ℤ
unfolding insert_int
sort_ints [] = []
sort_ints (n ∷ ns) = insert_int n (sort_ints ns)

-- `parse_int` is `strconv.ParseInt` with base 0.
module _ {F : Type 0} (ops : FloatOps F) (parse_int : Str → Option ℤ) where
  -- The transaction group that a snapshot was made in, or 0.
  unfoldable pub create_txg : Response F → Str → ℤ
  create_txg r key = elim (lookup key r.results_map) [
    | none ↦ pos 0
    | some row ↦ get_integer_from_json_object_or ops parse_int row (codes "createtxg") (pos 0)
  ]

  unfoldable pub compare_txgs : ℤ → ℤ → Order
  unfolding int_ltb
  compare_txgs a b =
      if a == pos 0 || (b == pos 0 || a == b) then same else if int_ltb a b then below else above

  -- Both keys have an "@", at these places: snapshots of one dataset are compared by their
  -- transaction groups.
  unfoldable pub compare_snapshots : Response F → Str → Str → ℕ → ℕ → Order
  unfolding compare_strs create_txg compare_txgs
  compare_snapshots r a b i j =
      if not (eqb i j) then compare_strs a b else elim (compare_strs (take i a) (take j b)) [
        | below ↦ below
        | above ↦ above
        | same ↦ compare_txgs (create_txg r a) (create_txg r b)
      ]

  unfoldable pub compare_keys : Response F → Str → Str → Order
  unfolding compare_strs compare_snapshots
  compare_keys r a b = elim (index_of b'@' a) [
    | none ↦ compare_strs a b
    | some i ↦ elim (index_of b'@' b) [
      | none ↦ compare_strs a b
      | some j ↦ compare_snapshots r a b i j
    ]
  ]

  -- `sort_stable` is `slices.SortStableFunc`. The response keeps the sorted keys; a key without a row
  -- gives a nil map, here `none`.
  unfoldable pub get_list_from_query_response :
      ((Str → Str → Order) → List Str → List Str)
      → Response F
      → Response F × List (Option (Fields F))
  unfolding compare_keys sort_ints
  get_list_from_query_response sort_stable r =
      let int_keys = sort_ints r.int_keys in
      let str_keys = sort_stable (compare_keys r) r.str_keys in
      (
        record { results_map = r.results_map; int_keys = int_keys; str_keys = str_keys },
        map (λ n. lookup (itoa n) r.results_map) int_keys
            ++ map (λ k. lookup k r.results_map) str_keys,
      )

module _ {F : Type 0} (ops : FloatOps F) where
  -- The loop over the rows, in the order of the map.
  unfoldable pub keyed_on : Str → Dict Str (Fields F) → Dict Str (Fields F) → Dict Str (Fields F)
  unfolding primary_of
  keyed_on key [] out = out
  keyed_on key ((_, row) ∷ rows) out = elim (get_field key row) [
    | none ↦ keyed_on key rows out
    | some v ↦ keyed_on key rows (insert (primary_of ops (some v)) row out)
  ]

  unfoldable pub get_map_from_query_response_keyed_on : Response F → Str → Dict Str (Fields F)
  unfolding keyed_on
  get_map_from_query_response_keyed_on r key = keyed_on key r.results_map []

  -- One slot for each argument: the id of its row, null if none is known, and its name.
  abbrev pub Slots : Type 0
  Slots = List (Json F × Str)

  -- The loop over the rows; a place past the slots panics.
  unfoldable pub fill_slots : Str → Dict Str ℕ → Dict Str (Fields F) → Slots → Run Slots
  fill_slots key value_map [] slots = returns slots
  fill_slots key value_map ((_, row) ∷ rows) slots =
      let inner = sprint ops (or_null (get_field key row)) in
      elim (lookup inner value_map) [
        | none ↦ fill_slots key value_map rows slots
        | some i ↦
            let filled =
              fill_slots key value_map rows
                (set slots i (or_null (get_field (codes "id") row), inner)) in
            if ltb i (length slots) then filled else panics
      ]

  -- The slots with an id.
  unfoldable pub known_ids : Slots → List (Json F) × List Str
  known_ids [] = ([], [])
  known_ids ((null, name) ∷ slots) = known_ids slots
  known_ids ((id, name) ∷ slots) = let rest = known_ids slots in (id ∷ rest.0, name ∷ rest.1)

  unfoldable pub get_ids_ordered_by_args_from_response :
      Response F → Str → List Str → Dict Str ℕ → Run (List (Json F) × List Str)
  unfolding fill_slots known_ids
  get_ids_ordered_by_args_from_response r key value_list value_map =
      elim (fill_slots key value_map r.results_map (replicate (length value_list) (null, []))) [
        | panics ↦ panics
        | returns slots ↦ returns (known_ids slots)
      ]
