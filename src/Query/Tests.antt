-- ===== src/Query/Tests.antt =====
-- Runs of the query of cmd/util_common.go.
use truenas_incus_ctl.Base.{
  length, is_empty, ℕ, ◌≡◌, refl, true, false, ◌||◌, List, [], ◌∷◌, some, pos, Str, str_eq, codes,
  ◌==◌, inl, inr, sym, arith, Bool-cases, str_eqb, int_eqb, int_eq,
}
use truenas_incus_ctl.Base.Dict.{has, lookup, insert, erase}
use truenas_incus_ctl.Base.Decimal.{atoi}
use truenas_incus_ctl.Json.{
  Json, null, str, float, int64, arr, obj, nil, cons, Fields, field, end, get_field, set_field,
  depth,
}
use truenas_incus_ctl.Json.Sample.{nat_ops}
use truenas_incus_ctl.Api.{extract_json_array_of_maps}
use truenas_incus_ctl.Query.Filter.{QueryParams, make_query_filter, gives, empty_entry}
use truenas_incus_ctl.Query.Groups.{any, all, is_none}
use truenas_incus_ctl.Query.Denotation.{accepts_entry, make_query_filter-denotes}
use truenas_incus_ctl.Query.Sample.{is_named, passes, passes-FilterLaws}
use truenas_incus_ctl.Query.Properties.{insert_properties, merged, get-insert_properties}
use truenas_incus_ctl.Query.Collect.{
  Response, collect_response, merge_response_into, delete_response_entries,
}
use truenas_incus_ctl.Query.Listing.{key_of, collect_response_complete, Within}
use truenas_incus_ctl.Query.Keys.{
  key_count, is_listed, Indexed, merge_response_into-Indexed, delete_response_entries-Indexed,
  collect_response-Indexed,
}

abbrev plain : QueryParams
plain = record {
  value_order = codes "value" ∷ [];
  should_skip_key_build = false;
  should_get_all_props = false;
  should_get_user_props = false;
  should_recurse = true;
}

-- A dataset with one child.
abbrev child_row : Fields ℕ
child_row = field (codes "id") (str (codes "tank/a")) end

abbrev parent_row : Fields ℕ
parent_row =
    field (codes "id") (str (codes "tank"))
      (field (codes "children") (arr (cons (obj child_row) nil)) end)

collect_response_complete_example :
    (r : Response ℕ) × (collect_response nat_ops false plain (parent_row ∷ []) ≡ some r)
    × ((x : Fields ℕ)
        → Within (parent_row ∷ []) x
        → is_empty (key_of nat_ops x) ≡ false
        → has (key_of nat_ops x) r.results_map ≡ true)
collect_response_complete_example = collect_response_complete nat_ops false plain (parent_row ∷ [])

abbrev one_row : Response ℕ
one_row = record {
  results_map = (codes "12", child_row) ∷ [];
  int_keys = pos 12 ∷ [];
  str_keys = [];
}

abbrev other_row : Response ℕ
other_row = record {
  results_map = (codes "tank", parent_row) ∷ [];
  int_keys = [];
  str_keys = codes "tank" ∷ [];
}

one_row-Indexed : Indexed one_row
unfolding is_listed has lookup atoi int_eqb
one_row-Indexed k e = elim (Bool-cases (codes "12" == k)) [
  | inl h ↦ let q : codes "12" ≡ k = (str_eq.beq_iff (codes "12") k).0 h in rw (sym q) refl
  | inr h ↦ absurd (ground arith)
]

both-Indexed : Indexed (merge_response_into one_row other_row)
both-Indexed k e = merge_response_into-Indexed one_row other_row k one_row-Indexed e

delete_response_entries-Indexed_example :
    let left =
      delete_response_entries (merge_response_into one_row other_row) (codes "tank" ∷ []) in
    (is_listed left (codes "12") ≡ true) × (key_count left ≡ length left.results_map)
unfolding delete_response_entries merge_response_into has lookup str_eqb insert erase atoi
delete_response_entries-Indexed_example =
    delete_response_entries-Indexed (merge_response_into one_row other_row) (codes "tank" ∷ [])
      (codes "12") both-Indexed refl refl

abbrev parent_response : Response ℕ
parent_response = record {
  results_map =
      (codes "tank", field (codes "id") (str (codes "tank")) end)
      ∷ (codes "tank/a", field (codes "id") (str (codes "tank/a")) end)
      ∷ [];
  int_keys = [];
  str_keys = codes "tank" ∷ codes "tank/a" ∷ [];
}

collect_response-Indexed_example : is_listed parent_response (codes "tank/a") ≡ true
unfolding collect_response has lookup str_eqb depth extract_json_array_of_maps get_field atoi insert
    insert_properties
collect_response-Indexed_example =
    collect_response-Indexed nat_ops false plain (parent_row ∷ []) parent_response (codes "tank/a")
      refl refl refl

-- A property as the API gives it, and one that the destination has.
abbrev sized : Fields ℕ
sized =
    field (codes "used")
      (obj (field (codes "rawvalue") (str (codes "7")) (field (codes "value") (float 7) end)))
      child_row

get-insert_properties_example :
    get_field (codes "used") (insert_properties nat_ops child_row sized [] (codes "value" ∷ []))
    ≡ merged nat_ops []
        (codes "value" ∷ [])
        (codes "used")
        (get_field (codes "used") child_row)
        (get_field (codes "used") sized)
unfolding get_field str_eqb
get-insert_properties_example =
    get-insert_properties nat_ops child_row sized [] (codes "value" ∷ []) (codes "used")
      (refl, (refl, tt))

sized-used :
    get_field (codes "used") (insert_properties nat_ops child_row sized [] (codes "value" ∷ []))
    ≡ some (int64 (pos 7))
unfolding insert_properties get_field set_field str_eqb
sized-used = refl

abbrev two_entries : List (Str × Str)
two_entries =
    (codes "tank", codes "dataset") ∷ (codes "5", codes "id") ∷ (codes "nas", codes "dataset") ∷ []

make_query_filter-denotes_example :
    (fs : List (Json ℕ)) × (make_query_filter (λ s. null) two_entries plain ≡ gives fs)
    × (all passes fs ≡ (
        is_none two_entries
        || any
            (λ p. accepts_entry (λ s. null) passes is_named passes-FilterLaws true p.1 p.0)
            two_entries))
unfolding empty_entry
make_query_filter-denotes_example =
    make_query_filter-denotes (λ s. null) passes is_named passes-FilterLaws plain two_entries refl
