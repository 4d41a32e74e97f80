-- ===== src/Query/Filter.antt =====
-- cmd/util_common.go: `makeQueryFilter`, `makeIndividualFilter`, `makeRecursivePathsFilterList`,
-- `constructORChain`, `makeQueryOptions`. What `json.Unmarshal` writes is the parameter `unmarshal`.
use truenas_incus_ctl.Base.{
  Bool, false, ◌&&◌, List, [], ◌∷◌, ◌++◌, map, Option, none, some, Str, str_eq, ◌==◌, codes,
  is_empty, has_prefix, if◌then◌else◌, contains,
}
use truenas_incus_ctl.Base.Decimal.{atoi}
use truenas_incus_ctl.Base.Dict.{Dict, lookup, insert, has}
use truenas_incus_ctl.Json.{
  Json, null, bool, str, int, arr, obj, Items, nil, cons, Fields, end, field,
}

-- `typeQueryParams`
pub record QueryParams : Type 0 where
  pub value_order : List Str
  pub should_skip_key_build : Bool
  pub should_get_all_props : Bool
  pub should_get_user_props : Bool
  pub should_recurse : Bool

module _ {F : Type 0} where
  abbrev pub to_items : List (Json F) → Items F
  to_items [] = nil
  to_items (j ∷ js) = cons j (to_items js)

  -- The loop of `constructORChain`, with the one element of `top`.
  unfoldable pub or_loop : Json F → List (Json F) → Json F
  or_loop top [] = top
  or_loop top (f ∷ fs) =
      or_loop (arr (cons (str (codes "OR")) (cons (arr (cons top (cons f nil))) nil))) fs

  unfoldable pub construct_or_chain : List (Json F) → Json F
  unfolding or_loop
  construct_or_chain [] = null
  construct_or_chain (f ∷ fs) = or_loop f fs

  abbrev pub condition : Str → Str → Json F → Json F
  condition key op value = arr (cons (str key) (cons (str op) (cons value nil)))

  unfoldable pub make_recursive_paths_filter_list : Str → List Str → List (Json F)
  make_recursive_paths_filter_list key [] = []
  make_recursive_paths_filter_list key (p ∷ ps) =
      condition key (codes "=") (str p)
      ∷ condition key (codes "^") (str (p ++ codes "/"))
      ∷ make_recursive_paths_filter_list key ps

-- `typeEntriesMap` and `uniqTypes`
pub record Groups : Type 0 where
  pub entries_of : Dict Str (List Str)
  pub uniq_types : List Str

abbrev pub or_empty : Option (List Str) → List Str
or_empty none = []
or_empty (some es) = es

-- A type that is new gets an empty list.
unfoldable pub open_type : Groups → Str → Groups
unfolding has
open_type g t =
    if has t g.entries_of
    then g
    else record { entries_of = insert t [] g.entries_of; uniq_types = g.uniq_types ++ t ∷ [] }

-- One entry, given with its type.
unfoldable pub add_entry : Groups → Str × Str → Groups
unfolding open_type
add_entry g (e, t) =
    let opened = open_type g t in
    record {
      entries_of = insert t (or_empty (lookup t opened.entries_of) ++ e ∷ []) opened.entries_of;
      uniq_types = opened.uniq_types;
    }

unfoldable pub group : Groups → List (Str × Str) → Groups
unfolding add_entry
group g [] = g
group g (p ∷ ps) = group (add_entry g p) ps

abbrev pub no_groups : Groups
no_groups = record { entries_of = []; uniq_types = [] }

-- The error is about the first entry that is empty, and names its type.
unfoldable pub empty_entry : List (Str × Str) → Option Str
empty_entry [] = none
empty_entry ((e, t) ∷ ps) = if is_empty e then some t else empty_entry ps

-- `fmt.Errorf`'s message, or the value.
pub data Result {ℓ} (A : Type ℓ) : Type ℓ where
  fails : Str → Result A
  gives : A → Result A

module _ {F : Type 0} (unmarshal : Str → Json F) where
  unfoldable pub entry_value : Str → Json F
  entry_value e = elim (atoi e) [
    | some n ↦ int n
    | none ↦ if has_prefix e (codes "[") then unmarshal e else str e
  ]

  unfoldable pub make_individual_filter : Str → List Str → Bool → Json F
  unfolding construct_or_chain make_recursive_paths_filter_list entry_value
  make_individual_filter key array is_recursive =
      if is_recursive && (key == codes "dataset")
      then construct_or_chain (make_recursive_paths_filter_list key array)
      else condition key (codes "in") (arr (to_items (map entry_value array)))

  unfoldable pub filters_of : Bool → Groups → List Str → List (Json F)
  filters_of is_recursive g [] = []
  filters_of is_recursive g (t ∷ ts) =
      make_individual_filter t (or_empty (lookup t g.entries_of)) is_recursive
      ∷ filters_of is_recursive g ts

  unfoldable pub filter_of : Bool → List (Str × Str) → List (Json F)
  unfolding filters_of group construct_or_chain make_individual_filter
  filter_of is_recursive [] = []
  filter_of is_recursive ((e, t) ∷ []) = make_individual_filter t (e ∷ []) is_recursive ∷ []
  filter_of is_recursive (p ∷ q ∷ ps) =
      let g = group no_groups (p ∷ q ∷ ps) in
      construct_or_chain (filters_of is_recursive g g.uniq_types) ∷ []

  -- The entries come with their types: `QueryApi` has compared the two lengths.
  unfoldable pub make_query_filter : List (Str × Str) → QueryParams → Result (List (Json F))
  unfolding empty_entry filter_of
  make_query_filter ps params = elim (empty_entry ps) [
    | some t ↦ fails (codes "Cannot query based on empty " ++ t)
    | none ↦ gives (filter_of params.should_recurse ps)
  ]

unfoldable pub append_if_missing : List Str → Str → List Str
append_if_missing values value = if contains values value then values else values ++ value ∷ []

module _ {F : Type 0} where
  unfoldable pub make_query_options : List Str → QueryParams → Bool → Fields F
  unfolding append_if_missing
  make_query_options props params is_snapshot =
      let listed = if is_snapshot then append_if_missing props (codes "createtxg") else props in
      let chosen =
        if params.should_get_all_props then null else arr (to_items (map (λ s. str s) listed)) in
      let options = field (codes "flat") (bool false) (
        field (codes "retrieve_children") (bool params.should_recurse) (
          field (codes "properties") chosen
            (field (codes "user_properties") (bool params.should_get_user_props) end))) in
      field (codes "extra") (obj options) end
