-- ===== src/Query/Listing.antt =====
-- cmd/util_common.go: the rows of a response are all reached, and its key lists name every row.
use truenas_incus_ctl.Base.{
  ℕ, zero, suc, ◌+◌, ◌≤◌, ◌≡◌, refl, sym, ap, ◌∙◌, Bool, true, false, ◌||◌, List, [], ◌∷◌, ◌++◌,
  Option, none, some, int_eq, Str, str_eq, ◌==◌, codes, is_empty, arith, eq_refl, Option-cases, inl,
  inr,
}
use mathlib.Core.Logic.{◌⊎◌}
use mathlib.Core.Option.{some-injective}
use truenas_incus_ctl.Base.Dict.{Dict, insert, has, lookup-insert}
use truenas_incus_ctl.Json.{
  Json, null, bool, str, float, int64, int, arr, obj, Items, nil, cons, Fields, FloatOps, get_field,
  depth, depth_items, depth_fields, depth-get_field,
}
use truenas_incus_ctl.Api.{extract_json_array_of_maps, all_maps, maps_or_message, array_of_maps}
use truenas_incus_ctl.Query.Filter.{QueryParams}
use truenas_incus_ctl.Query.Collect.{
  Response, add_key, put_row, collect_row, children_of, collect_rows, weight, collect_response,
  primary_of, row_dict, no_rows,
}

module _ {F : Type 0} where
  weight-append : (xs ys : List (Fields F)) → weight (xs ++ ys) ≡ weight xs + weight ys
  unfolding weight
  weight-append [] ys = omega arith
  weight-append (x ∷ xs) ys = omega (arith, weight-append xs ys)

  all_maps-weight :
      (js : Items F) (rows : List (Fields F))
      → all_maps js ≡ some rows
      → weight rows ≤ depth_items js
  unfolding all_maps weight depth
  all_maps-weight nil rows e = ground arith
  all_maps-weight (cons (obj fs) js) rows e = elim (Option-cases (all_maps js)) [
    | inl h ↦ absurd (ground arith)
    | inr (l, h) ↦
        let q : fs ∷ l ≡ rows =
          some-injective (fs ∷ l) rows
            (sym (ap (λ o. elim o [ none ↦ none | some l ↦ some (fs ∷ l) ]) h) ∙ e) in
        let below = all_maps-weight js l h in rw (sym q) (omega (arith, below))
  ]
  all_maps-weight (cons null js) rows e = absurd (ground arith)
  all_maps-weight (cons (bool b) js) rows e = absurd (ground arith)
  all_maps-weight (cons (str s) js) rows e = absurd (ground arith)
  all_maps-weight (cons (float f) js) rows e = absurd (ground arith)
  all_maps-weight (cons (int64 n) js) rows e = absurd (ground arith)
  all_maps-weight (cons (int n) js) rows e = absurd (ground arith)
  all_maps-weight (cons (arr is) js) rows e = absurd (ground arith)

  array-weight :
      (o : Option (Json F)) (n : ℕ)
      → ((v : Json F) → o ≡ some v → depth v ≤ n)
      → weight (array_of_maps o).0 ≤ n
  unfolding array_of_maps maps_or_message weight depth
  array-weight none n h = omega arith
  array-weight (some (arr js)) n h = elim (Option-cases (all_maps js)) [
    | inl e ↦ rw e (omega arith)
    | inr (l, e) ↦ rw e (omega (arith, all_maps-weight js l e, h (arr js) refl))
  ]
  array-weight (some null) n h = omega arith
  array-weight (some (bool b)) n h = omega arith
  array-weight (some (str s)) n h = omega arith
  array-weight (some (float f)) n h = omega arith
  array-weight (some (int64 i)) n h = omega arith
  array-weight (some (int i)) n h = omega arith
  array-weight (some (obj fs)) n h = omega arith

  children-weight : (row : Fields F) → weight (children_of row) ≤ depth_fields row
  unfolding extract_json_array_of_maps
  children-weight row =
      array-weight (get_field (codes "children") row) (depth_fields row)
        (λ v e. depth-get_field (codes "children") row v e)

abbrev pub In : {F : Type 0} → Fields F → List (Fields F) → Type 0
In x [] = ⊥
In x (y ∷ ys) = (x ≡ y) ⊎ In x ys

-- The rows of a response: those that it lists, and the children of each of its rows.
pub data Within {F : Type 0} (rows : List (Fields F)) : Fields F → Type 0 where
  top : {row : Fields F} → In row rows → Within rows row
  child : {row sub : Fields F} → Within rows row → In sub (children_of row) → Within rows sub

module _ {F : Type 0} where
  In-left : (x : Fields F) (xs ys : List (Fields F)) → In x xs → In x (xs ++ ys)
  In-left x [] ys h = absurd h
  In-left x (y ∷ xs) ys (inl e) = inl e
  In-left x (y ∷ xs) ys (inr h) = inr (In-left x xs ys h)

  In-right : (x : Fields F) (xs ys : List (Fields F)) → In x ys → In x (xs ++ ys)
  In-right x [] ys h = h
  In-right x (y ∷ xs) ys h = inr (In-right x xs ys h)

  -- A row is the next one, or it is still to come after that one's children are appended.
  Within-next :
      (row : Fields F) (rows : List (Fields F)) (x : Fields F)
      → Within (row ∷ rows) x
      → (x ≡ row) ⊎ Within (rows ++ children_of row) x
  Within-next row rows x (top (inl e)) = inl e
  Within-next row rows x (top (inr h)) = inr (top (In-left x rows (children_of row) h))
  Within-next row rows x (child {row = p} w h) = elim (Within-next row rows p w) [
    | inl e ↦ inr (top (In-right x rows (children_of row) (rw (sym e) h)))
    | inr later ↦ inr (child later h)
  ]

  nothing-Within : (x : Fields F) → Within [] x → ⊥
  nothing-Within x (top h) = h
  nothing-Within x (child {row = p} w h) = nothing-Within p w

module _ {F : Type 0} (ops : FloatOps F) where
  collect_rows-enough :
      (fuel : ℕ) (is_nfs : Bool) (params : QueryParams) (out : Response F) (rows : List (Fields F))
      → weight rows ≤ fuel
      → (r : Response F) × (collect_rows ops fuel is_nfs params out rows ≡ some r)
  unfolding collect_rows weight depth
  collect_rows-enough fuel is_nfs params out [] h = (out, refl)
  collect_rows-enough zero is_nfs params out (row ∷ rows) h = absurd (omega (arith, h))
  collect_rows-enough (suc fuel) is_nfs params out (row ∷ rows) h =
      collect_rows-enough fuel is_nfs params (collect_row ops is_nfs params out row)
        (rows ++ children_of row)
        (omega (arith, weight-append rows (children_of row), children-weight row, h))

  has-put :
      (k j : Str) (v : Fields F) (d : Dict Str (Fields F))
      → has j (insert k v d) ≡ ((k == j) || has j d)
  unfolding has
  has-put k j v d = ground (arith, lookup-insert k j v d)

  abbrev pub key_of : Fields F → Str
  key_of row = primary_of ops (get_field (codes "id") row)

  collect_row-keeps :
      (is_nfs : Bool) (params : QueryParams) (out : Response F) (row : Fields F) (k : Str)
      → has k out.results_map ≡ true
      → has k (collect_row ops is_nfs params out row).results_map ≡ true
  unfolding collect_row add_key put_row
  collect_row-keeps is_nfs params out row k h =
      let put =
        has-put (key_of row) k (row_dict ops is_nfs params.value_order row) out.results_map in
      ground (arith, put, h)

  collect_row-has :
      (is_nfs : Bool) (params : QueryParams) (out : Response F) (row : Fields F)
      → is_empty (key_of row) ≡ false
      → has (key_of row) (collect_row ops is_nfs params out row).results_map ≡ true
  unfolding collect_row add_key put_row
  collect_row-has is_nfs params out row h =
      let k = key_of row in
      let put = has-put k k (row_dict ops is_nfs params.value_order row) out.results_map in
      ground (arith, put, h, eq_refl k)

  collect_rows_complete :
      (fuel : ℕ) (is_nfs : Bool) (params : QueryParams) (out r : Response F)
      (rows : List (Fields F))
      → collect_rows ops fuel is_nfs params out rows ≡ some r
      → ((k : Str) → has k out.results_map ≡ true → has k r.results_map ≡ true)
        × ((x : Fields F)
            → Within rows x
            → is_empty (key_of x) ≡ false
            → has (key_of x) r.results_map ≡ true)
  unfolding collect_rows
  collect_rows_complete fuel is_nfs params out r [] e =
      let q : out ≡ r = some-injective out r e in
      (λ k h. rw (sym q) h, λ x w. absurd (nothing-Within x w))
  collect_rows_complete zero is_nfs params out r (row ∷ rows) e = absurd (ground arith)
  collect_rows_complete (suc fuel) is_nfs params out r (row ∷ rows) e =
      let next = collect_row ops is_nfs params out row in
      let (kept, found) =
        collect_rows_complete fuel is_nfs params next r (rows ++ children_of row) e in
      (
        λ k h. kept k (collect_row-keeps is_nfs params out row k h),
        λ x w n. elim (Within-next row rows x w) [
          | inl q ↦
              let m : is_empty (key_of row) ≡ false = rw (sym q) n in
              rw q (kept (key_of row) (collect_row-has is_nfs params out row m))
          | inr later ↦ found x later n
        ],
      )

  -- The loop of `QueryApi` ends for every list of rows, and every row of the response that has an
  -- id, the children of rows at any depth included, has an entry in the map under its id.
  pub collect_response_complete :
      (is_nfs : Bool) (params : QueryParams) (rows : List (Fields F))
      → (r : Response F) × (collect_response ops is_nfs params rows ≡ some r)
        × ((x : Fields F)
            → Within rows x
            → is_empty (key_of x) ≡ false
            → has (key_of x) r.results_map ≡ true)
  unfolding collect_response
  collect_response_complete is_nfs params rows =
      let (r, e) = collect_rows-enough (weight rows) is_nfs params no_rows rows (omega arith) in
      (r, e, (collect_rows_complete (weight rows) is_nfs params no_rows r rows e).1)
