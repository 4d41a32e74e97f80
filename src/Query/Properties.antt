-- ===== src/Query/Properties.antt =====
-- cmd/util_common.go: `insertProperties` and `BuildValueOrder`.
use truenas_incus_ctl.Base.{
  ◌≡◌, refl, sym, ap, ◌∙◌, Bool, true, false, List, [], ◌∷◌, Option, none, some, Str, str_eq, ◌==◌,
  codes, contains, if◌then◌else◌, arith, eq_refl, Bool-cases, inl, inr,
}
use truenas_incus_ctl.Json.{
  Json, null, bool, str, float, int64, int, arr, obj, Fields, end, field, FloatOps, get_field,
  set_field, get-set_field,
}

unfoldable pub build_value_order : Bool → List Str
build_value_order true = codes "parsed" ∷ codes "value" ∷ codes "rawvalue" ∷ []
build_value_order false = codes "value" ∷ codes "rawvalue" ∷ codes "parsed" ∷ []

module _ {F : Type 0} (ops : FloatOps F) where
  -- The first field of `fs` that `order` names.
  unfoldable pub first_value : Fields F → List Str → Json F
  first_value fs [] = null
  first_value fs (t ∷ ts) =
      let rest = first_value fs ts in elim (get_field t fs) [ none ↦ rest | some v ↦ v ]

  unfoldable pub whole_number : Json F → Json F
  whole_number (float f) = if ops.is_whole f then int64 (ops.to_int64 f) else float f
  whole_number j = j

  unfoldable pub shown : List Str → Json F → Json F
  unfolding first_value whole_number
  shown order (obj fs) = whole_number (first_value fs order)
  shown order j = whole_number j

  -- A nil value is not written.
  unfoldable pub set_unless_null : Fields F → Str → Json F → Fields F
  set_unless_null dst key null = dst
  set_unless_null dst key v = set_field key v dst

  unfoldable pub insert_property : Fields F → List Str → List Str → Str → Json F → Fields F
  unfolding set_unless_null shown
  insert_property dst exclude order key value = elim (get_field key dst) [
    | some _ ↦ dst
    | none ↦ if contains exclude key then dst else set_unless_null dst key (shown order value)
  ]

  unfoldable pub insert_properties : Fields F → Fields F → List Str → List Str → Fields F
  unfolding insert_property
  insert_properties dst end exclude order = dst
  insert_properties dst (field key value src) exclude order =
      insert_properties (insert_property dst exclude order key value) src exclude order

  -- What a map shows of a value that it may hold.
  abbrev pub unless_null : Json F → Option (Json F)
  unless_null null = none
  unless_null j = some j

  abbrev pub offered : List Str → Option (Json F) → Option (Json F)
  offered order none = none
  offered order (some v) = unless_null (shown order v)

  abbrev pub or_else : Option (Json F) → Option (Json F) → Option (Json F)
  or_else (some v) o = some v
  or_else none o = o

  get-set_unless_null :
      (dst : Fields F) (key k : Str) (v : Json F)
      → get_field k (set_unless_null dst key v)
        ≡ (if key == k then or_else (unless_null v) (get_field k dst) else get_field k dst)
  unfolding set_unless_null
  get-set_unless_null dst key k null = ground arith
  get-set_unless_null dst key k (bool b) = get-set_field key k (bool b) dst
  get-set_unless_null dst key k (str s) = get-set_field key k (str s) dst
  get-set_unless_null dst key k (float f) = get-set_field key k (float f) dst
  get-set_unless_null dst key k (int64 n) = get-set_field key k (int64 n) dst
  get-set_unless_null dst key k (int n) = get-set_field key k (int n) dst
  get-set_unless_null dst key k (arr js) = get-set_field key k (arr js) dst
  get-set_unless_null dst key k (obj fs) = get-set_field key k (obj fs) dst

  -- The field `k` after one step of the loop.
  abbrev pub merged :
      List Str → List Str → Str → Option (Json F) → Option (Json F) → Option (Json F)
  merged exclude order k old new =
      or_else old (if contains exclude k then none else offered order new)

  get-insert_property :
      (dst : Fields F) (exclude order : List Str) (key k : Str) (v : Json F)
      → get_field k (insert_property dst exclude order key v)
        ≡ (if key == k then merged exclude order k (get_field k dst) (some v) else get_field k dst)
  unfolding insert_property
  get-insert_property dst exclude order key k v =
      let put = get-set_unless_null dst key k (shown order v) in
      elim (Bool-cases (key == k)) [
        | inl h ↦
            let q : key ≡ k = (str_eq.beq_iff key k).0 h in
            rw (h, q) (ground (arith, get-set_unless_null dst k k (shown order v), eq_refl k))
        | inr h ↦ rw h (ground (arith, put))
      ]

  offers_none :
      (excluded : Bool) (o : Option (Json F)) → or_else o (if excluded then none else none) ≡ o
  offers_none excluded o = ground arith

  -- No key stands twice, as in any Go map.
  abbrev pub Distinct : Fields F → Type 0
  Distinct end = Unit
  Distinct (field k v fs) = (get_field k fs ≡ none) × Distinct fs

  -- For a source map without repeated keys, whatever the order in which Go visits it, a key of the
  -- destination has in the end the value that it had, if it had one; else, unless the key is
  -- excluded, the value that the source shows under it, if that is not nil.
  pub get-insert_properties :
      (dst src : Fields F) (exclude order : List Str) (k : Str)
      → Distinct src
      → get_field k (insert_properties dst src exclude order)
        ≡ merged exclude order k (get_field k dst) (get_field k src)
  unfolding insert_properties get_field
  get-insert_properties dst end exclude order k d = ground arith
  get-insert_properties dst (field key value src) exclude order k d =
      let next = insert_property dst exclude order key value in
      get-insert_properties next src exclude order k d.1
      ∙ rw (get-insert_property dst exclude order key k value) (elim (Bool-cases (key == k)) [
        | inl h ↦
            let q : key ≡ k = (str_eq.beq_iff key k).0 h in
            let absent : get_field k src ≡ none = ap (λ j. get_field j src) (sym q) ∙ d.0 in
            rw (h, absent)
              (offers_none (contains exclude k)
                (merged exclude order k (get_field k dst) (some value)))
        | inr h ↦ rw h refl
      ])
