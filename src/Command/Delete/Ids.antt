-- ===== src/Command/Delete/Ids.antt =====
-- cmd/iscsi.go, deleteIscsi: the ids that GetIdsOrderedByArgsFromResponse of cmd/util_common.go reads
-- for its arguments.
use mathlib.Core.Path.{subst}
use truenas_incus_ctl.Base.{
  ◌⊎◌, ℕ, suc, ◌+◌, ◌<◌, ◌≡◌, ◌∙◌, refl, sym, ap, true, false, List, [], ◌∷◌, map, Option, none,
  some, Str, str_eq, ◌==◌, codes, length, length-map, set, replicate, contains, Bool-cases,
  Option-cases, inl, inr, arith, if◌then◌else◌,
}
use truenas_incus_ctl.Base.Dict.{Dict, lookup, insert, lookup-insert}
use truenas_incus_ctl.Json.{Json, null, Fields, FloatOps, get_field, sprint}
use truenas_incus_ctl.Api.{returns, or_null}
use truenas_incus_ctl.Query.Collect.{Response}
use truenas_incus_ctl.Query.Rows.{
  Slots, fill_slots, known_ids, get_ids_ordered_by_args_from_response,
}
use truenas_incus_ctl.Command.Delete.{args_index}

-- No argument is given twice.
abbrev pub Distinct : List Str → Type 0
Distinct [] = Unit
Distinct (a ∷ args) = (contains args a ≡ false) × Distinct args

abbrev position : Str → List Str → Option ℕ
position k [] = none
position k (a ∷ args) =
    if k == a then some 0 else elim (position k args) [ none ↦ none | some i ↦ some (suc i) ]

abbrev place_from : ℕ → Option ℕ → Option ℕ → Option ℕ
place_from n none old = old
place_from n (some i) old = some (n + i)

position-missing : (k : Str) (args : List Str) → contains args k ≡ false → position k args ≡ none
position-missing k [] h = refl
position-missing k (a ∷ args) h =
    ground (arith, str_eq.beq_iff k a, str_eq.beq_iff a k, position-missing k args)

missing_at :
    (k a : Str) (args : List Str)
    → (k == a) ≡ true
    → contains args a ≡ false
    → position k args ≡ none
missing_at k a args e h =
    position-missing k args
      (subst (λ b. contains args b ≡ false) (sym ((str_eq.beq_iff k a).0 e)) h)

place-insert :
    (k a : Str) (n : ℕ) (args : List Str) (d : Dict Str ℕ)
    → contains args a ≡ false
    → place_from (suc n) (position k args) (lookup k (insert a n d))
      ≡ place_from n (position k (a ∷ args)) (lookup k d)
place-insert k a n args d new = elim (Bool-cases (k == a)) [
  | inl e ↦ ground (
    arith,
    missing_at k a args e new,
    str_eq.beq_iff k a,
    str_eq.beq_iff a k,
    lookup-insert a k n d,
  )
  | inr e ↦ ground (arith, str_eq.beq_iff k a, str_eq.beq_iff a k, lookup-insert a k n d)
]

lookup-args_index :
    (k : Str) (n : ℕ) (args : List Str) (d : Dict Str ℕ)
    → Distinct args
    → lookup k (args_index n args d) ≡ place_from n (position k args) (lookup k d)
unfolding args_index
lookup-args_index k n [] d h = refl
lookup-args_index k n (a ∷ args) d (new, h) =
    lookup-args_index k (suc n) args (insert a n d) h ∙ place-insert k a n args d new

position-lt : (k : Str) (args : List Str) (i : ℕ) → position k args ≡ some i → i < length args
position-lt k [] i h = absurd (cc)
position-lt k (a ∷ args) i h = elim (Option-cases (position k args)) [
  | inl e ↦ ground (arith, e)
  | inr (j, e) ↦ ground (arith, position-lt k args j e)
]

module _ {A : Type 0} (k : Str) (v : A) (f : Str → A) where
  map-missing :
      (args : List Str)
      → position k args ≡ none
      → map f args ≡ map (λ a. if k == a then v else f a) args
  map-missing [] e = refl
  map-missing (a ∷ args) e = ground (arith, map-missing args)

  -- A write at the place of one argument, and none, args a change of what each argument has.
  set-map :
      (args : List Str) (i : ℕ)
      → Distinct args
      → position k args ≡ some i
      → set (map f args) i v ≡ map (λ a. if k == a then v else f a) args
  set-map [] i h e = absurd (cc)
  set-map (a ∷ args) i (new, h) e = elim (Bool-cases (k == a)) [
    | inl same ↦ ground (arith, same, map-missing args (missing_at k a args same new))
    | inr other ↦ elim (Option-cases (position k args)) [
      | inl none_there ↦ absurd (ground (arith, other, none_there))
      | inr (j, there) ↦ ground (arith, other, there, set-map args j h there)
    ]
  ]

module _ {F : Type 0} (ops : FloatOps F) (key : Str) where
  -- What the rows leave for one argument: the id of the last row that has it, and its name.
  abbrev pub last_row : Dict Str (Fields F) → Str → Json F × Str → Json F × Str
  last_row [] a slot = slot
  last_row ((_, row) ∷ rows) a slot =
      let inner = sprint ops (or_null (get_field key row)) in
      last_row rows a (if inner == a then (or_null (get_field (codes "id") row), inner) else slot)

  abbrev pub no_slot : Json F × Str
  no_slot = (null, [])

  replicate-map : (args : List Str) → replicate (length args) no_slot ≡ map (λ a. no_slot) args
  replicate-map [] = refl
  replicate-map (a ∷ args) = ap (λ (l : Slots ops). no_slot ∷ l) (replicate-map args)

  -- The place of an argument in the map that deleteIscsi makes.
  index_of_arg :
      (k : Str) (args : List Str)
      → Distinct args
      → lookup k (args_index 0 args []) ≡ place_from 0 (position k args) none
  unfolding lookup
  index_of_arg k args h = lookup-args_index k 0 args [] h

  index_found :
      (k : Str) (args : List Str) (i : ℕ)
      → Distinct args
      → position k args ≡ some i
      → lookup k (args_index 0 args []) ≡ some i
  index_found k args i h e = ground (arith, index_of_arg k args h)

  abbrev id_slot : Fields F → Json F × Str
  id_slot row = (or_null (get_field (codes "id") row), sprint ops (or_null (get_field key row)))

  abbrev inner_of : Fields F → Str
  inner_of row = sprint ops (or_null (get_field key row))

  -- One row, whose argument is not there or is there.
  fill_skips :
      (d : Dict Str ℕ) (k : Str) (row : Fields F) (rows : Dict Str (Fields F)) (slots : Slots ops)
      → lookup (inner_of row) d ≡ none
      → fill_slots ops key d ((k, row) ∷ rows) slots ≡ fill_slots ops key d rows slots
  unfolding fill_slots
  fill_skips d k row rows slots e = ground (arith, e)

  fill_writes :
      (d : Dict Str ℕ) (k : Str) (row : Fields F) (rows : Dict Str (Fields F)) (slots : Slots ops)
      (i : ℕ)
      → lookup (inner_of row) d ≡ some i
      → i < length slots
      → fill_slots ops key d ((k, row) ∷ rows) slots
        ≡ fill_slots ops key d rows (set slots i (id_slot row))
  unfolding fill_slots
  fill_writes d k row rows slots i e h = ground (arith, e, h)

  fill_slots-map :
      (rows : Dict Str (Fields F)) (args : List Str) (f : Str → Json F × Str)
      → Distinct args
      → fill_slots ops key (args_index 0 args []) rows (map f args)
        ≡ returns (map (λ a. last_row rows a (f a)) args)
  unfolding fill_slots
  fill_slots-map [] args f h = refl
  fill_slots-map ((k, row) ∷ rows) args f h =
      let v = id_slot row in
      let g = λ (a : Str). if inner_of row == a then v else f a in
      let ih = fill_slots-map rows args g h in
      elim (Option-cases (position (inner_of row) args)) [
        | inl e ↦
            fill_skips _ k row rows _ (rw e at (index_of_arg (inner_of row) args h))
            ∙ ap (fill_slots ops key (args_index 0 args []) rows)
                (map-missing (inner_of row) v f args e)
            ∙ ih
        | inr (i, e) ↦
            fill_writes _ k row rows _ i (index_found (inner_of row) args i h e)
              (rw (length-map args f) (position-lt (inner_of row) args i e))
            ∙ ap (fill_slots ops key (args_index 0 args []) rows)
                (set-map (inner_of row) v f args i h e)
            ∙ ih
      ]

  -- The id, if it is not nil, and the argument before those of the arguments behind it.
  abbrev put_id : Json F → Str → List (Json F) × List Str → List (Json F) × List Str
  put_id null a rest = rest
  put_id id a rest = (id ∷ rest.0, a ∷ rest.1)

  -- What is wanted of the rows: for each argument the id of the last row that has it.
  abbrev last_id : Dict Str (Fields F) → Str → Json F → Json F
  last_id [] a id = id
  last_id ((_, row) ∷ rows) a id =
      last_id rows a (if inner_of row == a then or_null (get_field (codes "id") row) else id)

  abbrev pub wanted_ids : Dict Str (Fields F) → List Str → List (Json F) × List Str
  wanted_ids rows [] = ([], [])
  wanted_ids rows (a ∷ args) = put_id (last_id rows a null) a (wanted_ids rows args)

  -- A slot without an id, or with one and the argument itself.
  abbrev IsSlotOf : Str → Json F × Str → Type 0
  IsSlotOf a slot = (slot.0 ≡ null) ⊎ (slot.1 ≡ a)

  last_row-id :
      (rows : Dict Str (Fields F)) (a : Str) (slot : Json F × Str)
      → (last_row rows a slot).0 ≡ last_id rows a slot.0
  last_row-id [] a slot = refl
  last_row-id ((k, row) ∷ rows) a slot = elim (Bool-cases (inner_of row == a)) [
    | inl e ↦ rw (last_row, last_id, e) (last_row-id rows a (id_slot row))
    | inr e ↦ rw (last_row, last_id, e) (last_row-id rows a slot)
  ]

  last_row-IsSlotOf :
      (rows : Dict Str (Fields F)) (a : Str) (slot : Json F × Str)
      → IsSlotOf a slot
      → IsSlotOf a (last_row rows a slot)
  last_row-IsSlotOf [] a slot h = h
  last_row-IsSlotOf ((k, row) ∷ rows) a slot h = elim (Bool-cases (inner_of row == a)) [
    | inl e ↦
        rw (last_row, e)
          (last_row-IsSlotOf rows a (id_slot row) (inr ((str_eq.beq_iff (inner_of row) a).0 e)))
    | inr e ↦ rw (last_row, e) (last_row-IsSlotOf rows a slot h)
  ]

  known_ids-put :
      (a : Str) (slot : Json F × Str) (slots : Slots ops)
      → IsSlotOf a slot
      → known_ids ops (slot ∷ slots) ≡ put_id slot.0 a (known_ids ops slots)
  unfolding known_ids
  known_ids-put a (null, name) slots h = refl
  known_ids-put a (id, name) slots (inr e) = ground (arith, e)
  known_ids-put a (id, name) slots (inl e) = ground (arith, e)

  known_ids-wanted :
      (rows : Dict Str (Fields F)) (args : List Str)
      → known_ids ops (map (λ a. last_row rows a no_slot) args) ≡ wanted_ids rows args
  unfolding known_ids
  known_ids-wanted rows [] = refl
  known_ids-wanted rows (a ∷ args) =
      let slots : Slots ops = map (λ a. last_row rows a no_slot) args in
      known_ids-put a (last_row rows a no_slot) slots (last_row-IsSlotOf rows a no_slot (inl refl))
      ∙ ap (λ id. put_id id a (known_ids ops slots)) (last_row-id rows a no_slot)
      ∙ ap (put_id (last_id rows a null) a) (known_ids-wanted rows args)

  -- For different arguments GetIdsOrderedByArgsFromResponse reads nothing out of range, and gives, in
  -- the order of the arguments, each argument for which the last row that has it has an id that is not
  -- nil, with this id.
  pub ids_of_args :
      (r : Response F) (args : List Str)
      → Distinct args
      → get_ids_ordered_by_args_from_response ops r key args (args_index 0 args [])
        ≡ returns (wanted_ids r.results_map args)
  unfolding get_ids_ordered_by_args_from_response
  ids_of_args r args h =
      let filled =
        ap (fill_slots ops key (args_index 0 args []) r.results_map) (replicate-map args)
        ∙ fill_slots-map r.results_map args (λ a. no_slot) h in
      ground (arith, filled, known_ids-wanted r.results_map args)
