-- ===== src/Query/Keys.antt =====
-- cmd/util_common.go: the key lists of a response name every row of its map, which is what
-- `GetListFromQueryResponse` goes by.
use truenas_incus_ctl.Base.{
  ℤ, ◌+◌, length, length-append, ℕ, zero, suc, ◌≡◌, refl, sym, ap, ◌∙◌, Bool, true, false, ◌&&◌,
  ◌||◌, not, List, [], ◌∷◌, ◌++◌, none, some, int_eq, Str, str_eq, ◌==◌, codes, contains,
  contains-append, is_empty, arith, eq_refl, Bool-cases, Option-cases, inl, inr,
}
use mathlib.Core.Option.{some-injective}
use truenas_incus_ctl.Base.Dict.{
  Dict, lookup, insert, erase, has, keys, lookup-insert, lookup-erase,
}
use truenas_incus_ctl.Base.Decimal.{atoi}
use truenas_incus_ctl.Json.{Fields, FloatOps, get_field}
use truenas_incus_ctl.Query.Filter.{QueryParams}
use truenas_incus_ctl.Query.Collect.{
  Response, add_key, put_row, merge_row, merge_rows, merge_response_into, add_keys, erase_all,
  any_present, delete_response_entries, collect_row, collect_rows, collect_response, primary_of,
  row_dict, no_rows, children_of, is_empty_list,
}

without : {a b c : Bool} → a ≡ (b || c) → b ≡ false → a ≡ true → c ≡ true
without p q e = ground arith

module _ {F : Type 0} where
  unfoldable pub is_listed : Response F → Str → Bool
  is_listed r k = elim (atoi k) [ some n ↦ contains r.int_keys n | none ↦ contains r.str_keys k ]

  abbrev pub Indexed : Response F → Type 0
  Indexed r = (k : Str) → has k r.results_map ≡ true → is_listed r k ≡ true

  has-put :
      (k j : Str) (v : Fields F) (d : Dict Str (Fields F))
      → has j (insert k v d) ≡ ((k == j) || has j d)
  unfolding has
  has-put k j v d = ground (arith, lookup-insert k j v d)

  add_key-keeps :
      (r : Response F) (k j : Str) → is_listed r j ≡ true → is_listed (add_key r k) j ≡ true
  unfolding is_listed add_key
  add_key-keeps r k j h = elim (Option-cases (atoi k)) [
    | inl a ↦ ground (arith, contains-append r.str_keys k j, h, a)
    | inr (n, a) ↦ elim (Option-cases (atoi j)) [
      | inl b ↦ ground (arith, h, a, b)
      | inr (m, b) ↦ ground (arith, contains-append r.int_keys n m, h, a, b)
    ]
  ]

  add_key_self : (r : Response F) (k : Str) → is_listed (add_key r k) k ≡ true
  unfolding is_listed add_key
  add_key_self r k = elim (Option-cases (atoi k)) [
    | inl a ↦ ground (arith, contains-append r.str_keys k k, eq_refl k, a)
    | inr (n, a) ↦ ground (arith, contains-append r.int_keys n n, eq_refl n, a)
  ]

  add_key-map : (r : Response F) (k : Str) → (add_key r k).results_map ≡ r.results_map
  unfolding add_key
  add_key-map r k = ground arith

  put_row-Indexed :
      (r : Response F) (k : Str) (v : Fields F)
      → is_listed r k ≡ true
      → Indexed r
      → Indexed (put_row r k v)
  unfolding put_row is_listed
  put_row-Indexed r k v l h j e = elim (Bool-cases (k == j)) [
    | inl q ↦ rw (sym ((str_eq.beq_iff k j).0 q)) l
    | inr q ↦ h j (without (has-put k j v r.results_map) q e)
  ]

  put_key-Indexed :
      (r : Response F) (k : Str) (v : Fields F) → Indexed r → Indexed (put_row (add_key r k) k v)
  put_key-Indexed r k v h =
      put_row-Indexed (add_key r k) k v (add_key_self r k)
        (λ j e. add_key-keeps r k j (h j (ap (λ d. has j d) (sym (add_key-map r k)) ∙ e)))

  merge_row-Indexed :
      (r : Response F) (k : Str) (v : Fields F) → Indexed r → Indexed (merge_row r k v)
  unfolding merge_row
  merge_row-Indexed r k v h = elim (Bool-cases (has k r.results_map)) [
    | inl q ↦ rw q (put_row-Indexed r k v (h k q) h)
    | inr q ↦ rw q (put_key-Indexed r k v h)
  ]

  merge_rows-Indexed :
      (r : Response F) (d : Dict Str (Fields F)) → Indexed r → Indexed (merge_rows r d)
  unfolding merge_rows
  merge_rows-Indexed r [] h = h
  merge_rows-Indexed r ((k, v) ∷ d) h =
      merge_rows-Indexed (merge_row r k v) d (merge_row-Indexed r k v h)

  -- After a response is merged into one whose key lists name all its rows, the key lists name every
  -- row of the result too.
  pub merge_response_into-Indexed :
      (dst src : Response F) (k : Str)
      → Indexed dst
      → has k (merge_response_into dst src).results_map ≡ true
      → is_listed (merge_response_into dst src) k ≡ true
  unfolding merge_response_into
  merge_response_into-Indexed dst src k h e = merge_rows-Indexed dst src.results_map h k e

  -- `collect_row` writes the row first, then its key.
  put_then_key :
      (r : Response F) (k : Str) (v : Fields F) → Indexed r → Indexed (add_key (put_row r k v) k)
  unfolding put_row is_listed
  put_then_key r k v h j e = elim (Bool-cases (k == j)) [
    | inl q ↦
        let p : k ≡ j = (str_eq.beq_iff k j).0 q in rw (sym p) (add_key_self (put_row r k v) k)
    | inr q ↦
        let put : has j (insert k v r.results_map) ≡ true =
          ap (λ d. has j d) (sym (add_key-map (put_row r k v) k)) ∙ e in
        add_key-keeps (put_row r k v) k j (h j (without (has-put k j v r.results_map) q put))
  ]

  contains-keys : (d : Dict Str (Fields F)) (k : Str) → contains (keys d) k ≡ has k d
  unfolding has lookup
  contains-keys [] k = refl
  contains-keys ((j, v) ∷ d) k = ground (arith, contains-keys d k)

  add_keys-keeps :
      (r : Response F) (ks : List Str) (j : Str)
      → is_listed r j ≡ true
      → is_listed (add_keys r ks) j ≡ true
  unfolding add_keys
  add_keys-keeps r [] j h = h
  add_keys-keeps r (k ∷ ks) j h = add_keys-keeps (add_key r k) ks j (add_key-keeps r k j h)

  add_keys-listed :
      (r : Response F) (ks : List Str) (j : Str)
      → contains ks j ≡ true
      → is_listed (add_keys r ks) j ≡ true
  unfolding add_keys
  add_keys-listed r [] j h = absurd (ground arith)
  add_keys-listed r (k ∷ ks) j h = elim (Bool-cases (k == j)) [
    | inl q ↦
        let e : k ≡ j = (str_eq.beq_iff k j).0 q in
        add_keys-keeps (add_key r k) ks j (rw (sym e) (add_key_self r k))
    | inr q ↦ add_keys-listed (add_key r k) ks j (without refl q h)
  ]

  add_keys-map : (r : Response F) (ks : List Str) → (add_keys r ks).results_map ≡ r.results_map
  unfolding add_keys
  add_keys-map r [] = refl
  add_keys-map r (k ∷ ks) = add_keys-map (add_key r k) ks ∙ add_key-map r k

  has-erased : (d : Dict Str (Fields F)) (k j : Str) → has j (erase k d) ≡ true → has j d ≡ true
  unfolding has
  has-erased d k j h = ground (arith, lookup-erase k j d)

  has-erase_all :
      (d : Dict Str (Fields F)) (ks : List Str) (j : Str)
      → has j (erase_all d ks) ≡ true
      → has j d ≡ true
  unfolding erase_all
  has-erase_all d [] j h = h
  has-erase_all d (k ∷ ks) j h = has-erased d k j (has-erase_all (erase k d) ks j h)

  delete_entries-Indexed :
      (r : Response F) (ks : List Str) → Indexed r → Indexed (delete_response_entries r ks)
  unfolding delete_response_entries is_listed
  delete_entries-Indexed r ks h =
      let left = erase_all r.results_map ks in
      let bare : Response F = record { results_map = left; int_keys = []; str_keys = [] } in
      let rebuilds =
        any_present r.results_map ks
        && not (is_empty_list r.int_keys && is_empty_list r.str_keys) in
      elim (Bool-cases rebuilds) [
        | inl q ↦ rw q (λ j e.
            add_keys-listed bare (keys left) j
              (contains-keys left j ∙ ap (λ d. has j d) (sym (add_keys-map bare (keys left))) ∙ e))
        | inr q ↦ rw q (λ j e. h j (has-erase_all r.results_map ks j e))
      ]

  -- How many keys the lists hold.
  abbrev pub key_count : Response F → ℕ
  key_count r = length r.int_keys + length r.str_keys

  add_key-count : (r : Response F) (k : Str) → key_count (add_key r k) ≡ suc (key_count r)
  unfolding add_key
  add_key-count r k = elim (Option-cases (atoi k)) [
    | inl a ↦ rw (add_key, a) (omega (arith, length-append r.str_keys (k ∷ [])))
    | inr (n, a) ↦ rw (add_key, a) (omega (arith, length-append r.int_keys (n ∷ [])))
  ]

  add_keys-count :
      (r : Response F) (ks : List Str) → key_count (add_keys r ks) ≡ key_count r + length ks
  unfolding add_keys
  add_keys-count r [] = omega arith
  add_keys-count r (k ∷ ks) = omega (arith, add_keys-count (add_key r k) ks, add_key-count r k)

  length-keys : (d : Dict Str (Fields F)) → length (keys d) ≡ length d
  length-keys [] = refl
  length-keys ((k, v) ∷ d) = ap suc (length-keys d)

  erase-absent : (k : Str) (d : Dict Str (Fields F)) → has k d ≡ false → erase k d ≡ d
  unfolding erase has lookup
  erase-absent k [] h = refl
  erase-absent k ((j, v) ∷ d) h = ground (arith, erase-absent k d)

  erase_all-absent :
      (d : Dict Str (Fields F)) (ks : List Str) → any_present d ks ≡ false → erase_all d ks ≡ d
  unfolding erase_all any_present
  erase_all-absent d [] h = refl
  erase_all-absent d (k ∷ ks) h =
      let absent : has k d ≡ false = ground arith in
      let later : any_present (erase k d) ks ≡ false = ground arith in
      erase_all-absent (erase k d) ks later ∙ erase-absent k d absent

  erase_all-empty : (ks : List Str) → erase_all {F = F} [] ks ≡ []
  unfolding erase_all erase
  erase_all-empty [] = refl
  erase_all-empty (k ∷ ks) = erase_all-empty ks

  -- Rows that no list names are none.
  erase_all-unnamed :
      (d : Dict Str (Fields F)) (ks : List Str) (is : List ℤ) (ss : List Str)
      → length is + length ss ≡ length d
      → (is_empty_list is && is_empty_list ss) ≡ true
      → length (erase_all d ks) ≡ length d
  erase_all-unnamed [] ks is ss c e = ap length (erase_all-empty ks)
  erase_all-unnamed (x ∷ d) ks [] [] c e = absurd (omega (arith, c))
  erase_all-unnamed (x ∷ d) ks (i ∷ is) ss c e = absurd (cc)
  erase_all-unnamed (x ∷ d) ks [] (s ∷ ss) c e = absurd (cc)

  not_rebuilt :
      (r : Response F) (ks : List Str)
      → key_count r ≡ length r.results_map
      → (any_present r.results_map ks && not (is_empty_list r.int_keys && is_empty_list r.str_keys))
        ≡ false
      → length (erase_all r.results_map ks) ≡ length r.results_map
  not_rebuilt r ks c e = elim (Bool-cases (any_present r.results_map ks)) [
    | inl p ↦ erase_all-unnamed r.results_map ks r.int_keys r.str_keys c (ground (arith, e, p))
    | inr p ↦ ap length (erase_all-absent r.results_map ks p)
  ]

  delete_entries-count :
      (r : Response F) (ks : List Str)
      → key_count r ≡ length r.results_map
      → key_count (delete_response_entries r ks) ≡ length (delete_response_entries r ks).results_map
  unfolding delete_response_entries
  delete_entries-count r ks h =
      let left = erase_all r.results_map ks in
      let bare : Response F = record { results_map = left; int_keys = []; str_keys = [] } in
      elim (Bool-cases (
        any_present r.results_map ks
        && not (is_empty_list r.int_keys && is_empty_list r.str_keys))) [
          | inl q ↦ rw q (
              omega (
                arith,
                add_keys-count bare (keys left),
                length-keys left,
                ap length (add_keys-map bare (keys left)),
              ))
          | inr q ↦ rw q (h ∙ sym (not_rebuilt r ks h q))
        ]

  -- After rows are deleted from a response whose key lists name all its rows and hold one key for
  -- each, the key lists name every row that is left and hold one key for each of these, whether they
  -- are made again or not.
  pub delete_response_entries-Indexed :
      (r : Response F) (ks : List Str) (k : Str)
      → Indexed r
      → key_count r ≡ length r.results_map
      → has k (delete_response_entries r ks).results_map ≡ true
      → (is_listed (delete_response_entries r ks) k ≡ true)
        × (key_count (delete_response_entries r ks)
            ≡ length (delete_response_entries r ks).results_map)
  delete_response_entries-Indexed r ks k h c e =
      (delete_entries-Indexed r ks h k e, delete_entries-count r ks c)

module _ {F : Type 0} (ops : FloatOps F) where
  collect_row-Indexed :
      (is_nfs : Bool) (params : QueryParams) (out : Response F) (row : Fields F)
      → params.should_skip_key_build ≡ false
      → Indexed out
      → Indexed (collect_row ops is_nfs params out row)
  unfolding collect_row
  collect_row-Indexed is_nfs params out row s h =
      let k = primary_of ops (get_field (codes "id") row) in
      elim (Bool-cases (is_empty k || has k out.results_map)) [
        | inl q ↦ rw q h
        | inr q ↦ rw (q, s) (put_then_key out k (row_dict ops is_nfs params.value_order row) h)
      ]

  collect_rows-Indexed :
      (fuel : ℕ) (is_nfs : Bool) (params : QueryParams) (out r : Response F)
      (rows : List (Fields F))
      → params.should_skip_key_build ≡ false
      → Indexed out
      → collect_rows ops fuel is_nfs params out rows ≡ some r
      → Indexed r
  unfolding collect_rows
  collect_rows-Indexed fuel is_nfs params out r [] s h e = rw (sym (some-injective out r e)) h
  collect_rows-Indexed zero is_nfs params out r (row ∷ rows) s h e = absurd (ground arith)
  collect_rows-Indexed (suc fuel) is_nfs params out r (row ∷ rows) s h e =
      collect_rows-Indexed fuel is_nfs params (collect_row ops is_nfs params out row) r
        (rows ++ children_of row) s (collect_row-Indexed is_nfs params out row s h) e

  -- Unless the key lists are asked to be left out, those of the response name every row of its map.
  pub collect_response-Indexed :
      (is_nfs : Bool) (params : QueryParams) (rows : List (Fields F)) (r : Response F) (k : Str)
      → params.should_skip_key_build ≡ false
      → collect_response ops is_nfs params rows ≡ some r
      → has k r.results_map ≡ true
      → is_listed r k ≡ true
  unfolding collect_response has lookup
  collect_response-Indexed is_nfs params rows r k s e h =
      collect_rows-Indexed _ is_nfs params no_rows r rows s (λ j a. absurd (ground arith)) e k h
