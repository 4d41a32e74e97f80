-- ===== src/Command/Crud/Entries.antt =====
-- cmd/iscsi_crud.go: what the filter of iscsiCrudQuery selects.
use truenas_incus_ctl.Base.{
  ◌≡◌, ◌∙◌, refl, sym, ap, Bool, false, ◌||◌, List, [], ◌∷◌, ◌++◌, map, none, Str, str_eq, length,
  length-append, length-map, is_empty, All, arith,
}
use truenas_incus_ctl.Json.{Json}
use truenas_incus_ctl.Names.Hosts.{ip_port_to_json_string}
use truenas_incus_ctl.Query.Filter.{QueryParams, make_query_filter, gives, empty_entry}
use truenas_incus_ctl.Query.Groups.{any, all, is_none, or_cong, or_assoc}
use truenas_incus_ctl.Query.Denotation.{FilterLaws, accepts_entry, make_query_filter-denotes}
use truenas_incus_ctl.Query.Request.{paired}
use truenas_incus_ctl.Command.Steps.{Outside}
use truenas_incus_ctl.Command.Crud.{identifiers_of, entry_for, query_values, query_attrs}

module _ {S F : Type 0} (w : Outside S F) (category : Str) where
  -- The entries of one attribute, with the attribute.
  abbrev entries_of : Str → List Str → List (Str × Str)
  entries_of attr [] = []
  entries_of attr (v ∷ vs) = (entry_for w category attr v, attr) ∷ entries_of attr vs

  abbrev all_entries : List Str → List Str → List (Str × Str)
  all_entries [] values = []
  all_entries (attr ∷ attrs) values = entries_of attr values ++ all_entries attrs values

  paired-entries :
      (attr : Str) (values es ts : List Str)
      → paired (map (entry_for w category attr) values ++ es) (map (λ _. attr) values ++ ts)
        ≡ entries_of attr values ++ paired es ts
  paired-entries attr [] es ts = refl
  paired-entries attr (v ∷ values) es ts =
      ap (λ (l : List (Str × Str)). (entry_for w category attr v, attr) ∷ l)
        (paired-entries attr values es ts)

  paired-all :
      (attrs values : List Str)
      → paired (query_values w category attrs values) (query_attrs w category attrs values)
        ≡ all_entries attrs values
  unfolding query_values query_attrs
  paired-all [] values = refl
  paired-all (attr ∷ attrs) values =
      paired-entries attr values (query_values w category attrs values)
        (query_attrs w category attrs values)
      ∙ ap (λ (l : List (Str × Str)). entries_of attr values ++ l) (paired-all attrs values)

  -- The two lists are of one length, so that QueryApi does not refuse them.
  length-query_attrs :
      (attrs values : List Str)
      → length (query_attrs w category attrs values) ≡ length (query_values w category attrs values)
  unfolding query_values query_attrs
  length-query_attrs [] values = refl
  length-query_attrs (attr ∷ attrs) values = omega (
    arith,
    length-append (map (λ _. attr) values) (query_attrs w category attrs values),
    length-append (map (entry_for w category attr) values) (query_values w category attrs values),
    length-map values (λ (_ : Str). attr),
    length-map values (entry_for w category attr),
    length-query_attrs attrs values,
  )

  -- A value that is not empty gives an entry that is not empty.
  entry_for-full :
      (attr v : Str) → is_empty v ≡ false → is_empty (entry_for w category attr v) ≡ false
  unfolding entry_for ip_port_to_json_string
  entry_for-full attr [] h = absurd (cc)
  entry_for-full attr (c ∷ v) h = ground arith

  entries_of-full :
      (attr : Str) (values : List Str) (rest : List (Str × Str))
      → All (λ v. is_empty v ≡ false) values
      → empty_entry (entries_of attr values ++ rest) ≡ empty_entry rest
  unfolding empty_entry
  entries_of-full attr [] rest h = refl
  entries_of-full attr (v ∷ vs) rest (full, h) =
      rw (entry_for-full attr v full) (entries_of-full attr vs rest h)

  all_entries-full :
      (attrs values : List Str)
      → All (λ v. is_empty v ≡ false) values
      → empty_entry (all_entries attrs values) ≡ none
  unfolding empty_entry
  all_entries-full [] values h = refl
  all_entries-full (attr ∷ attrs) values h =
      entries_of-full attr values (all_entries attrs values) h ∙ all_entries-full attrs values h

  all_entries-some :
      (attrs : List Str) (v : Str) (vs : List Str)
      → is_none attrs ≡ false
      → is_none (all_entries attrs (v ∷ vs)) ≡ false
  all_entries-some [] v vs h = h
  all_entries-some (attr ∷ attrs) v vs h = refl

  module _ (holds : Json F → Bool) (equals : Str → Json F → Bool) (laws : FilterLaws F holds equals)
      (extras : QueryParams) where
    abbrev asks : Str × Str → Bool
    asks p = accepts_entry w.unmarshal_value holds equals laws extras.should_recurse p.1 p.0

    -- One of the values is asked for under the attribute.
    abbrev pub asks_for : List Str → Str → Bool
    asks_for values attr =
        any
          (λ v.
            accepts_entry w.unmarshal_value holds equals laws extras.should_recurse attr
              (entry_for w category attr v))
          values

    any-entries :
        (attr : Str) (values : List Str) (rest : List (Str × Str))
        → any asks (entries_of attr values ++ rest) ≡ (asks_for values attr || any asks rest)
    any-entries attr [] rest = refl
    any-entries attr (v ∷ vs) rest =
        or_cong (asks (entry_for w category attr v, attr)) (any-entries attr vs rest)
        ∙ sym
            (or_assoc (asks (entry_for w category attr v, attr)) (asks_for vs attr) (any asks rest))

    any-all_entries :
        (attrs values : List Str)
        → any asks (all_entries attrs values) ≡ any (asks_for values) attrs
    any-all_entries [] values = refl
    any-all_entries (attr ∷ attrs) values =
        any-entries attr values (all_entries attrs values)
        ∙ or_cong (asks_for values attr) (any-all_entries attrs values)

    -- Given what the server documents of its filters, and values that are not empty, iscsiCrudQuery
    -- sends as many attributes as values, its filter is not refused, and an object passes exactly if
    -- one of the category's identifying attributes has one of the values, in the form of that
    -- attribute.
    pub crud_query-denotes :
        (v : Str) (vs : List Str)
        → is_none (identifiers_of category) ≡ false
        → All (λ v. is_empty v ≡ false) (v ∷ vs)
        → let es = query_values w category (identifiers_of category) (v ∷ vs) in
          let ts = query_attrs w category (identifiers_of category) (v ∷ vs) in
          (length ts ≡ length es)
          × ((fs : List (Json F)) × (make_query_filter w.unmarshal_value (paired es ts) extras
                ≡ gives fs)
              × (all holds fs ≡ any (asks_for (v ∷ vs)) (identifiers_of category)))
    crud_query-denotes v vs some_attr full =
        let attrs = identifiers_of category in
        let (fs, given, passes) =
          make_query_filter-denotes w.unmarshal_value holds equals laws extras
            (all_entries attrs (v ∷ vs)) (all_entries-full attrs (v ∷ vs) full) in
        (
          length-query_attrs attrs (v ∷ vs),
          (
            fs,
            rw (paired-all attrs (v ∷ vs)) given,
            passes
                ∙ ap (λ b. b || any asks (all_entries attrs (v ∷ vs)))
                    (all_entries-some attrs v vs some_attr)
                ∙ any-all_entries attrs (v ∷ vs),
          ),
        )
