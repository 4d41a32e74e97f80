-- ===== src/Query/Denotation.antt =====
-- cmd/util_common.go: what the filter of `makeQueryFilter` selects, given what the server documents
-- of the operators "OR" and "in".
use truenas_incus_ctl.Base.{
  ◌≡◌, refl, sym, ap, ◌∙◌, Bool, true, false, ◌&&◌, ◌||◌, List, [], ◌∷◌, ◌++◌, map, none, Str,
  str_eq, ◌==◌, codes, if◌then◌else◌, contains, eq_refl, arith, Bool-cases, inl, inr,
}
use truenas_incus_ctl.Base.Dict.{lookup, has}
use truenas_incus_ctl.Json.{Json, str, arr, nil, cons}
use truenas_incus_ctl.Query.Filter.{
  to_items, or_loop, construct_or_chain, condition, make_recursive_paths_filter_list, Groups,
  or_empty, group, empty_entry, gives, entry_value, make_individual_filter, filters_of, no_groups,
  filter_of, make_query_filter, QueryParams,
}
use truenas_incus_ctl.Query.Groups.{
  any, all, any-same, or_cong, or_assoc, or_right, all_one, is_nil, is_none, accepted, total,
  total-group, group-Filled, group-first,
}

-- What the server documents of its query filters: `holds` is whether an object passes a condition,
-- and `equals` whether the object's property has a value.
pub record FilterLaws (F : Type 0) (holds : Json F → Bool) (equals : Str → Json F → Bool)
    : Type 0 where
  pub or_law :
      (a b : Json F)
      → holds (arr (cons (str (codes "OR")) (cons (arr (cons a (cons b nil))) nil)))
        ≡ (holds a || holds b)
  pub in_law :
      (key : Str) (values : List (Json F))
      → holds (condition key (codes "in") (arr (to_items values))) ≡ any (equals key) values

module _ {F : Type 0} (unmarshal : Str → Json F) (holds : Json F → Bool)
    (equals : Str → Json F → Bool) (laws : FilterLaws F holds equals) where
  or_loop-holds :
      (top : Json F) (fs : List (Json F)) → holds (or_loop top fs) ≡ (holds top || any holds fs)
  unfolding or_loop
  or_loop-holds top [] = ground arith
  or_loop-holds top (f ∷ fs) =
      let next = arr (cons (str (codes "OR")) (cons (arr (cons top (cons f nil))) nil)) in
      or_loop-holds next fs ∙ rw (laws.or_law top f) (or_assoc (holds top) (holds f) (any holds fs))

  chain-holds :
      (f : Json F) (fs : List (Json F)) → holds (construct_or_chain (f ∷ fs)) ≡ any holds (f ∷ fs)
  unfolding construct_or_chain
  chain-holds f fs = or_loop-holds f fs

  -- The object of a path, and those below it.
  abbrev pub below : Str → Str → Bool
  below t e =
      holds (condition t (codes "=") (str e))
      || holds (condition t (codes "^") (str (e ++ codes "/")))

  -- The objects that one entry asks for.
  abbrev pub accepts_entry : Bool → Str → Str → Bool
  accepts_entry recurse t e =
      if recurse && (t == codes "dataset") then below t e else equals t (entry_value unmarshal e)

  any-map :
      (t : Str) (es : List Str)
      → any (equals t) (map (entry_value unmarshal) es)
        ≡ any (λ e. equals t (entry_value unmarshal e)) es
  any-map t [] = refl
  any-map t (e ∷ es) = or_cong (equals t (entry_value unmarshal e)) (any-map t es)

  any-paths :
      (t : Str) (es : List Str)
      → any holds (make_recursive_paths_filter_list t es) ≡ any (below t) es
  unfolding make_recursive_paths_filter_list
  any-paths t [] = refl
  any-paths t (e ∷ es) =
      or_cong (holds (condition t (codes "=") (str e)))
        (or_cong (holds (condition t (codes "^") (str (e ++ codes "/")))) (any-paths t es))
      ∙ sym (
          or_assoc (holds (condition t (codes "=") (str e)))
            (holds (condition t (codes "^") (str (e ++ codes "/")))) (any (below t) es))

  chain-paths :
      (t e : Str) (es : List Str)
      → holds (construct_or_chain (make_recursive_paths_filter_list t (e ∷ es)))
        ≡ any holds (make_recursive_paths_filter_list t (e ∷ es))
  unfolding make_recursive_paths_filter_list
  chain-paths t e es = chain-holds _ _

  individual-holds :
      (recurse : Bool) (t e : Str) (es : List Str)
      → holds (make_individual_filter unmarshal t (e ∷ es) recurse)
        ≡ any (accepts_entry recurse t) (e ∷ es)
  unfolding make_individual_filter
  individual-holds recurse t e es = elim (Bool-cases (recurse && (t == codes "dataset"))) [
    | inl h ↦
        rw
          (ap
            (λ b.
              if b
              then construct_or_chain (make_recursive_paths_filter_list t (e ∷ es))
              else condition t (codes "in") (arr (to_items (map (entry_value unmarshal) (e ∷ es)))))
            h)
          (chain-paths t e es
            ∙ any-paths t (e ∷ es)
            ∙ any-same {p = below t} {q = accepts_entry recurse t} (λ x. rw h refl) (e ∷ es))
    | inr h ↦
        rw
          (ap
            (λ b.
              if b
              then construct_or_chain (make_recursive_paths_filter_list t (e ∷ es))
              else condition t (codes "in") (arr (to_items (map (entry_value unmarshal) (e ∷ es)))))
            h)
          (laws.in_law t (map (entry_value unmarshal) (e ∷ es))
            ∙ any-map t (e ∷ es)
            ∙ any-same {p = λ x. equals t (entry_value unmarshal x)} {q = accepts_entry recurse t}
                (λ x. rw h refl) (e ∷ es))
  ]

  individual-some :
      (recurse : Bool) (t : Str) (es : List Str)
      → is_nil es ≡ false
      → holds (make_individual_filter unmarshal t es recurse) ≡ any (accepts_entry recurse t) es
  individual-some recurse t [] n = absurd (ground arith)
  individual-some recurse t (e ∷ es) n = individual-holds recurse t e es

  filters-hold :
      (recurse : Bool) (g : Groups) (ts : List Str)
      → ((t : Str) → contains ts t ≡ true → is_nil (or_empty (lookup t g.entries_of)) ≡ false)
      → any holds (filters_of unmarshal recurse g ts) ≡ accepted (accepts_entry recurse) g ts
  unfolding filters_of
  filters-hold recurse g [] f = refl
  filters-hold recurse g (t ∷ ts) f =
      let here =
        individual-some recurse t (or_empty (lookup t g.entries_of)) (f t (rw (eq_refl t) refl)) in
      let rest = filters-hold recurse g ts (λ u c. f u (or_right (t == u) c)) in
      rw (here, rest) refl

  grouped-holds :
      (recurse : Bool) (p q : Str × Str) (ps : List (Str × Str))
      → any holds (
          filters_of unmarshal recurse
            (group no_groups (p ∷ q ∷ ps))
            (group no_groups (p ∷ q ∷ ps)).uniq_types)
        ≡ any (λ p. accepts_entry recurse p.1 p.0) (p ∷ q ∷ ps)
  unfolding total has
  grouped-holds recurse p q ps =
      filters-hold recurse (group no_groups (p ∷ q ∷ ps)) (group no_groups (p ∷ q ∷ ps)).uniq_types
        (group-Filled no_groups (p ∷ q ∷ ps) (λ t c. absurd (ground arith)))
      ∙ total-group (accepts_entry recurse) no_groups (p ∷ q ∷ ps) (λ t. refl)

  some-chain-holds :
      (recurse : Bool) (g : Groups) (t : Str) (ts : List Str)
      → contains ts t ≡ true
      → holds (construct_or_chain (filters_of unmarshal recurse g ts))
        ≡ any holds (filters_of unmarshal recurse g ts)
  unfolding filters_of
  some-chain-holds recurse g t [] c = absurd (ground arith)
  some-chain-holds recurse g t (u ∷ ts) c =
      chain-holds (make_individual_filter unmarshal u (or_empty (lookup u g.entries_of)) recurse)
        (filters_of unmarshal recurse g ts)

  make_query_filter-gives :
      (ps : List (Str × Str)) (params : QueryParams)
      → empty_entry ps ≡ none
      → make_query_filter unmarshal ps params ≡ gives (filter_of unmarshal params.should_recurse ps)
  unfolding make_query_filter
  make_query_filter-gives ps params h = ground arith

  -- Given what the server documents of "OR" and "in", a query whose entries are not empty has a
  -- filter, and an object passes all its conditions exactly if one of the entries asks for it,
  -- under the entry's own type: grouping the entries by type and chaining the groups by OR loses
  -- and adds nothing. Without entries everything passes.
  pub make_query_filter-denotes :
      (params : QueryParams) (ps : List (Str × Str))
      → empty_entry ps ≡ none
      → (fs : List (Json F)) × (make_query_filter unmarshal ps params ≡ gives fs)
        × (all holds fs ≡ (is_none ps || any (λ p. accepts_entry params.should_recurse p.1 p.0) ps))
  unfolding filter_of has
  make_query_filter-denotes params [] h =
      (filter_of unmarshal params.should_recurse [], make_query_filter-gives [] params h, refl)
  make_query_filter-denotes params ((e, t) ∷ []) h =
      let r = params.should_recurse in
      (
        filter_of unmarshal r ((e, t) ∷ []),
        make_query_filter-gives ((e, t) ∷ []) params h,
        all_one (individual-holds r t e []),
      )
  make_query_filter-denotes params (p ∷ q ∷ ps) h =
      let r = params.should_recurse in
      let g = group no_groups (p ∷ q ∷ ps) in
      let listed = group-first no_groups p.0 p.1 (q ∷ ps) (λ t. refl) in
      (
        filter_of unmarshal r (p ∷ q ∷ ps),
        make_query_filter-gives (p ∷ q ∷ ps) params h,
        all_one (some-chain-holds r g p.1 g.uniq_types listed ∙ grouped-holds r p q ps),
      )
