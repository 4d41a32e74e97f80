-- ===== src/Command/Create/Pairs.antt =====
-- cmd/iscsi.go, createIscsi: which targets are joined with which extents.
use truenas_incus_ctl.Base.{
  ◌≡◌, ◌≢◌, ◌⊎◌, inl, inr, refl, sym, ◌∙◌, false, List, [], ◌∷◌, Option, none, some, Str, str_eq,
  codes, is_empty, All, Any, Bool-cases, arith,
}
use truenas_incus_ctl.Base.Dict.{
  Dict, lookup, insert, erase, lookup-insert_self, lookup-insert_cases, lookup-insert,
  lookup-erase_ne, lookup-erase_kept, lookup-erase_self,
}
use truenas_incus_ctl.Json.{Fields, FloatOps}
use truenas_incus_ctl.Command.Create.Plans.{
  alias_of, zvol, pair_key, pair_object, add_pair, add_target, pairs_of, drop_known,
}

module _ {F : Type 0} (ops : FloatOps F) (extents : Dict Str (Fields F)) where
  -- The target has an alias, its volume has the extent, and the key is that of both ids.
  abbrev pub Joins : Str → Fields F → Fields F → Type 0
  Joins k target extent =
      (is_empty (alias_of target) ≡ false)
      × (lookup (zvol (alias_of target)) extents ≡ some extent)
      × (pair_key ops (codes "id") (codes "id") target extent ≡ k)

  -- The pair is that of the target and its extent.
  abbrev pub PairOf : Str → Fields F → Fields F → Type 0
  PairOf k te target =
      (extent : Fields F) × Joins k target extent × (te ≡ pair_object ops target extent)

  abbrev pub HasExtent : Str → Fields F → Type 0
  HasExtent k target = (extent : Fields F) × Joins k target extent

  -- No row says that the server has the pair.
  abbrev pub Unknown : Str → Dict Str (Fields F) → Type 0
  Unknown k rows = All (λ r. pair_key ops (codes "target") (codes "extent") r.1 r.1 ≢ k) rows

  add_pair_sound :
      (k : Str) (te target : Fields F) (d : Dict Str (Fields F)) (o : Option (Fields F))
      → is_empty (alias_of target) ≡ false
      → lookup (zvol (alias_of target)) extents ≡ o
      → lookup k (add_pair ops target o d) ≡ some te
      → PairOf k te target ⊎ (lookup k d ≡ some te)
  unfolding add_pair
  add_pair_sound k te target d none a e h = inr h
  add_pair_sound k te target d (some extent) a e h =
      elim (lookup-insert_cases (pair_key ops (codes "id") (codes "id") target extent) k _ te d h) [
        | inl (key, te_is) ↦ inl (extent, (a, e, key), sym te_is)
        | inr old ↦ inr old
      ]

  add_target_sound :
      (k : Str) (te target : Fields F) (d : Dict Str (Fields F))
      → lookup k (add_target ops extents target d) ≡ some te
      → PairOf k te target ⊎ (lookup k d ≡ some te)
  unfolding add_target
  add_target_sound k te target d h = elim (Bool-cases (is_empty (alias_of target))) [
    | inl e ↦ inr (rw e at h)
    | inr e ↦ add_pair_sound k te target d _ e refl (rw e at h)
  ]

  pairs_of_sound :
      (k : Str) (te : Fields F) (targets : List (Fields F)) (d : Dict Str (Fields F))
      → lookup k (pairs_of ops extents targets d) ≡ some te
      → Any (PairOf k te) targets ⊎ (lookup k d ≡ some te)
  unfolding pairs_of
  pairs_of_sound k te [] d h = inr h
  pairs_of_sound k te (target ∷ targets) d h = elim (pairs_of_sound k te targets _ h) [
    | inl later ↦ inl (inr later)
    | inr now ↦ elim (add_target_sound k te target d now) [
      | inl pair ↦ inl (inl pair)
      | inr old ↦ inr old
    ]
  ]

  -- An entry that is there stays, perhaps with another value.
  insert-kept :
      (j k : Str) (v te : Fields F) (d : Dict Str (Fields F))
      → lookup k d ≡ some te
      → (te' : Fields F) × (lookup k (insert j v d) ≡ some te')
  insert-kept j k v te d h = elim (Bool-cases (str_eq.beq j k)) [
    | inl e ↦ (v, ground (arith, lookup-insert j k v d))
    | inr e ↦ (te, ground (arith, lookup-insert j k v d))
  ]

  add_pair-kept :
      (k : Str) (te target : Fields F) (d : Dict Str (Fields F)) (o : Option (Fields F))
      → lookup k d ≡ some te
      → (te' : Fields F) × (lookup k (add_pair ops target o d) ≡ some te')
  unfolding add_pair
  add_pair-kept k te target d none h = (te, h)
  add_pair-kept k te target d (some extent) h = insert-kept _ k _ te d h

  add_target-kept :
      (k : Str) (te target : Fields F) (d : Dict Str (Fields F))
      → lookup k d ≡ some te
      → (te' : Fields F) × (lookup k (add_target ops extents target d) ≡ some te')
  unfolding add_target
  add_target-kept k te target d h = elim (Bool-cases (is_empty (alias_of target))) [
    | inl e ↦ (te, rw e h)
    | inr e ↦ rw e (add_pair-kept k te target d _ h)
  ]

  add_target-adds :
      (k : Str) (target : Fields F) (d : Dict Str (Fields F))
      → HasExtent k target
      → (te : Fields F) × (lookup k (add_target ops extents target d) ≡ some te)
  unfolding add_target add_pair
  add_target-adds k target d (extent, (a, e, key)) =
      (pair_object ops target extent, rw (a, e, sym key) (lookup-insert_self _ _ d))

  pairs_of-kept :
      (k : Str) (te : Fields F) (targets : List (Fields F)) (d : Dict Str (Fields F))
      → lookup k d ≡ some te
      → (te' : Fields F) × (lookup k (pairs_of ops extents targets d) ≡ some te')
  unfolding pairs_of
  pairs_of-kept k te [] d h = (te, h)
  pairs_of-kept k te (target ∷ targets) d h =
      let (te1, h1) = add_target-kept k te target d h in pairs_of-kept k te1 targets _ h1

  pairs_of_complete :
      (k : Str) (targets : List (Fields F)) (d : Dict Str (Fields F))
      → Any (HasExtent k) targets
      → (te : Fields F) × (lookup k (pairs_of ops extents targets d) ≡ some te)
  unfolding pairs_of
  pairs_of_complete k [] d h = elim h [ ]
  pairs_of_complete k (target ∷ targets) d (inl h) =
      let (te, e) = add_target-adds k target d h in pairs_of-kept k te targets _ e
  pairs_of_complete k (target ∷ targets) d (inr h) = pairs_of_complete k targets _ h

  drop_known_sound :
      (k : Str) (te : Fields F) (rows d : Dict Str (Fields F))
      → lookup k (drop_known ops rows d) ≡ some te
      → Unknown k rows × (lookup k d ≡ some te)
  unfolding drop_known
  drop_known_sound k te [] d h = (tt, h)
  drop_known_sound k te ((i, row) ∷ rows) d h =
      let key = pair_key ops (codes "target") (codes "extent") row row in
      let (unknown, e) = drop_known_sound k te rows (erase key d) h in
      (
        (λ same. absurd (cc (rw same at (lookup-erase_self key d), e)), unknown),
        lookup-erase_kept key k te d e,
      )

  drop_known-kept :
      (k : Str) (te : Fields F) (rows d : Dict Str (Fields F))
      → Unknown k rows
      → lookup k d ≡ some te
      → lookup k (drop_known ops rows d) ≡ some te
  unfolding drop_known
  drop_known-kept k te [] d u h = h
  drop_known-kept k te ((i, row) ∷ rows) d (ne, u) h =
      drop_known-kept k te rows _ u (lookup-erase_ne _ k d ne ∙ h)

  nothing_found : (k : Str) (te : Fields F) → lookup k [] ≢ some te
  unfolding lookup
  nothing_found k te h = cc

  -- A pair is created for a key exactly if a target with an alias has an extent under its volume,
  -- with that key, and no row of the server has it; the object is then that of such a target.
  pub pairs_created :
      (targets : List (Fields F)) (rows : Dict Str (Fields F)) (k : Str)
      → let created = drop_known ops rows (pairs_of ops extents targets []) in
        ((te : Fields F) → lookup k created ≡ some te → Unknown k rows × Any (PairOf k te) targets)
        × (Unknown k rows
            → Any (HasExtent k) targets
            → (te : Fields F) × (lookup k created ≡ some te))
  pairs_created targets rows k = (
    λ te h.
        let (unknown, e) = drop_known_sound k te rows _ h in
        (
          unknown,
          elim (pairs_of_sound k te targets [] e) [
            | inl p ↦ p
            | inr bad ↦ absurd (nothing_found k te bad)
          ],
        ),
    λ unknown h.
        let (te, e) = pairs_of_complete k targets [] h in
        (te, drop_known-kept k te rows _ unknown e),
  )
