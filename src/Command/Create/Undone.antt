-- ===== src/Command/Create/Undone.antt =====
-- cmd/iscsi.go, createIscsi: what the deferred undoIscsiCreateList deletes.
use mathlib.Core.Path.{subst}
use truenas_incus_ctl.Base.{
  ◌≡◌, ◌∙◌, refl, sym, ap, List, [], ◌∷◌, Option, none, some, Str, All, arith,
}
use truenas_incus_ctl.Base.Dict.{Dict}
use truenas_incus_ctl.Json.{Json}
use truenas_incus_ctl.Api.{Run, returns, panics}
use truenas_incus_ctl.Query.Collect.{Response}
use truenas_incus_ctl.Iscsi.TargetNames.{get_iscsi_target_prefix_or_exit}
use truenas_incus_ctl.Command.Steps.{
  Outside, Outcome, ends, errs, crashes, exits, spins, M, pure, and_then, ◌>>=◌,
}
use truenas_incus_ctl.Command.Keeping.{Kept, Keeps, >>=-Keeps}
use truenas_incus_ctl.Command.Create.{
  Change, Work, lift, make_targets, make_extents, join_extents, find_targets, create_missing,
  create_targets, create_body, ids_of, delete_all, undo_found, undo_change, create_prefixed,
  undo_iscsi_create_list, with_undo, create_iscsi,
}
use truenas_incus_ctl.Command.Create.Plans.{names_for, ids_by_alias}
use truenas_incus_ctl.Command.Create.Own.{Harmless, IsOwn, OwnWork, create_body-Keeps}

module _ {S F : Type 0} where
  -- An end without an error leaves no changes to undo.
  abbrev Clear : {A : Type 0} → Work S F × Outcome A → Type 0
  Clear {A} r = (a : A) → r.1 ≡ ends a → r.0.1 ≡ []

  and_then-Clear :
      {A B : Type 0} (r : Work S F × Outcome A) (f : A → M (Work S F) B)
      → ((a : A) (st : Work S F) → Clear (f a st))
      → Clear (and_then r f)
  and_then-Clear (st, ends a) f h b eq = h a st b eq
  and_then-Clear (st, errs e) f h b eq = absurd (cc)
  and_then-Clear (st, crashes) f h b eq = absurd (cc)
  and_then-Clear (st, exits) f h b eq = absurd (cc)
  and_then-Clear (st, spins) f h b eq = absurd (cc)

  record Clears {A : Type 0} (m : M (Work S F) A) : Type 0 where
    clear : (st : Work S F) → Clear (m st)

  >>=-Clears :
      {A B : Type 0} (m : M (Work S F) A) (f : A → M (Work S F) B)
      → ((a : A) → Clears (f a))
      → Clears (m >>= f)
  >>=-Clears m f h = record { clear = λ st. and_then-Clear (m st) f (λ a. (h a).clear) }

  -- The same where there are no changes at first and the first part makes none.
  record ClearsFirst {A : Type 0} (m : M (Work S F) A) : Type 0 where
    clear : (s : S) → Clear (m (s, []))

  record Idle {A : Type 0} (m : M (Work S F) A) : Type 0 where
    idle : (st : Work S F) → (m st).0.1 ≡ st.1

  and_then-Clear_first :
      {A B : Type 0} (r : Work S F × Outcome A) (f : A → M (Work S F) B)
      → r.0.1 ≡ []
      → ((a : A) (s : S) → Clear (f a (s, [])))
      → Clear (and_then r f)
  and_then-Clear_first ((s, cs), ends a) f e h b eq =
      subst (λ cs'. Clear (f a (s, cs'))) (sym e) (h a s) b eq
  and_then-Clear_first (st, errs x) f e h b eq = absurd (cc)
  and_then-Clear_first (st, crashes) f e h b eq = absurd (cc)
  and_then-Clear_first (st, exits) f e h b eq = absurd (cc)
  and_then-Clear_first (st, spins) f e h b eq = absurd (cc)

  >>=-ClearsFirst :
      {A B : Type 0} (m : M (Work S F) A) (f : A → M (Work S F) B)
      → Idle m
      → ((a : A) → ClearsFirst (f a))
      → ClearsFirst (m >>= f)
  >>=-ClearsFirst m f i h = record {
    clear = λ s. and_then-Clear_first (m (s, [])) f (i.idle (s, [])) (λ a. (h a).clear);
  }

  pure-Idle : {A : Type 0} (out : Outcome A) → Idle (pure out)
  pure-Idle out = record { idle = λ st. refl }

  lift-Idle : {A : Type 0} (m : M S A) → Idle (lift m)
  lift-Idle m = record { idle = λ st. refl }

  module _ (w : Outside S F) where
    create_missing-Clears :
        (usage : Str) (flags : Dict Str Str) (args : List Str) (name_of : Dict Str Str)
        (found : Response F) (plan : List (Json F) × List (Json F))
        → Clears (create_missing w usage flags args name_of found plan)
    unfolding create_missing
    create_missing-Clears usage flags args name_of found plan =
        >>=-Clears (make_targets w found plan) _ λ targets.
          >>=-Clears (make_extents w flags args name_of) _ λ extents.
            >>=-Clears (lift (join_extents w targets extents)) _
              λ joined. record { clear = λ st lines eq. refl }

    create_targets-ClearsFirst :
        (usage : Str) (flags : Dict Str Str) (args : List Str) (name_of : Dict Str Str)
        (found : Response F) (plan : List (Json F) × List (Json F))
        → ClearsFirst (create_targets w usage flags args name_of found plan)
    unfolding create_targets
    create_targets-ClearsFirst usage flags args name_of found ([], []) = record {
      clear = λ s lines eq. refl;
    }
    create_targets-ClearsFirst usage flags args name_of found (u ∷ us, cs) = record {
      clear =
          λ s. (create_missing-Clears usage flags args name_of found (u ∷ us, cs)).clear (s, []);
    }
    create_targets-ClearsFirst usage flags args name_of found ([], c ∷ cs) = record {
      clear =
          λ s. (create_missing-Clears usage flags args name_of found ([], c ∷ cs)).clear (s, []);
    }

    create_body-ClearsFirst :
        (usage : Str) (flags : Dict Str Str) (prefix : Str) (args : List Str)
        → ClearsFirst (create_body w usage flags prefix args)
    unfolding create_body
    create_body-ClearsFirst usage flags prefix args =
        >>=-ClearsFirst (pure (names_for w.sha256 w.sha512 prefix args ([], []))) _ (pure-Idle _)
          λ names. >>=-ClearsFirst (lift (find_targets w flags args)) _ (lift-Idle _) λ found.
            >>=-ClearsFirst (pure (ids_by_alias found.0.results_map [])) _ (pure-Idle _)
              λ ids. create_targets-ClearsFirst usage flags args names.1 found.0 _

    and_then-eq_ends :
        {A B : Type 0} (r : S × Outcome A) (out : Outcome B) (b : B)
        → (and_then r (λ _. pure out)).1 ≡ ends b
        → out ≡ ends b
    and_then-eq_ends (s, ends a) out b e = e
    and_then-eq_ends (s, errs x) out b e = absurd (cc)
    and_then-eq_ends (s, crashes) out b e = absurd (cc)
    and_then-eq_ends (s, exits) out b e = absurd (cc)
    and_then-eq_ends (s, spins) out b e = absurd (cc)

    with_undo-state :
        (r : Work S F × Outcome (List Str))
        → (with_undo w r).0 ≡ (undo_iscsi_create_list w r.0.1 r.0.0).0
    unfolding with_undo
    with_undo-state ((s, cs), out) = ground arith

    with_undo-Clear :
        (r : Work S F × Outcome (List Str)) (lines : List Str)
        → Clear r
        → (with_undo w r).1 ≡ ends lines
        → (with_undo w r).0 ≡ r.0.0
    unfolding with_undo undo_iscsi_create_list
    with_undo-Clear ((s, cs), out) lines clear e =
        let none_left : cs ≡ [] =
          clear lines (and_then-eq_ends (undo_iscsi_create_list w cs s) out lines e) in
        with_undo-state ((s, cs), out)
        ∙ ap (λ (l : List (Change F)). (undo_iscsi_create_list w l s).0) none_left

    module _ {Inv : S → Type 0} (kept : Kept w.api Harmless Inv) where
      body-OwnWork :
          (usage : Str) (flags : Dict Str Str) (prefix : Str) (args : List Str) (s : S)
          → Inv s
          → OwnWork w kept (create_body w usage flags prefix args (s, [])).0
      body-OwnWork usage flags prefix args s i =
          (create_body-Keeps w kept usage flags prefix args).preserves (s, []) (i, tt)

      prefixed-kept :
          (usage : Str) (flags : Dict Str Str) (args : List Str) (prefix : Option Str) (s : S)
          (lines : List Str)
          → Inv s
          → (create_prefixed w usage flags args prefix s).1 ≡ ends lines
          → Inv (create_prefixed w usage flags args prefix s).0
      unfolding create_prefixed
      prefixed-kept usage flags args none s lines i e = i
      prefixed-kept usage flags args (some prefix) s lines i e =
          subst Inv
            (sym (
              with_undo-Clear (create_body w usage flags prefix args (s, [])) lines
                ((create_body-ClearsFirst usage flags prefix args).clear s) e))
            (body-OwnWork usage flags prefix args s i).0

      -- What every call that deletes nothing keeps is kept by a createIscsi that ends without an
      -- error.
      pub create_deletes_nothing :
          (usage : Str) (flags : Dict Str Str) (args : List Str) (s : S) (lines : List Str)
          → Inv s
          → (create_iscsi w usage flags args s).1 ≡ ends lines
          → Inv (create_iscsi w usage flags args s).0
      unfolding create_iscsi
      create_deletes_nothing usage flags args s lines =
          prefixed-kept usage flags args (get_iscsi_target_prefix_or_exit flags) s lines

      -- The property stands the deletion of what the answer to a creation of targets or extents lists,
      -- one that was sent where the property held.
      abbrev pub KeptByUndo : Type 0
      KeptByUndo =
          (s : S) (c : Change F) (ids : List (Json F))
          → IsOwn w Inv c
          → ids_of c.result_list ≡ returns ids
          → Inv s
          → Inv (delete_all w c.endpoint ids s)

      module _ (own : KeptByUndo) where
        undo_found-Preserves :
            (c : Change F) (r : Run (List (Json F))) (s : S)
            → ids_of c.result_list ≡ r
            → IsOwn w Inv c
            → Inv s
            → Inv (undo_found w c.endpoint r s).0
        unfolding undo_found
        undo_found-Preserves c panics s e o i = i
        undo_found-Preserves c (returns ids) s e o i = own s c ids o e i

        undo_change-Preserves :
            (c : Change F) (s : S) → IsOwn w Inv c → Inv s → Inv (undo_change w c s).0
        unfolding undo_change
        undo_change-Preserves c s o i =
            ground (arith, undo_found-Preserves c (ids_of c.result_list) s refl o i)

        undo_list-Keeps :
            (cs : List (Change F)) → All (IsOwn w Inv) cs → Keeps Inv (undo_iscsi_create_list w cs)
        unfolding undo_iscsi_create_list
        undo_list-Keeps [] o = record { preserves = λ s i. i }
        undo_list-Keeps (c ∷ cs) (o, os) =
            >>=-Keeps Inv (undo_change w c) _
              (record { preserves = λ s i. undo_change-Preserves c s o i })
              (λ done. undo_list-Keeps cs os)

        prefixed-undone :
            (usage : Str) (flags : Dict Str Str) (args : List Str) (prefix : Option Str) (s : S)
            → Inv s
            → Inv (create_prefixed w usage flags args prefix s).0
        unfolding create_prefixed
        prefixed-undone usage flags args none s i = i
        prefixed-undone usage flags args (some prefix) s i =
            let st = create_body w usage flags prefix args (s, []) in
            let o : OwnWork w kept st.0 = body-OwnWork usage flags prefix args s i in
            subst Inv (sym (with_undo-state st)) ((undo_list-Keeps st.0.1 o.1).preserves st.0.0 o.0)

        -- What is kept by calls that delete nothing, and by the deletion of what the answer to a
        -- creation of targets or extents lists, one that was sent where the property held, is kept by
        -- createIscsi however it ends.
        pub create_undoes_own :
            (usage : Str) (flags : Dict Str Str) (args : List Str) (s : S)
            → Inv s
            → Inv (create_iscsi w usage flags args s).0
        unfolding create_iscsi
        create_undoes_own usage flags args s =
            prefixed-undone usage flags args (get_iscsi_target_prefix_or_exit flags) s
