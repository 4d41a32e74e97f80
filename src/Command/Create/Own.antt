-- ===== src/Command/Create/Own.antt =====
-- cmd/iscsi.go, createIscsi: the steps of its body keep what calls that delete nothing keep, and the
-- changes that they record are the run's own.
use truenas_incus_ctl.Base.{
  ◌⊎◌, inl, inr, ◌≡◌, refl, sym, true, false, List, [], ◌∷◌, Str, codes, ℤ, pos, negsuc, has_suffix,
  All, All-append, str_eqb,
}
use truenas_incus_ctl.Base.Dict.{Dict}
use truenas_incus_ctl.Json.{Json, Fields}
use truenas_incus_ctl.Query.Collect.{Response}
use truenas_incus_ctl.Session.{BulkAnswer}
use truenas_incus_ctl.Command.Steps.{
  Outside, Outcome, ends, errs, crashes, exits, spins, M, pure, and_then, ◌>>◌, bulk,
  results_and_errors,
}
use truenas_incus_ctl.Command.Keeping.{Kept, Keeps, >>=-Keeps}
use truenas_incus_ctl.Command.Keeping.Calls.{
  query-Keeps, portal_id-Keeps, initiator_id-Keeps, bulk-Keeps, await_job-Keeps,
}
use truenas_incus_ctl.Command.Create.{
  Change, Work, lift, with_changes, record_change, create_all, find_targets, update_all,
  await_updates, make_targets, make_extents, send_pairs, join_extents, report, forget_changes,
  create_missing, create_targets, create_body,
}
use truenas_incus_ctl.Command.Create.Plans.{ids_by_alias, plan_targets}

-- An endpoint that deletes nothing.
abbrev pub Harmless : Str → Type 0
Harmless m = has_suffix m (codes ".delete") ≡ false

module _ {S F : Type 0} (w : Outside S F) where
  -- The endpoints that create targets and extents.
  abbrev pub Creates : Str → Type 0
  Creates m = (m ≡ codes "iscsi.target.create") ⊎ (m ≡ codes "iscsi.extent.create")

  -- A change that holds what a creation of targets or extents was answered, in a state with the
  -- property.
  pub record IsOwn (Inv : S → Type 0) (c : Change F) : Type 0 where
    pub before : S
    pub held : Inv before
    pub creates : Creates c.endpoint
    pub answer : BulkAnswer F
    pub sent : (bulk w c.endpoint w.default_call_timeout c.params true before).1 ≡ ends answer
    pub results : c.result_list ≡ (results_and_errors answer.message).0

  module _ {Inv : S → Type 0} (kept : Kept w.api Harmless Inv) where
    -- The state is kept, and the changes are the run's own.
    abbrev pub OwnWork : Work S F → Type 0
    OwnWork st = Inv st.0 × All (IsOwn Inv) st.1

    lift-Keeps : {A : Type 0} (m : M S A) → Keeps Inv m → Keeps OwnWork (lift m)
    lift-Keeps m h = record { preserves = λ st i. (h.preserves st.0 i.0, i.1) }

    recorded :
        (endpoint : Str) (ps : List (Json F)) (s : S) (cs : List (Change F))
        (r : S × Outcome (BulkAnswer F))
        → r.1 ≡ (bulk w endpoint w.default_call_timeout ps true s).1
        → Inv s
        → Creates endpoint
        → Inv r.0
        → All (IsOwn Inv) cs
        → OwnWork
            (and_then (with_changes cs r) (λ out.
              record_change (record {
                endpoint = endpoint;
                params = ps;
                result_list = (results_and_errors out.message).0;
                error_list = (results_and_errors out.message).1;
              })
              >> pure (ends (results_and_errors out.message).0))).0
    recorded endpoint ps s cs (t, ends out) e held creates i own = (
      i,
      All-append (IsOwn Inv) cs _ own (
        record {
          before = s;
          held = held;
          creates = creates;
          answer = out;
          sent = sym e;
          results = refl;
        },
        tt,
      ),
    )
    recorded endpoint ps s cs (t, errs x) e held creates i own = (i, own)
    recorded endpoint ps s cs (t, crashes) e held creates i own = (i, own)
    recorded endpoint ps s cs (t, exits) e held creates i own = (i, own)
    recorded endpoint ps s cs (t, spins) e held creates i own = (i, own)

    stays : {A : Type 0} (out : Outcome A) → Keeps OwnWork (pure out)
    stays out = record { preserves = λ st i. i }

    idle : {A : Type 0} (out : Outcome A) → Keeps Inv (pure out)
    idle out = record { preserves = λ s i. i }

    create_all-Keeps :
        (endpoint : Str) (ps : List (Json F))
        → Harmless endpoint
        → Creates endpoint
        → Keeps OwnWork (create_all w endpoint ps)
    unfolding create_all
    create_all-Keeps endpoint [] h c = stays _
    create_all-Keeps endpoint (p ∷ ps) h c = record {
      preserves = λ st i.
          recorded endpoint (p ∷ ps) st.0 st.1
            (bulk w endpoint w.default_call_timeout (p ∷ ps) true st.0) refl i.0 c
            ((bulk-Keeps w kept endpoint w.default_call_timeout (p ∷ ps) true h).preserves st.0 i.0)
            i.1;
    }

    find_targets-Keeps :
        (flags : Dict Str Str) (args : List Str) → Keeps Inv (find_targets w flags args)
    unfolding find_targets has_suffix str_eqb
    find_targets-Keeps flags args =
        >>=-Keeps Inv _ _ (query-Keeps w kept (codes "iscsi.target") _ _ _ _ refl) λ found.
          >>=-Keeps Inv _ _ (portal_id-Keeps w kept refl refl _)
            λ portal. >>=-Keeps Inv _ _ (initiator_id-Keeps w kept refl refl _) λ initiator. idle _

    update_all-Keeps : (ps : List (Json F)) → Keeps Inv (update_all w ps)
    unfolding update_all has_suffix str_eqb
    update_all-Keeps [] = idle _
    update_all-Keeps (p ∷ ps) =
        >>=-Keeps Inv _ _ (bulk-Keeps w kept (codes "iscsi.target.update") _ (p ∷ ps) false refl)
          λ a. idle _

    await_updates-Keeps : (job : ℤ) → Keeps Inv (await_updates w job)
    unfolding await_updates
    await_updates-Keeps (negsuc n) = idle _
    await_updates-Keeps (pos n) = >>=-Keeps Inv _ _ (await_job-Keeps w kept (pos n)) λ a. idle _

    make_targets-Keeps :
        (found : Response F) (plan : List (Json F) × List (Json F))
        → Keeps OwnWork (make_targets w found plan)
    unfolding make_targets has_suffix str_eqb
    make_targets-Keeps found (updates, creates) =
        >>=-Keeps OwnWork _ _ (lift-Keeps _ (update_all-Keeps updates)) λ job.
          >>=-Keeps OwnWork _ _
            (create_all-Keeps (codes "iscsi.target.create") creates refl (inl refl))
            λ created.
              >>=-Keeps OwnWork _ _ (lift-Keeps _ (await_updates-Keeps job)) λ done. stays _

    make_extents-Keeps :
        (flags : Dict Str Str) (args : List Str) (name_of : Dict Str Str)
        → Keeps OwnWork (make_extents w flags args name_of)
    unfolding make_extents has_suffix str_eqb
    make_extents-Keeps flags args name_of =
        >>=-Keeps OwnWork _ _
          (lift-Keeps _ (query-Keeps w kept (codes "iscsi.extent") _ _ _ _ refl))
          λ found.
            >>=-Keeps OwnWork _ _ (create_all-Keeps (codes "iscsi.extent.create") _ refl (inr refl))
              λ created. stays _

    send_pairs-Keeps : (ps : List (Json F)) → Keeps Inv (send_pairs w ps)
    unfolding send_pairs has_suffix str_eqb
    send_pairs-Keeps [] = idle _
    send_pairs-Keeps (p ∷ ps) =
        >>=-Keeps Inv _ _
          (bulk-Keeps w kept (codes "iscsi.targetextent.create") _ (p ∷ ps) true refl) λ a. idle _

    join_extents-Keeps :
        (targets : List (Fields F)) (extents : Dict Str (Fields F))
        → Keeps Inv (join_extents w targets extents)
    unfolding join_extents has_suffix str_eqb
    join_extents-Keeps targets extents =
        >>=-Keeps Inv _ _ (query-Keeps w kept (codes "iscsi.targetextent") _ _ _ _ refl)
          λ known. send_pairs-Keeps _

    forgets : Keeps OwnWork (forget_changes {S = S} {F = F})
    forgets = record { preserves = λ st i. (i.0, tt) }

    create_missing-Keeps :
        (usage : Str) (flags : Dict Str Str) (args : List Str) (name_of : Dict Str Str)
        (found : Response F) (plan : List (Json F) × List (Json F))
        → Keeps OwnWork (create_missing w usage flags args name_of found plan)
    unfolding create_missing
    create_missing-Keeps usage flags args name_of found plan =
        >>=-Keeps OwnWork _ _ (make_targets-Keeps found plan) λ targets.
          >>=-Keeps OwnWork _ _ (make_extents-Keeps flags args name_of) λ extents.
            >>=-Keeps OwnWork _ _ (lift-Keeps _ (join_extents-Keeps targets extents)) λ joined.
              >>=-Keeps OwnWork _ _ forgets λ forgotten. stays (ends (report w usage flags targets))

    create_targets-Keeps :
        (usage : Str) (flags : Dict Str Str) (args : List Str) (name_of : Dict Str Str)
        (found : Response F) (plan : List (Json F) × List (Json F))
        → Keeps OwnWork (create_targets w usage flags args name_of found plan)
    unfolding create_targets
    create_targets-Keeps usage flags args name_of found ([], []) = stays _
    create_targets-Keeps usage flags args name_of found (u ∷ us, cs) =
        create_missing-Keeps usage flags args name_of found (u ∷ us, cs)
    create_targets-Keeps usage flags args name_of found ([], c ∷ cs) =
        create_missing-Keeps usage flags args name_of found ([], c ∷ cs)

    pub create_body-Keeps :
        (usage : Str) (flags : Dict Str Str) (prefix : Str) (args : List Str)
        → Keeps OwnWork (create_body w usage flags prefix args)
    unfolding create_body
    create_body-Keeps usage flags prefix args = >>=-Keeps OwnWork _ _ (stays _) λ names.
        >>=-Keeps OwnWork _ _ (lift-Keeps _ (find_targets-Keeps flags args)) λ found.
          >>=-Keeps OwnWork _ _ (stays (ids_by_alias found.0.results_map [])) λ ids.
            create_targets-Keeps usage flags args names.1 found.0
              (plan_targets found.1 found.2 names.1 ids args)
