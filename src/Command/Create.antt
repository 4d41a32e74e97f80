-- ===== src/Command/Create.antt =====
-- cmd/iscsi.go: createIscsi and undoIscsiCreateList. Command/Create/Plans holds the loops between the
-- calls.
pub mod Plans
pub mod Pairs
pub mod Own
pub mod Undone
use truenas_incus_ctl.Base.{
  ℕ, ◌-◌, Bool, true, false, not, ◌||◌, List, [], ◌∷◌, ◌++◌, map, Option, none, some, ℤ, pos,
  negsuc, is_neg, Str, str_eq, codes, length, take, has_prefix, has_suffix, join, if◌then◌else◌,
}
use truenas_incus_ctl.Base.Dict.{Dict, lookup}
use truenas_incus_ctl.Json.{Json, arr, obj, nil, cons, Fields}
use truenas_incus_ctl.Api.{Run, returns, panics, get_id_from_object, is_string_true}
use truenas_incus_ctl.Query.Collect.{Response}
use truenas_incus_ctl.Query.Rows.{
  get_list_from_query_response, get_map_from_query_response_keyed_on,
}
use truenas_incus_ctl.Iscsi.TargetNames.{get_iscsi_target_prefix_or_exit}
use truenas_incus_ctl.Command.Steps.{
  Outside, Outcome, ends, errs, crashes, exits, M, pure, and_then, ◌>>=◌, ◌>>◌, query_params, query,
  portal_id, initiator_id, bulk, await_job, results_and_errors, maps_in, of_run,
}
use truenas_incus_ctl.Command.Create.Plans.{
  Names, names_for, ids_by_alias, text_in, plan_targets, or_no_keys, zvol, missing_extents,
  extent_params, add_extents, pairs_of, drop_known, pair_list, lines_of,
}

-- `typeApiCallRecord`
pub record Change (F : Type 0) : Type 0 where
  pub endpoint : Str
  pub params : List (Json F)
  pub result_list : List (Json F)
  pub error_list : List (Json F)

-- The steps of createIscsi change the state of the session and the list of changes.
abbrev pub Work : Type 0 → Type 0 → Type 0
Work S F = S × List (Change F)

module _ {S F : Type 0} where
  abbrev pub with_changes : {A : Type 0} → List (Change F) → S × A → Work S F × A
  with_changes cs (s, a) = ((s, cs), a)

  -- A step on the session alone.
  abbrev pub lift : {A : Type 0} → M S A → M (Work S F) A
  lift m (s, cs) = with_changes cs (m s)

  abbrev pub record_change : Change F → M (Work S F) (Unit {0})
  record_change c (s, cs) = ((s, cs ++ c ∷ []), ends tt)

  -- `changes = make([]typeApiCallRecord, 0)`
  abbrev pub forget_changes : M (Work S F) (Unit {0})
  forget_changes (s, cs) = ((s, []), ends tt)

module _ {S F : Type 0} (w : Outside S F) where
  -- One bulk call of the endpoint, recorded with its results; nothing for no parameters.
  unfoldable pub create_all : Str → List (Json F) → M (Work S F) (List (Json F))
  unfolding bulk results_and_errors
  create_all endpoint [] = pure (ends [])
  create_all endpoint (p ∷ ps) = do
    out ← lift (bulk w endpoint w.default_call_timeout (p ∷ ps) true)
    record_change (record {
      endpoint = endpoint;
      params = p ∷ ps;
      result_list = (results_and_errors out.message).0;
      error_list = (results_and_errors out.message).1;
    })
    pure (ends (results_and_errors out.message).0)

  -- The targets that there are, with the ids of the portal and of the initiator.
  unfoldable pub find_targets : Dict Str Str → List Str → M S (Response F × ℤ × ℤ)
  find_targets flags args = do
    found ←
        query w (codes "iscsi.target") args (map (λ _. codes "alias") args) []
          (query_params true false)
    portal ← portal_id w (text_in flags (codes "portal"))
    initiator ← initiator_id w (text_in flags (codes "initiator"))
    pure (ends (found, portal, initiator))

  -- The updates are sent at once; the job that stands for several is -1 for one or none.
  unfoldable pub update_all : List (Json F) → M S ℤ
  update_all [] = pure (ends (negsuc 0))
  update_all (p ∷ ps) = do
    out ← bulk w (codes "iscsi.target.update") w.default_call_timeout (p ∷ ps) false
    pure (ends out.job_id)

  unfoldable pub await_updates : ℤ → M S (Unit {0})
  await_updates (negsuc n) = pure (ends tt)
  await_updates (pos n) = do _ ← await_job w (pos n); pure (ends tt)

  -- All targets of the volumes: those that were found and those that are created now.
  unfoldable pub make_targets :
      Response F → List (Json F) × List (Json F) → M (Work S F) (List (Fields F))
  unfolding create_all update_all await_updates maps_in
  make_targets found (updates, creates) = do
    job ← lift (update_all updates)
    created ← create_all (codes "iscsi.target.create") creates
    lift (await_updates job)
    pure (
        ends (
          map or_no_keys (get_list_from_query_response w.ops w.parse_int w.sort_stable found).1
          ++ maps_in created))

  -- All extents of the volumes, by their disks.
  unfoldable pub make_extents :
      Dict Str Str → List Str → Dict Str Str → M (Work S F) (Dict Str (Fields F))
  unfolding create_all extent_params missing_extents add_extents maps_in
  make_extents flags args name_of = do
    found ← lift (
        query w (codes "iscsi.extent") (map zvol args) (map (λ _. codes "disk") args) []
          (query_params true false))
    let extents = get_map_from_query_response_keyed_on w.ops found (codes "disk")
    created ← create_all (codes "iscsi.extent.create") (
        extent_params (is_string_true flags (codes "readonly"))
          (missing_extents name_of extents args))
    pure (ends (add_extents w.ops (maps_in created) extents))

  unfoldable pub send_pairs : List (Json F) → M S (Unit {0})
  send_pairs [] = pure (ends tt)
  send_pairs (p ∷ ps) = do
    _ ← bulk w (codes "iscsi.targetextent.create") w.default_call_timeout (p ∷ ps) true
    pure (ends tt)

  -- Each target is joined with the extent of its volume, unless the server has joined them.
  unfoldable pub join_extents : List (Fields F) → Dict Str (Fields F) → M S (Unit {0})
  unfolding send_pairs pairs_of drop_known
  join_extents targets extents = do
    known ← query w (codes "iscsi.targetextent") [] [] [] (query_params true false)
    send_pairs (pair_list (drop_known w.ops known.results_map (pairs_of w.ops extents targets [])))

  abbrev pub report : Str → Dict Str Str → List (Fields F) → List Str
  report usage flags targets =
      if has_prefix usage (codes "locate") || not (is_string_true flags (codes "parsable"))
      then lines_of (codes "created\t") targets
      else lines_of [] targets

  -- The calls for the targets, the extents and their pairs. With that the changes are kept.
  unfoldable pub create_missing :
      Str
      → Dict Str Str
      → List Str
      → Dict Str Str
      → Response F
      → List (Json F) × List (Json F)
      → M (Work S F) (List Str)
  unfolding make_targets make_extents join_extents
  create_missing usage flags args name_of found plan = do
    targets ← make_targets found plan
    extents ← make_extents flags args name_of
    lift (join_extents targets extents)
    forget_changes
    pure (ends (report usage flags targets))

  abbrev pub up_to_date : List Str → Str
  up_to_date args =
      codes "iSCSI targets, portal and initiator groups are up to date for ["
      ++ (join (codes " ") args ++ codes "]")

  unfoldable pub create_targets :
      Str
      → Dict Str Str
      → List Str
      → Dict Str Str
      → Response F
      → List (Json F) × List (Json F)
      → M (Work S F) (List Str)
  unfolding create_missing
  create_targets usage flags args name_of found ([], []) =
      pure (ends (if is_string_true flags (codes "parsable") then [] else up_to_date args ∷ []))
  create_targets usage flags args name_of found plan =
      create_missing usage flags args name_of found plan

  -- The body of createIscsi: the lines that it prints.
  unfoldable pub create_body : Str → Dict Str Str → Str → List Str → M (Work S F) (List Str)
  unfolding create_targets find_targets plan_targets ids_by_alias names_for
  create_body usage flags prefix args = do
    names ← pure (names_for w.sha256 w.sha512 prefix args ([], []))
    found ← lift (find_targets flags args)
    ids ← pure (ids_by_alias found.0.results_map [])
    create_targets usage flags args names.1 found.0 (plan_targets found.1 found.2 names.1 ids args)

module _ {F : Type 0} where
  -- Each result's id, as the parameters of a call.
  unfoldable pub ids_of : List (Json F) → Run (List (Json F))
  unfolding get_id_from_object
  ids_of [] = returns []
  ids_of (r ∷ rs) = elim (get_id_from_object r) [
    | panics ↦ panics
    | returns id ↦ elim (ids_of rs) [
      | panics ↦ panics
      | returns ids ↦ returns (arr (cons id nil) ∷ ids)
    ]
  ]

module _ {S F : Type 0} (w : Outside S F) where
  -- The deletion of what a call created; what it answers has no part.
  unfoldable pub delete_all : Str → List (Json F) → S → S
  delete_all endpoint [] s = s
  delete_all endpoint (id ∷ ids) s =
      (bulk w (take (length endpoint - 7) endpoint ++ codes ".delete") w.default_call_timeout
        (id ∷ ids) false s).0

  unfoldable pub undo_found : Str → Run (List (Json F)) → M S (Unit {0})
  unfolding delete_all
  undo_found endpoint panics s = (s, crashes)
  undo_found endpoint (returns ids) s = (delete_all endpoint ids s, ends tt)

  unfoldable pub undo_change : Change F → M S (Unit {0})
  unfolding undo_found ids_of
  undo_change c s =
      if has_suffix c.endpoint (codes ".create")
      then undo_found c.endpoint (ids_of c.result_list) s
      else (s, ends tt)

  unfoldable pub undo_iscsi_create_list : List (Change F) → M S (Unit {0})
  unfolding undo_change
  undo_iscsi_create_list [] = pure (ends tt)
  undo_iscsi_create_list (c ∷ cs) = undo_change c >> undo_iscsi_create_list cs

  -- `undoIscsiCreateList` is deferred: it runs at every end of the body, a panic included.
  unfoldable pub with_undo : Work S F × Outcome (List Str) → S × Outcome (List Str)
  unfolding undo_iscsi_create_list
  with_undo ((s, cs), out) = and_then (undo_iscsi_create_list cs s) (λ _. pure out)

  -- A prefix that is too long ends the program before anything is deferred.
  unfoldable pub create_prefixed : Str → Dict Str Str → List Str → Option Str → M S (List Str)
  unfolding with_undo create_body
  create_prefixed usage flags args none s = (s, exits)
  create_prefixed usage flags args (some prefix) s =
      with_undo (create_body w usage flags prefix args (s, []))

  -- `usage` is the command's usage line: createIscsi also serves "locate --create".
  unfoldable pub create_iscsi : Str → Dict Str Str → List Str → M S (List Str)
  unfolding create_prefixed get_iscsi_target_prefix_or_exit
  create_iscsi usage flags args =
      create_prefixed usage flags args (get_iscsi_target_prefix_or_exit flags)
