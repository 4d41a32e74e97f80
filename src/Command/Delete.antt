-- ===== src/Command/Delete.antt =====
-- cmd/iscsi.go: deleteIscsi and undoIscsiDeleteList.
pub mod Ids
use truenas_incus_ctl.Base.{
  ℕ, suc, ◌+◌, ◌*◌, ◌-◌, Bool, true, false, List, [], ◌∷◌, ◌++◌, map, ℤ, pos, Str, str_eq, codes,
  length, take, has_suffix, if◌then◌else◌,
}
use truenas_incus_ctl.Base.Dict.{Dict, insert}
use truenas_incus_ctl.Json.{Json, bool, arr, nil, cons}
use truenas_incus_ctl.Api.{Run, returns, panics, get_id_from_object, is_string_true}
use truenas_incus_ctl.Query.Collect.{Response}
use truenas_incus_ctl.Query.Rows.{get_ids_ordered_by_args_from_response}
use truenas_incus_ctl.Iscsi.Listings.{Share, iterate_activated_iscsi_shares}
use truenas_incus_ctl.Iscsi.Deactivation.{deactivate_matching_iscsi_targets}
use truenas_incus_ctl.Command.Steps.{
  Outside, Outcome, ends, errs, crashes, exits, spins, M, pure, ◌>>=◌, ◌>>◌, query_params, query,
  bulk, of_run,
}
use truenas_incus_ctl.Command.Create.{Change}
use truenas_incus_ctl.Command.Activate.{Printed, say_all, say_if, silent}
use truenas_incus_ctl.Command.Shares.{
  Machine, must_be_root, check_iscsi_admin_tool_exists, target_prefix, volumes_by_name, ip_port,
}

-- argsMapIndex: the place of each argument, the last one of a repeated argument.
unfoldable pub args_index : ℕ → List Str → Dict Str ℕ → Dict Str ℕ
args_index i [] d = d
args_index i (vol ∷ vols) d = args_index (suc i) vols (insert vol i d)

-- In seconds.
abbrev pub timeout_for {ℓ} : {A : Type ℓ} → List A → ℤ
timeout_for l = pos (10 + 10 * length l)

module _ {F : Type 0} where
  -- id, force, delete_extents
  unfoldable pub delete_params : List (Json F) → List (Json F)
  delete_params [] = []
  delete_params (id ∷ ids) =
      arr (cons id (cons (bool true) (cons (bool true) nil))) ∷ delete_params ids

  -- An error of the query for the datasets leaves the timeout as it was.
  abbrev pub dataset_timeout : ℤ → Outcome (Response F) → Outcome ℤ
  dataset_timeout t (ends r) = ends (timeout_for r.results_map)
  dataset_timeout t (errs e) = ends t
  dataset_timeout t crashes = crashes
  dataset_timeout t exits = exits
  dataset_timeout t spins = spins

  unfoldable pub undo_ids : List (Json F) → Run (List (Json F))
  unfolding get_id_from_object
  undo_ids [] = returns []
  undo_ids (r ∷ rs) = elim (get_id_from_object r) [
    | panics ↦ panics
    | returns id ↦ elim (undo_ids rs) [ panics ↦ panics | returns ids ↦ returns (id ∷ ids) ]
  ]

module _ {S F : Type 0} (w : Outside S F) where
  unfoldable pub create_again : Str → Run (List (Json F)) → M S (Unit {0})
  create_again endpoint panics s = (s, crashes)
  create_again endpoint (returns []) s = (s, ends tt)
  create_again endpoint (returns (id ∷ ids)) s = (
    (bulk w (take (length endpoint - 7) endpoint ++ codes ".create") w.default_call_timeout
        (id ∷ ids) false s).0,
    ends tt,
  )

  unfoldable pub undo_iscsi_delete_list : List (Change F) → M S (Unit {0})
  unfolding create_again undo_ids
  undo_iscsi_delete_list [] = pure (ends tt)
  undo_iscsi_delete_list (c ∷ cs) = do
    if has_suffix c.endpoint (codes ".delete")
        then create_again c.endpoint (undo_ids c.result_list)
        else pure (ends tt)
    undo_iscsi_delete_list cs

  unfoldable pub deactivate_matching : Str → Dict Str Str → List Share → M S (List Str)
  unfolding deactivate_matching_iscsi_targets
  deactivate_matching ip volumes shares s =
      let (t, names) =
        deactivate_matching_iscsi_targets w.api w.ops w.default_call_timeout w.type_error w.runs s
          ip volumes shares in
      (t, ends names)

  -- The timeout grows with the datasets below the volumes.
  unfoldable pub delete_timeout : List Str → ℤ → M S ℤ
  unfolding query
  delete_timeout args t s =
      let (u, out) =
        query w (codes "pool.dataset") args (map (λ _. codes "name") args) []
          (query_params false true) s in
      (u, dataset_timeout t out)

  unfoldable pub delete_targets : List Str → List (Json F) × List Str → M S (List Str)
  unfolding delete_params delete_timeout bulk
  delete_targets args (ids, names) = do
    timeout ← delete_timeout args (timeout_for ids)
    _ ← bulk w (codes "iscsi.target.delete") timeout (delete_params ids) true
    pure (ends (map (λ name. codes "deleted\t" ++ name) names))

  unfoldable pub delete_found :
      Bool → List Str → List (Json F) × List Str → M (Printed S) (Unit {0})
  unfolding delete_targets
  delete_found is_minimal args ([], names) =
      say_all (if is_minimal then [] else codes "Could not find any shares to delete" ∷ [])
  delete_found is_minimal args (id ∷ ids, names) = do
    lines ← silent (delete_targets args (id ∷ ids, names))
    say_all lines

  -- The list of changes of deleteIscsi stays empty, so its deferred undo does nothing.
  unfoldable pub delete_iscsi : Machine → Dict Str Str → List Str → M (Printed S) (Unit {0})
  unfolding must_be_root target_prefix volumes_by_name check_iscsi_admin_tool_exists ip_port
      deactivate_matching delete_found args_index
  delete_iscsi machine flags args = do
    must_be_root machine
    prefix ← target_prefix flags
    volumes ← pure (volumes_by_name w.sha256 w.sha512 prefix args [])
    check_iscsi_admin_tool_exists machine
    ip ← silent (ip_port w flags)
    shares ← pure (of_run (iterate_activated_iscsi_shares ip machine.devices))
    _ ← silent (deactivate_matching ip volumes shares)
    found ← silent (
        query w (codes "iscsi.target") args (map (λ _. codes "alias") args) []
          (query_params true false))
    targets ← pure (
        of_run (
          get_ids_ordered_by_args_from_response w.ops found (codes "alias") args
            (args_index 0 args [])))
    delete_found (is_string_true flags (codes "parsable")) args targets
