-- ===== src/Command/Locate.antt =====
-- cmd/iscsi.go: locateIscsi, testIscsi and setupIscsi.
use truenas_incus_ctl.Base.{
  Bool, true, false, ◌&&◌, ◌||◌, not, List, [], ◌∷◌, ◌++◌, map, Option, none, some, ℤ, Str, codes,
  is_empty, if◌then◌else◌,
}
use truenas_incus_ctl.Base.Decimal.{itoa}
use truenas_incus_ctl.Base.Dict.{Dict}
use truenas_incus_ctl.Api.{Run, returns, panics, is_string_true}
use truenas_incus_ctl.Iscsi.Listings.{Share, LoginSpec, iterate_activated_iscsi_shares}
use truenas_incus_ctl.Iscsi.Deactivation.{deactivate_iscsi_target_list}
use truenas_incus_ctl.Iscsi.Tool.{check_remote_iscsi_service_is_running}
use truenas_incus_ctl.Command.Steps.{
  Outside, ends, errs, M, pure, ◌>>=◌, ◌>>◌, portal_id, initiator_id, of_run,
}
use truenas_incus_ctl.Command.Create.Plans.{text_in}
use truenas_incus_ctl.Command.Create.{create_iscsi}
use truenas_incus_ctl.Command.Activate.{
  Printed, say_all, say_if, silent, run_tool, full_path, do_iscsi_activate,
}
use truenas_incus_ctl.Command.Shares.{
  Machine, must_be_root, check_iscsi_admin_tool_exists, find_shares, ip_port, discovery_targets,
  run_iscsi_discover, specs_of, or_no_shares, take_located, values_of,
}
use truenas_incus_ctl.Command.Delete.{delete_iscsi}
use truenas_incus_ctl.Command.Service.{change_service_state_impl}

abbrev is_none {ℓ} : {A : Type ℓ} → Option A → Bool
is_none none = true
is_none (some _) = false

abbrev located_lines : List Share → List Str
located_lines [] = []
located_lines (d ∷ ds) = (codes "located\t" ++ full_path d.full_name) ∷ located_lines ds

abbrev iqn_targets : List Share → List Str
iqn_targets [] = []
iqn_targets (d ∷ ds) = d.iqn_target_name ∷ iqn_targets ds

abbrev targets_only : List Share → List Str
targets_only [] = []
targets_only (d ∷ ds) = d.target_only_name ∷ targets_only ds

abbrev pub deactivated_lines : List Str → List Str
deactivated_lines = map (λ t. codes "deactivated\t" ++ t)

module _ {S F : Type 0} (w : Outside S F) (machine : Machine) (flags : Dict Str Str) where
  abbrev is_set : Str → Bool
  is_set key = is_string_true flags key

  -- With "--create", the volumes whose share is missing.
  unfoldable pub create_located : Bool → List Str → M (Printed S) (Unit {0})
  unfolding create_iscsi
  create_located should_create [] = pure (ends tt)
  create_located should_create (vol ∷ vols) =
      if should_create
      then silent (create_iscsi w (codes "locate <dataset>...") flags (vol ∷ vols)) >>= say_all
      else pure (ends tt)

  -- With "--create", the targets that can be found now.
  unfoldable pub rediscovered : Bool → Dict Str Str → Str → M S (List LoginSpec)
  unfolding discovery_targets
  rediscovered true missing ip = discovery_targets w missing ip
  rediscovered false missing ip = pure (ends [])

  unfoldable pub activate_some : Str → List LoginSpec → M (Printed S) (Unit {0})
  unfolding do_iscsi_activate
  activate_some ip [] = pure (ends tt)
  activate_some ip (t ∷ ts) =
      do_iscsi_activate w ip (is_set (codes "parsable")) true machine.events (t ∷ ts)

  unfoldable pub activate_located :
      Bool → Bool → Str → Dict Str Str → Dict Str Bool → M (Printed S) (Unit {0})
  unfolding rediscovered activate_some specs_of
  activate_located false should_create ip missing shares = pure (ends tt)
  activate_located true should_create ip missing shares = do
    again ← silent (rediscovered should_create missing ip)
    activate_some ip (again ++ specs_of ip shares)

  unfoldable pub deactivate_located : Str → List Share → M (Printed S) (Unit {0})
  unfolding deactivate_iscsi_target_list
  deactivate_located ip ds (s, lines) =
      let (t, d) =
        deactivate_iscsi_target_list w.api w.ops w.default_call_timeout w.type_error w.runs s ip
          (iqn_targets ds) in
      (
        (t, lines ++ (deactivated_lines d.results ++ map (λ e. codes "failed\t" ++ e) d.errors)),
        ends tt,
      )

  -- deleteIscsi is given the names of targets, where it wants volumes.
  unfoldable pub remove_located : Bool → Bool → Str → List Share → M (Printed S) (Unit {0})
  unfolding deactivate_located delete_iscsi
  remove_located should_delete false ip ds = pure (ends tt)
  remove_located true true ip (d ∷ ds) = do
    delete_iscsi w machine flags (targets_only (d ∷ ds))
    say_all (deactivated_lines (iqn_targets (d ∷ ds)))
  remove_located should_delete true ip ds = deactivate_located ip ds

  unfoldable pub locate_iscsi : List Str → M (Printed S) (Unit {0})
  unfolding must_be_root ip_port find_shares create_located take_located activate_located
      remove_located
  locate_iscsi args = do
    let should_create = is_set (codes "create")
    let should_activate = is_set (codes "activate") || should_create
    let should_delete = is_set (codes "delete")
    let should_deactivate = is_set (codes "deactivate") || should_delete
    must_be_root machine
    ip ← silent (ip_port w flags)
    found ← silent (find_shares w machine flags args ip)
    pure (
        if is_none found.0 && (not should_create && not (is_set (codes "parsable")))
        then errs (codes "Could not find any matching iscsi shares")
        else ends tt)
    create_located should_create (values_of found.1)
    devices ← pure (of_run (iterate_activated_iscsi_shares ip machine.devices))
    let located = take_located devices (or_no_shares found.0)
    say_all (if should_deactivate then [] else located_lines located.0)
    activate_located should_activate should_create ip found.1 located.1
    remove_located should_delete should_deactivate ip (if should_deactivate then located.0 else [])

  -- The text of a service that does not run, empty for one that does.
  unfoldable pub service_text : M S Str
  unfolding check_remote_iscsi_service_is_running
  service_text s =
      let (t, (msg, e)) =
        check_remote_iscsi_service_is_running w.api w.ops w.default_call_timeout w.type_error s in
      (t, elim e [ none ↦ ends msg | some x ↦ errs x ])

  unfoldable pub service_must_run : M S (Unit {0})
  unfolding service_text
  service_must_run = do msg ← service_text; pure (if is_empty msg then ends tt else errs msg)

  -- The discovery's own result is not looked at.
  abbrev ignoring : {A : Type 0} → M S A → M S (Unit {0})
  ignoring m s = let (t, out) = m s in (t, ends tt)

  unfoldable pub test_iscsi_impl : Bool → M (Printed S) (Unit {0})
  unfolding service_must_run ip_port run_iscsi_discover run_tool
  test_iscsi_impl checked_service_state = do
    silent (if checked_service_state then pure (ends tt) else service_must_run)
    ip ← silent (ip_port w flags)
    _ ← silent (ignoring (run_iscsi_discover w ip))
    out ← silent (run_tool w (codes "--mode" ∷ codes "discovery" ∷ codes "--portal" ∷ ip ∷ []))
    say_if (not (is_set (codes "parsable"))) out

  abbrev label_line : Str → ℤ → Str
  label_line label id = label ++ itoa id

  module _ (parse_float : Str → Option F) (listed : List Str → Str) where
    -- A service that does not run is enabled and started.
    unfoldable pub start_service : Str → M (Printed S) (Unit {0})
    unfolding change_service_state_impl
    start_service [] = pure (ends tt)
    start_service (c ∷ msg) = do
      silent (
          change_service_state_impl w parse_float listed (codes "start") [] true false
            (codes "iscsitarget" ∷ []))
      say_if (not (is_set (codes "parsable"))) (codes "Started and enabled iscsitarget service")

    unfoldable pub setup_iscsi_impl : M (Printed S) (Unit {0})
    unfolding service_text start_service
    setup_iscsi_impl = do
      msg ← silent service_text
      start_service msg
      portal ← silent (portal_id w (text_in flags (codes "portal")))
      say_if (not (is_set (codes "parsable"))) (label_line (codes "Portal ID: ") portal)
      initiator ← silent (initiator_id w (text_in flags (codes "initiator")))
      say_if (not (is_set (codes "parsable"))) (label_line (codes "Initiator ID: ") initiator)

    unfoldable pub test_iscsi : M (Printed S) (Unit {0})
    unfolding setup_iscsi_impl test_iscsi_impl
    test_iscsi =
        if is_set (codes "setup")
        then setup_iscsi_impl >> test_iscsi_impl true
        else test_iscsi_impl false

    unfoldable pub setup_iscsi : M (Printed S) (Unit {0})
    unfolding setup_iscsi_impl test_iscsi_impl
    setup_iscsi = do
      setup_iscsi_impl
      if is_set (codes "test") then test_iscsi_impl true else pure (ends tt)

  -- The rescan of the activated targets.
  unfoldable pub refresh_iscsi : M S (Unit {0})
  unfolding must_be_root check_iscsi_admin_tool_exists run_tool
  refresh_iscsi = do
    must_be_root machine
    check_iscsi_admin_tool_exists machine
    _ ← run_tool w (codes "-m" ∷ codes "node" ∷ codes "-R" ∷ [])
    pure (ends tt)

-- The paths of all activated shares.
unfoldable pub list_iscsi : List Str → Run (List Str)
list_iscsi devices = elim (iterate_activated_iscsi_shares [] devices) [
  | panics ↦ panics
  | returns shares ↦ returns (map (λ d. full_path d.full_name) shares)
]
