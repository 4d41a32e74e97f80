-- ===== src/Command/Shares.antt =====
-- cmd/iscsi.go: getIscsiSharesFromSessionAndDiscovery, activateIscsi and deactivateIscsi. What the
-- machine says is an argument. What DeactivateMatchingIscsiTargets and CheckIscsiAdminToolExists print
-- is left out.
use truenas_incus_ctl.Base.{
  ℕ, Bool, true, false, ◌||◌, List, [], ◌∷◌, ◌++◌, map, Option, none, some, Str, str_eq, ◌==◌,
  codes, index_of, take, drop, suc, to_lower, contains_str, if◌then◌else◌,
}
use truenas_incus_ctl.Base.Dict.{Dict, insert, erase, has}
use truenas_incus_ctl.Api.{is_string_true}
use truenas_incus_ctl.Query.Filter.{fails, gives}
use truenas_incus_ctl.Iscsi.TargetNames.{
  get_iscsi_target_prefix_or_exit, maybe_hash_iscsi_name_from_volume_path,
}
use truenas_incus_ctl.Iscsi.Listings.{
  Share, LoginSpec, iterate_activated_iscsi_shares, get_iscsi_targets_from_discovery,
  get_iscsi_targets_from_session,
}
use truenas_incus_ctl.Iscsi.Deactivation.{deactivate_matching_iscsi_targets}
use truenas_incus_ctl.Iscsi.Portals.{maybe_lookup_ip_port_from_portal}
use truenas_incus_ctl.Command.Steps.{
  Outside, Outcome, ends, errs, crashes, exits, M, pure, ◌>>=◌, ◌>>◌, default_iscsi_port, of_run,
}
use truenas_incus_ctl.Command.Create.Plans.{text_in}
use truenas_incus_ctl.Command.Activate.{
  Printed, say_all, silent, run_tool, Event, iqn_target_of, do_iscsi_activate,
}

-- The user, if the system knows, the error of the search for iscsiadm, the names in
-- "/dev/disk/by-path", and what the rounds of a watch for devices see.
pub record Machine : Type 0 where
  pub user_name : Option Str
  pub tool_error : Option Str
  pub devices : List Str
  pub events : ℕ → Event

module _ {S : Type 0} where
  unfoldable pub must_be_root : Machine → M S (Unit {0})
  must_be_root machine = elim machine.user_name [
    | none ↦ pure (ends tt)
    | some name ↦
        if name == codes "root"
        then pure (ends tt)
        else pure (errs (codes "This command must be run as root."))
  ]

  unfoldable pub check_iscsi_admin_tool_exists : Machine → M S (Unit {0})
  check_iscsi_admin_tool_exists machine = elim machine.tool_error [
    | none ↦ pure (ends tt)
    | some e ↦ pure (errs e)
  ]

  -- A prefix that is too long ends the program.
  unfoldable pub target_prefix : Dict Str Str → M S Str
  unfolding get_iscsi_target_prefix_or_exit
  target_prefix flags = elim (get_iscsi_target_prefix_or_exit flags) [
    | none ↦ pure exits
    | some prefix ↦ pure (ends prefix)
  ]

-- The volumes by the names of their targets.
module _ (sha256 sha512 : Str → Str) (prefix : Str) where
  unfoldable pub volumes_by_name : List Str → Dict Str Str → Outcome (Dict Str Str)
  unfolding maybe_hash_iscsi_name_from_volume_path
  volumes_by_name [] d = ends d
  volumes_by_name (vol ∷ vols) d =
      elim (maybe_hash_iscsi_name_from_volume_path sha256 sha512 prefix vol) [
        | none ↦ crashes
        | some hashed ↦ volumes_by_name vols (insert hashed vol d)
      ]

-- The targets that were found, and those that are missing.
unfoldable pub add_found :
    List LoginSpec → Dict Str Bool × Dict Str Str → Dict Str Bool × Dict Str Str
add_found [] found = found
add_found (t ∷ ts) (shares, missing) =
    add_found ts (insert (iqn_target_of t) true shares, erase t.target missing)

unfoldable pub shares_of : List LoginSpec → Dict Str Str → Option (Dict Str Bool) × Dict Str Str
unfolding add_found
shares_of [] missing = (none, missing)
shares_of (t ∷ ts) missing = let found = add_found (t ∷ ts) ([], missing) in (some found.0, found.1)

abbrev pub no_active_sessions : Str → Bool
no_active_sessions e = contains_str (to_lower e) (codes "no active sessions")

-- An error that the test allows is taken for an empty list.
abbrev pub allowing : {S A : Type 0} → (Str → Bool) → M S (List A) → M S (List A)
allowing allowed m s =
    let (t, out) = m s in
    elim out [
      | errs e ↦ (t, if allowed e then ends [] else errs e)
      | ends l ↦ (t, ends l)
      | crashes ↦ (t, crashes)
      | exits ↦ (t, exits)
      | Outcome.spins ↦ (t, Outcome.spins)
    ]

-- "iqn:target", parted at its first colon.
unfoldable pub spec_of_share : Str → Str → LoginSpec
spec_of_share ip share = elim (index_of b':' share) [
  | none ↦ record { remote_ip = ip; iqn = share; target = [] }
  | some i ↦ record { remote_ip = ip; iqn = take i share; target = drop (suc i) share }
]

unfoldable pub specs_of : Str → Dict Str Bool → List LoginSpec
unfolding spec_of_share
specs_of ip [] = []
specs_of ip ((share, _) ∷ shares) = spec_of_share ip share ∷ specs_of ip shares

abbrev pub or_no_shares : Option (Dict Str Bool) → Dict Str Bool
or_no_shares none = []
or_no_shares (some shares) = shares

-- The loop over the devices: those of the shares, which are then not missing any more.
unfoldable pub take_located : List Share → Dict Str Bool → List Share × Dict Str Bool
take_located [] shares = ([], shares)
take_located (d ∷ ds) shares =
    let skipped = take_located ds shares in
    let rest = take_located ds (erase d.iqn_target_name shares) in
    if has d.iqn_target_name shares then (d ∷ rest.0, rest.1) else skipped

unfoldable pub erase_each : List Str → Dict Str Str → Dict Str Str
erase_each [] d = d
erase_each (k ∷ ks) d = erase_each ks (erase k d)

abbrev pub values_of : Dict Str Str → List Str
values_of [] = []
values_of ((_, v) ∷ d) = v ∷ values_of d

module _ {S F : Type 0} (w : Outside S F) where
  unfoldable pub ip_port : Dict Str Str → M S Str
  unfolding maybe_lookup_ip_port_from_portal
  ip_port flags s =
      let (t, r) =
        maybe_lookup_ip_port_from_portal w.api w.ops w.default_call_timeout w.type_error w.unmarshal
          w.lookup_ip w.split_host w.host_name s default_iscsi_port
          (text_in flags (codes "portal")) in
      (t, elim r [ fails e ↦ errs e | gives addr ↦ ends addr ])

  unfoldable pub session_targets : Dict Str Str → M S (List LoginSpec)
  unfolding run_tool get_iscsi_targets_from_session
  session_targets volumes = do
    out ← run_tool w (codes "--mode" ∷ codes "session" ∷ [])
    pure (of_run (get_iscsi_targets_from_session volumes out))

  unfoldable pub run_iscsi_discover : Str → M S Str
  unfolding run_tool
  run_iscsi_discover portal_addr = run_tool w (
      codes "--mode"
      ∷ codes "discoverydb"
      ∷ codes "--type"
      ∷ codes "sendtargets"
      ∷ codes "--discover"
      ∷ codes "--portal"
      ∷ portal_addr
      ∷ [])

  unfoldable pub discovery_targets : Dict Str Str → Str → M S (List LoginSpec)
  unfolding run_iscsi_discover get_iscsi_targets_from_discovery
  discovery_targets volumes portal_addr = do
    out ← run_iscsi_discover portal_addr
    pure (of_run (get_iscsi_targets_from_discovery volumes out))

  -- The shares that a session or a discovery lists, none if there are none, and the missing ones.
  unfoldable pub find_shares :
      Machine → Dict Str Str → List Str → Str → M S (Option (Dict Str Bool) × Dict Str Str)
  unfolding target_prefix volumes_by_name check_iscsi_admin_tool_exists session_targets
      discovery_targets shares_of
  find_shares machine flags args portal_addr = do
    prefix ← target_prefix flags
    volumes ← pure (volumes_by_name w.sha256 w.sha512 prefix args [])
    check_iscsi_admin_tool_exists machine
    let is_create = is_string_true flags (codes "create")
    in_session ← allowing (λ e. is_create || no_active_sessions e) (session_targets volumes)
    discovered ← allowing (λ e. is_create) (discovery_targets volumes portal_addr)
    pure (ends (shares_of (in_session ++ discovered) volumes))

  unfoldable pub activate_iscsi : Machine → Dict Str Str → List Str → M (Printed S) (Unit {0})
  unfolding must_be_root ip_port find_shares do_iscsi_activate specs_of
  activate_iscsi machine flags args = do
    must_be_root machine
    ip ← silent (ip_port flags)
    found ← silent (find_shares machine flags args ip)
    elim found.0 [
      | none ↦ pure (ends tt)
      | some shares ↦
          do_iscsi_activate w ip (is_string_true flags (codes "parsable")) false machine.events
            (specs_of ip shares)
    ]

  unfoldable pub deactivate_iscsi : Machine → Dict Str Str → List Str → M (Printed S) (Unit {0})
  unfolding must_be_root target_prefix volumes_by_name check_iscsi_admin_tool_exists ip_port
      erase_each
  deactivate_iscsi machine flags args = do
    must_be_root machine
    prefix ← target_prefix flags
    volumes ← pure (volumes_by_name w.sha256 w.sha512 prefix args [])
    check_iscsi_admin_tool_exists machine
    ip ← silent (ip_port flags)
    shares ← pure (of_run (iterate_activated_iscsi_shares ip machine.devices))
    gone ← silent (λ s.
        let (t, names) =
          deactivate_matching_iscsi_targets w.api w.ops w.default_call_timeout w.type_error w.runs s
            ip volumes shares in
        (t, ends names))
    say_all (
        if is_string_true flags (codes "parsable")
        then []
        else map (λ vol. codes "not-found\t" ++ vol) (values_of (erase_each gone volumes)))
