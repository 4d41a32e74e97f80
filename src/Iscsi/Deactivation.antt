-- ===== src/Iscsi/Deactivation.antt =====
-- cmd/iscsi_util.go: RunIscsiDeactivate, DeactivateIscsiTargetList and DeactivateMatchingIscsiTargets.
-- The wait for the devices to go has no part in the results.
use truenas_incus_ctl.Base.{
  ℕ, List, [], ◌∷◌, ◌++◌, map, Option, none, some, ℤ, Str, str_eq, codes, if◌then◌else◌,
}
use truenas_incus_ctl.Base.Dict.{Dict, lookup, insert, has}
use truenas_incus_ctl.Json.{Json, FloatOps}
use truenas_incus_ctl.Session.{Session}
use truenas_incus_ctl.Iscsi.Listings.{Share}
use truenas_incus_ctl.Iscsi.Tool.{Ran, run_iscsi_admin_tool}

-- The arguments of the tool that log out of a target.
unfoldable pub logout_params : Str → Str → List Str
logout_params iqn_target_name ip_portal_addr =
    codes "--mode"
    ∷ codes "node"
    ∷ codes "--targetname"
    ∷ iqn_target_name
    ∷ codes "--portal"
    ∷ ip_portal_addr
    ∷ codes "--logout"
    ∷ []

-- The targets that were logged out, and the errors; both nil slices are empty lists.
pub record Deactivated : Type 0 where
  pub results : List Str
  pub errors : List Str

unfoldable pub add_outcome : Str → Option Str → Deactivated → Deactivated
add_outcome t none d = record { results = t ∷ d.results; errors = d.errors }
add_outcome t (some e) d = record {
  results = d.results;
  errors = (t ++ (codes "\t" ++ e)) ∷ d.errors;
}

-- `runs` is how the tool ends, for its arguments and the number of the try.
module _ {S F : Type 0} (api : Session S F) (ops : FloatOps F) (default_call_timeout : ℤ)
    (type_error : Json F → Str) (runs : List Str → ℕ → Ran) where
  unfoldable pub run_iscsi_deactivate : S → Str → Str → S × Option Str
  unfolding run_iscsi_admin_tool logout_params
  run_iscsi_deactivate s iqn_target_name ip_portal_addr =
      let (t, (_, e)) =
        run_iscsi_admin_tool api ops default_call_timeout type_error s
          (runs (logout_params iqn_target_name ip_portal_addr)) in
      (t, e)

  -- The loop over the targets.
  unfoldable pub deactivate_iscsi_target_list : S → Str → List Str → S × Deactivated
  unfolding run_iscsi_deactivate add_outcome
  deactivate_iscsi_target_list s ip_portal_addr [] = (s, record { results = []; errors = [] })
  deactivate_iscsi_target_list s ip_portal_addr (target ∷ targets) =
      let (t, e) = run_iscsi_deactivate s target ip_portal_addr in
      let (u, d) = deactivate_iscsi_target_list t ip_portal_addr targets in
      (u, add_outcome target e d)

  -- The loop over the shares: the targets that serve a volume, in order, and the names by target.
  unfoldable pub matching :
      {V : Type 0} → Dict Str V → List Share → List Str × Dict Str Str → List Str × Dict Str Str
  matching volumes [] found = found
  matching volumes (share ∷ shares) (targets, names) =
      let later = matching volumes shares (
        targets ++ share.iqn_target_name ∷ [],
        insert share.iqn_target_name share.target_only_name names,
      ) in
      let skipped = matching volumes shares (targets, names) in
      if has share.target_only_name volumes then later else skipped

  -- A target that has no name is the empty text.
  abbrev pub name_in : Dict Str Str → Str → Str
  name_in names target = elim (lookup target names) [ none ↦ [] | some n ↦ n ]

  unfoldable pub deactivate_matching_iscsi_targets :
      {V : Type 0} → S → Str → Dict Str V → List Share → S × List Str
  unfolding matching deactivate_iscsi_target_list
  deactivate_matching_iscsi_targets s ip_portal_addr volumes shares =
      let (targets, names) = matching volumes shares ([], []) in
      let (t, d) = deactivate_iscsi_target_list s ip_portal_addr targets in
      (t, map (name_in names) d.results)
