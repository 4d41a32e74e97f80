-- ===== src/Iscsi/Listings.antt =====
-- cmd/iscsi_util.go: IterateActivatedIscsiShares, GetIscsiTargetsFromDiscovery and
-- GetIscsiTargetsFromSession, which read names of devices and what iscsiadm prints.
use truenas_incus_ctl.Base.{
  ℕ, suc, ◌+◌, ◌-◌, Bool, true, false, ◌&&◌, List, [], ◌∷◌, ◌++◌, Option, none, some, Str, str_eq,
  codes, split, index_of, last_index_of, index_str, has_prefix, has_suffix, is_empty, length, take,
  drop, eqb, leb, ltb, if◌then◌else◌,
}
use truenas_incus_ctl.Base.Dict.{Dict, has}
use truenas_incus_ctl.Api.{Run, returns, panics}
use truenas_incus_ctl.Iscsi.TargetNames.{strip_ip_v6_brackets}

-- `s[a:b]` and `s[a:]`; `none` is a slice out of range.
unfoldable pub slice : ℕ → ℕ → Str → Option Str
slice a b s = if leb a b && leb b (length s) then some (take (b - a) (drop a s)) else none

unfoldable pub slice_from : ℕ → Str → Option Str
slice_from a s = if leb a (length s) then some (drop a s) else none

-- The arguments of the callback, but for the folder.
pub record Share : Type 0 where
  pub full_name : Str
  pub ip_portal_addr : Str
  pub iqn_target_name : Str
  pub target_only_name : Str

-- What follows the first ":", or all.
unfoldable pub after_colon : Str → Str
after_colon s = elim (index_of b':' s) [ none ↦ s | some i ↦ drop (suc i) s ]

-- A round of a loop that skips an entry, or goes on with it, or panics.
pub data Round (A : Type 0) : Type 0 where
  skips : Round A
  takes : A → Round A
  fails : Round A

unfoldable pub share_at : Str → ℕ → Option Str → Round Share
unfolding slice after_colon
share_at name path_start none = fails
share_at name path_start (some addr) = elim (slice (path_start + 7) (length name - 6) name) [
  | none ↦ fails
  | some iqn ↦ takes (record {
    full_name = name;
    ip_portal_addr = addr;
    iqn_target_name = iqn;
    target_only_name = after_colon iqn;
  })
]

-- The start of "-iscsi-iqn." and the address, for an address that is given and for none.
unfoldable pub share_of : Str → Str → Round Share
unfolding share_at
share_of addr name =
    if is_empty addr
    then elim (index_str (codes "-iscsi-iqn.") name) [
      | none ↦ skips
      | some i ↦ share_at name i (slice 3 i name)
    ]
    else if has_prefix (drop (3 + length addr) name) (codes "-iscsi-iqn.")
    then share_at name (3 + length addr) (some addr)
    else skips

unfoldable pub activated_share : Str → Str → Round Share
unfolding share_of
activated_share addr name =
    if has_suffix name (codes "-lun-0") && has_prefix name (codes "ip-" ++ addr)
    then share_of addr name
    else skips

module _ {A : Type 0} where
  unfoldable pub add_round : Round A → Run (List A) → Run (List A)
  add_round fails later = panics
  add_round skips later = later
  add_round (takes a) panics = panics
  add_round (takes a) (returns later) = returns (a ∷ later)

  unfoldable pub all_rounds : (Str → Round A) → List Str → Run (List A)
  unfolding add_round
  all_rounds f [] = returns []
  all_rounds f (l ∷ ls) = add_round (f l) (all_rounds f ls)

-- The calls of the callback, in order, for the names in "/dev/disk/by-path".
unfoldable pub iterate_activated_iscsi_shares : Str → List Str → Run (List Share)
unfolding all_rounds activated_share
iterate_activated_iscsi_shares opt_ip_portal_addr names =
    all_rounds (activated_share (strip_ip_v6_brackets opt_ip_portal_addr)) names

-- `typeIscsiLoginSpec`
pub record LoginSpec : Type 0 where
  pub remote_ip : Str
  pub iqn : Str
  pub target : Str

unfoldable pub spec_of : Bool → Str → Option Str → Option Str → Round LoginSpec
spec_of true target (some remote_ip) (some iqn) =
    takes (record { remote_ip = remote_ip; iqn = iqn; target = target })
spec_of true target _ _ = fails
spec_of false target _ _ = skips

-- The position of the comma, if there is one before the space.
unfoldable pub comma_before : Option ℕ → ℕ → ℕ
comma_before none space = space
comma_before (some comma) space = if ltb space comma then space else comma

module _ {V : Type 0} (volumes : Dict Str V) where
  unfoldable pub discovered : Str → ℕ → ℕ → Round LoginSpec
  unfolding spec_of slice
  discovered l space comma = elim (index_of b':' (drop comma l)) [
    | none ↦ skips
    | some sep ↦
        let target = drop (comma + sep + 1) l in
        spec_of (has target volumes) target (slice 0 comma l) (slice (space + 1) (comma + sep) l)
  ]

  -- A line of a discovery.
  unfoldable pub discovery_line : Str → Round LoginSpec
  unfolding discovered comma_before
  discovery_line l = elim (index_of b' ' l) [
    | none ↦ skips
    | some space ↦ discovered l space (comma_before (index_of b',' l) space)
  ]

  unfoldable pub get_iscsi_targets_from_discovery : Str → Run (List LoginSpec)
  unfolding all_rounds discovery_line
  get_iscsi_targets_from_discovery out = all_rounds discovery_line (split b'\n' out)

  unfoldable pub session_target : Option Str → Option Str → Round LoginSpec
  unfolding spec_of
  session_target (some addr) (some full_name) = elim (index_of b':' full_name) [
    | none ↦ skips
    | some colon ↦
        let target = drop (suc colon) full_name in
        spec_of (has target volumes) target (some addr) (some (take colon full_name))
  ]
  session_target _ _ = fails

  -- The positions of the first space and of the comma count from the start of the address, that of
  -- the last space from the start of the line.
  unfoldable pub session_at : Str → ℕ → ℕ → ℕ → ℕ → Round LoginSpec
  unfolding session_target slice
  session_at l start space comma last =
      let end = if eqb last space then length l else last in
      session_target (slice start (start + comma) l) (slice (start + space + 1) end l)

  unfoldable pub session_from : Str → ℕ → Option Str → Round LoginSpec
  unfolding session_at comma_before
  session_from l start none = fails
  session_from l start (some tail) = elim (index_of b' ' tail) [
    | none ↦ skips
    | some space ↦ elim (last_index_of b' ' l) [
      | none ↦ fails
      | some last ↦ session_at l start space (comma_before (index_of b',' tail) space) last
    ]
  ]

  -- A line of the list of sessions.
  unfoldable pub session_line : Str → Round LoginSpec
  unfolding session_from slice_from
  session_line l = elim (index_of b']' l) [
    | none ↦ skips
    | some i ↦ session_from l (i + 2) (slice_from (i + 2) l)
  ]

  unfoldable pub get_iscsi_targets_from_session : Str → Run (List LoginSpec)
  unfolding all_rounds session_line
  get_iscsi_targets_from_session out = all_rounds session_line (split b'\n' out)
