-- ===== src/Command/Activate/Logins.antt =====
-- cmd/iscsi.go, doIscsiActivate: the targets that were logged in, and what the watch reports of them.
use mathlib.Core.Path.{subst}
use truenas_incus_ctl.Base.{
  ℕ, ◌+◌, ◌≡◌, Bool, true, false, not, List, [], ◌∷◌, none, Str, str_eq, ◌==◌, length, Bool-cases,
  inl, inr, if◌then◌else◌,
}
use truenas_incus_ctl.Base.Dict.{lookup}
use truenas_incus_ctl.Api.{Run, returns}
use truenas_incus_ctl.Iscsi.Listings.{LoginSpec}
use truenas_incus_ctl.Command.Steps.{
  Outside, Outcome, ends, errs, crashes, exits, spins, pure, and_then-ends, ◌>>◌,
}
use truenas_incus_ctl.Command.Activate.{
  Event, Waiting, Seen, watch, logged_in, log_in, log_in_all, run_tool, login_params, iqn_target_of,
  Printed, say_if,
}
use truenas_incus_ctl.Command.Activate.Reports.{
  Unique, unseen, insert-Unique, Reported, RunReported, watch-Reported,
}

ends-inj : {A : Type 0} {a b : A} → ends a ≡ ends b → a ≡ b
ends-inj e = cc

-- The targets that were logged in stand in the map once.
module _ {S F : Type 0} (w : Outside S F) (ip_addr : Str)
    (is_minimal should_print_status : Bool) where
  abbrev EndsUnique : Printed S × Outcome Waiting → Type 0
  EndsUnique r = (d : Waiting) → r.1 ≡ ends d → Unique d

  logged_in-EndsUnique :
      (target : Str) (outer : Waiting) (r : S × Outcome Str) (d : Waiting)
      → Unique outer
      → (logged_in w ip_addr is_minimal should_print_status target outer r).1 ≡ ends d
      → Unique d
  unfolding logged_in
  logged_in-EndsUnique target outer (s, ends out) d u e =
      subst Unique (ends-inj e) (insert-Unique target true outer u)
  logged_in-EndsUnique target outer (s, errs x) d u e = absurd (cc)
  logged_in-EndsUnique target outer (s, crashes) d u e = absurd (cc)
  logged_in-EndsUnique target outer (s, exits) d u e = absurd (cc)
  logged_in-EndsUnique target outer (s, spins) d u e = absurd (cc)

  mismatch-EndsUnique :
      (b : Bool) (line : Str) (st : Printed S) (outer : Waiting)
      → Unique outer
      → EndsUnique ((say_if b line >> pure (ends outer)) st)
  mismatch-EndsUnique true line st outer u d e = subst Unique (ends-inj e) u
  mismatch-EndsUnique false line st outer u d e = subst Unique (ends-inj e) u

  log_in-EndsUnique :
      (t : LoginSpec) (outer : Waiting) (st : Printed S)
      → Unique outer
      → EndsUnique (log_in w ip_addr is_minimal should_print_status t outer st)
  unfolding log_in
  log_in-EndsUnique t outer st u d e = elim (Bool-cases (t.remote_ip == ip_addr)) [
    | inl same ↦
        logged_in-EndsUnique (iqn_target_of t) outer
          (run_tool w (login_params (iqn_target_of t) ip_addr) st.0) d u (rw same at e)
    | inr other ↦ mismatch-EndsUnique (not is_minimal) _ st outer u d (rw other at e)
  ]

  log_in_all-EndsUnique :
      (ts : List LoginSpec) (outer : Waiting) (st : Printed S)
      → Unique outer
      → EndsUnique (log_in_all w ip_addr is_minimal should_print_status ts outer st)
  unfolding log_in_all
  log_in_all-EndsUnique [] outer st u d e = subst Unique (ends-inj e) u
  log_in_all-EndsUnique (t ∷ ts) outer st u d e =
      let r = log_in w ip_addr is_minimal should_print_status t outer st in
      let (now, first, rest) = and_then-ends r _ d e in
      log_in_all-EndsUnique ts now r.0 (log_in-EndsUnique t outer st u now first) d rest

  counts :
      (r : Run Seen) (lines : List Str) (before left : Waiting) (seen : Str → Bool)
      → r ≡ returns (lines, left)
      → RunReported is_minimal should_print_status r before seen
      → (length lines + length left ≡ length before)
        × ((k : Str) → lookup k left ≡ (if seen k then none else lookup k before))
  counts r lines before left seen e h =
      let q : Reported is_minimal should_print_status lines before left seen =
        subst (λ x. RunReported is_minimal should_print_status x before seen) e h in
      (q.counted, q.gone)

  -- doIscsiActivate prints one line for each target that was logged in and whose device it sees, and
  -- times out for those that no round of the watch sees, and for no others.
  pub devices_reported :
      (ts : List LoginSpec) (st : Printed S) (n : ℕ) (events : ℕ → Event) (targets left : Waiting)
      (lines : List Str)
      → (log_in_all w ip_addr is_minimal should_print_status ts [] st).1 ≡ ends targets
      → watch is_minimal should_print_status ip_addr n events targets ≡ returns (lines, left)
      → (length lines + length left ≡ length targets)
        × ((k : Str)
            → lookup k left ≡ (if not (unseen ip_addr n events k) then none else lookup k targets))
  devices_reported ts st n events targets left lines logins e =
      counts _ lines targets left (λ k. not (unseen ip_addr n events k)) e
        (watch-Reported is_minimal should_print_status ip_addr n events targets
          (log_in_all-EndsUnique ts [] st tt targets logins))
