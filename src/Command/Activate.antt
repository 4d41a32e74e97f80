-- ===== src/Command/Activate.antt =====
-- cmd/iscsi.go: doIscsiActivate. The watch for the devices is a loop over what each of its rounds
-- sees; what the rounds see is an argument.
pub mod Reports
pub mod Logins
use truenas_incus_ctl.Base.{
  ℕ, zero, suc, Bool, true, ◌||◌, not, List, [], ◌∷◌, ◌++◌, Option, none, some, Str, str_eq, ◌==◌,
  codes, if◌then◌else◌,
}
use truenas_incus_ctl.Base.Dict.{Dict, insert, erase, has}
use truenas_incus_ctl.Api.{Run, returns, panics}
use truenas_incus_ctl.Iscsi.Listings.{Share, LoginSpec, iterate_activated_iscsi_shares}
use truenas_incus_ctl.Iscsi.Tool.{run_iscsi_admin_tool}
use truenas_incus_ctl.Command.Steps.{Outside, Outcome, ends, errs, crashes, M, pure, ◌>>=◌, ◌>>◌}

-- The state of the session and the lines that were printed.
abbrev pub Printed : Type 0 → Type 0
Printed S = S × List Str

module _ {S : Type 0} where
  abbrev pub say : Str → M (Printed S) (Unit {0})
  say line (s, lines) = ((s, lines ++ line ∷ []), ends tt)

  abbrev pub say_all : List Str → M (Printed S) (Unit {0})
  say_all new (s, lines) = ((s, lines ++ new), ends tt)

  abbrev pub say_if : Bool → Str → M (Printed S) (Unit {0})
  say_if b line = if b then say line else pure (ends tt)

  -- A step that prints nothing.
  abbrev pub silent : {A : Type 0} → M S A → M (Printed S) A
  silent m (s, lines) = let (t, out) = m s in ((t, lines), out)

module _ {S F : Type 0} (w : Outside S F) where
  abbrev of_tool : S × (Str × Option Str) → S × Outcome Str
  of_tool (s, (out, none)) = (s, ends out)
  of_tool (s, (out, some e)) = (s, errs e)

  unfoldable pub run_tool : List Str → M S Str
  run_tool args s =
      of_tool (run_iscsi_admin_tool w.api w.ops w.default_call_timeout w.type_error s (w.runs args))

-- What a round of the watch sees: a device that the other goroutine found (the empty names once it has
-- closed its channel), or after a second the names in "/dev/disk/by-path".
pub data Event : Type 0 where
  arrived : Str → Str → Event
  quiet : List Str → Event

abbrev pub disk_root : Str
disk_root = codes "/dev/disk/by-path"

-- `path.Join(root, fullName)`
abbrev pub full_path : Str → Str
full_path name = disk_root ++ (codes "/" ++ name)

abbrev pub max_tries : ℕ
max_tries = 30

abbrev pub Waiting : Type 0
Waiting = Dict Str Bool

-- The lines of a round, and the targets that are waited for still.
abbrev pub Seen : Type 0
Seen = List Str × Waiting

module _ (is_minimal should_print_status : Bool) where
  unfoldable pub activated_line : Str → Str
  activated_line path =
      if not is_minimal || should_print_status then codes "activated\t" ++ path else path

  -- A device whose target is waited for is printed, and not waited for any more.
  unfoldable pub see : Str → Str → Waiting → Seen
  unfolding activated_line
  see path target waiting =
      if has target waiting then (activated_line path ∷ [], erase target waiting) else ([], waiting)

  unfoldable pub see_all : List Share → Waiting → Seen
  unfolding see
  see_all [] waiting = ([], waiting)
  see_all (share ∷ shares) waiting =
      let now = see (full_path share.full_name) share.iqn_target_name waiting in
      let later = see_all shares now.1 in (now.0 ++ later.0, later.1)

  unfoldable pub see_listed : Run (List Share) → Waiting → Run Seen
  unfolding see_all
  see_listed panics waiting = panics
  see_listed (returns shares) waiting = returns (see_all shares waiting)

  unfoldable pub watch_round : Str → Event → Waiting → Run Seen
  unfolding see see_listed
  watch_round ip_addr (arrived path target) waiting = returns (see path target waiting)
  watch_round ip_addr (quiet names) waiting =
      see_listed (iterate_activated_iscsi_shares ip_addr names) waiting

  unfoldable pub prepend : List Str → Run Seen → Run Seen
  prepend lines panics = panics
  prepend lines (returns (later, waiting)) = returns (lines ++ later, waiting)

  -- The watch ends when nothing is waited for.
  unfoldable pub go_on : (Waiting → Run Seen) → Run Seen → Run Seen
  unfolding prepend
  go_on later panics = panics
  go_on later (returns (lines, [])) = returns (lines, [])
  go_on later (returns (lines, t ∷ waiting)) = prepend lines (later (t ∷ waiting))

  -- The tries that are left, and what each of them sees.
  unfoldable pub watch : Str → ℕ → (ℕ → Event) → Waiting → Run Seen
  unfolding go_on watch_round
  watch ip_addr zero events waiting = returns ([], waiting)
  watch ip_addr (suc n) events waiting =
      go_on (watch ip_addr n (λ i. events (suc i))) (watch_round ip_addr (events 0) waiting)

  abbrev pub timed_out_lines : Waiting → List Str
  timed_out_lines [] = []
  timed_out_lines ((target, _) ∷ waiting) =
      (codes "timed-out\t" ++ target) ∷ timed_out_lines waiting

  -- All that is printed after the logins.
  unfoldable pub watch_lines : Run Seen → Run (List Str)
  watch_lines panics = panics
  watch_lines (returns (lines, waiting)) =
      returns (lines ++ (if is_minimal then [] else timed_out_lines waiting))

unfoldable pub login_params : Str → Str → List Str
login_params iqn_target ip_addr =
    codes "--mode"
    ∷ codes "node"
    ∷ codes "--targetname"
    ∷ iqn_target
    ∷ codes "--portal"
    ∷ ip_addr
    ∷ codes "--login"
    ∷ []

abbrev pub iqn_target_of : LoginSpec → Str
iqn_target_of t = t.iqn ++ b':' ∷ t.target

module _ {S F : Type 0} (w : Outside S F) (ip_addr : Str)
    (is_minimal should_print_status : Bool) where
  unfoldable pub logged_in : Str → Waiting → S × Outcome Str → S × Outcome Waiting
  logged_in target outer (s, ends out) = (s, ends (insert target true outer))
  logged_in target outer (s, errs e) = (s, errs (codes "failed\t" ++ (target ++ (codes "\t" ++ e))))
  logged_in target outer (s, crashes) = (s, crashes)
  logged_in target outer (s, Outcome.exits) = (s, Outcome.exits)
  logged_in target outer (s, Outcome.spins) = (s, Outcome.spins)

  unfoldable pub log_in : LoginSpec → Waiting → M (Printed S) Waiting
  unfolding logged_in run_tool login_params
  log_in t outer =
      if t.remote_ip == ip_addr
      then silent (λ s.
        logged_in (iqn_target_of t) outer (run_tool w (login_params (iqn_target_of t) ip_addr) s))
      else do
        say_if (not is_minimal)
            (codes "IP MISMATCH: " ++ (t.remote_ip ++ (codes " != " ++ ip_addr)))
        pure (ends outer)

  -- The loop over the targets; the first login that fails ends it.
  unfoldable pub log_in_all : List LoginSpec → Waiting → M (Printed S) Waiting
  unfolding log_in
  log_in_all [] outer = pure (ends outer)
  log_in_all (t ∷ ts) outer = log_in t outer >>= log_in_all ts

  abbrev pub print_run : Run (List Str) → M (Printed S) (Unit {0})
  print_run panics = pure crashes
  print_run (returns lines) = say_all lines

  unfoldable pub await_devices : (ℕ → Event) → Waiting → M (Printed S) (Unit {0})
  unfolding watch watch_lines
  await_devices events [] =
      if not is_minimal || not should_print_status
      then pure (errs (codes "No matching iscsi shares were found"))
      else pure (ends tt)
  await_devices events (t ∷ outer) = print_run (
      watch_lines is_minimal should_print_status
        (watch is_minimal should_print_status ip_addr max_tries events (t ∷ outer)))

  unfoldable pub do_iscsi_activate : (ℕ → Event) → List LoginSpec → M (Printed S) (Unit {0})
  unfolding log_in_all await_devices
  do_iscsi_activate events targets = do outer ← log_in_all targets []; await_devices events outer
