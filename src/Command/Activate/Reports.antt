-- ===== src/Command/Activate/Reports.antt =====
-- cmd/iscsi.go, doIscsiActivate: what a watch does to the targets that it waits for.
use truenas_incus_ctl.Base.{
  ℕ, zero, suc, ◌+◌, ◌≡◌, refl, Bool, true, false, not, ◌&&◌, ◌||◌, List, [], ◌∷◌, ◌++◌, none, Str,
  str_eq, ◌==◌, length, length-append, Bool-cases, inl, inr, arith, if◌then◌else◌,
}
use truenas_incus_ctl.Base.Dict.{lookup, insert, erase, has, lookup-erase, lookup-insert}
use truenas_incus_ctl.Api.{Run, returns, panics}
use truenas_incus_ctl.Iscsi.Listings.{Share, iterate_activated_iscsi_shares}
use truenas_incus_ctl.Command.Activate.{
  Event, arrived, quiet, Waiting, Seen, full_path, see, see_all, see_listed, watch_round, prepend,
  go_on, watch,
}

-- No target stands in the map twice.
abbrev pub Unique : Waiting → Type 0
Unique [] = Unit
Unique ((k, _) ∷ d) = (lookup k d ≡ none) × Unique d

-- A share of the list has the target.
abbrev shares_show : Str → List Share → Bool
shares_show k [] = false
shares_show k (share ∷ shares) = (share.iqn_target_name == k) || shares_show k shares

abbrev run_shows : Str → Run (List Share) → Bool
run_shows k panics = false
run_shows k (returns shares) = shares_show k shares

-- What a round sees has the target.
abbrev pub shows : Str → Event → Str → Bool
shows ip_addr (arrived path target) k = target == k
shows ip_addr (quiet names) k = run_shows k (iterate_activated_iscsi_shares ip_addr names)

-- None of the first rounds sees the target.
abbrev pub unseen : Str → ℕ → (ℕ → Event) → Str → Bool
unseen ip_addr zero events k = true
unseen ip_addr (suc n) events k =
    not (shows ip_addr (events 0) k) && unseen ip_addr n (λ i. events (suc i)) k

pub insert-Unique : (k : Str) (v : Bool) (d : Waiting) → Unique d → Unique (insert k v d)
unfolding insert lookup
insert-Unique k v [] u = (refl, tt)
insert-Unique k v ((j, w) ∷ d) (e, u) =
    ground
      (arith, str_eq.beq_iff j k, str_eq.beq_iff k j, lookup-insert k j v d, insert-Unique k v d u)

erase-Unique : (k : Str) (d : Waiting) → Unique d → Unique (erase k d)
unfolding erase
erase-Unique k [] u = tt
erase-Unique k ((j, w) ∷ d) (e, u) = ground (arith, lookup-erase k j d, erase-Unique k d u)

erase-missing : (k : Str) (d : Waiting) → lookup k d ≡ none → erase k d ≡ d
unfolding erase lookup
erase-missing k [] h = refl
erase-missing k ((j, w) ∷ d) h = ground (arith, erase-missing k d)

lookup-missing : (k : Str) (d : Waiting) → has k d ≡ false → lookup k d ≡ none
unfolding has
lookup-missing k d h = ground arith

nothing_left : (k : Str) → lookup {V = Bool} k [] ≡ none
unfolding lookup
nothing_left k = refl

length-erase :
    (k : Str) (d : Waiting) → Unique d → has k d ≡ true → length (erase k d) + 1 ≡ length d
unfolding erase lookup has
length-erase k [] u h = absurd (cc)
length-erase k ((j, w) ∷ d) (e, u) h =
    ground (arith, str_eq.beq_iff j k, erase-missing k d, length-erase k d u)

module _ (is_minimal should_print_status : Bool) where
  -- What a part of the watch does to the targets that are waited for: each line takes one of them
  -- away, and those that are seen are gone.
  pub record Reported (lines : List Str) (before after : Waiting) (seen : Str → Bool) : Type 0 where
    pub unique : Unique after
    pub counted : length lines + length after ≡ length before
    pub gone : (k : Str) → lookup k after ≡ (if seen k then none else lookup k before)

  see-Reported :
      (path target : Str) (d : Waiting)
      → Unique d
      → Reported
          (see is_minimal should_print_status path target d).0
          d
          (see is_minimal should_print_status path target d).1
          (λ k. target == k)
  unfolding see
  see-Reported path target d u = elim (Bool-cases (has target d)) [
    | inl e ↦ rw e (record {
      unique = erase-Unique target d u;
      counted = omega (arith, length-erase target d u e);
      gone = λ k. lookup-erase target k d;
    })
    | inr e ↦ rw e (record {
      unique = u;
      counted = omega arith;
      gone = λ k. ground (arith, str_eq.beq_iff target k, lookup-missing target d e);
    })
  ]

  then-Reported :
      {ls ms : List Str} {a b c : Waiting} (f g : Str → Bool)
      → Reported ls a b f
      → Reported ms b c g
      → Reported (ls ++ ms) a c (λ k. f k || g k)
  then-Reported {ls} {ms} f g r q = record {
    unique = q.unique;
    counted = omega (arith, r.counted, q.counted, length-append ls ms);
    gone = λ k. ground (arith, r.gone k, q.gone k);
  }

  see_all-Reported :
      (shares : List Share) (d : Waiting)
      → Unique d
      → Reported
          (see_all is_minimal should_print_status shares d).0
          d
          (see_all is_minimal should_print_status shares d).1
          (λ k. shares_show k shares)
  unfolding see_all
  see_all-Reported [] d u = record { unique = u; counted = omega arith; gone = λ k. refl }
  see_all-Reported (share ∷ shares) d u =
      let now = see-Reported (full_path share.full_name) share.iqn_target_name d u in
      then-Reported (λ k. share.iqn_target_name == k) (λ k. shares_show k shares) now
        (see_all-Reported shares _ now.unique)

  -- A part of the watch that panics reports nothing.
  abbrev pub RunReported : Run Seen → Waiting → (Str → Bool) → Type 0
  RunReported panics before seen = Unit
  RunReported (returns (lines, after)) before seen = Reported lines before after seen

  listed-Reported :
      (r : Run (List Share)) (d : Waiting)
      → Unique d
      → RunReported (see_listed is_minimal should_print_status r d) d (λ k. run_shows k r)
  unfolding see_listed
  listed-Reported panics d u = tt
  listed-Reported (returns shares) d u = see_all-Reported shares d u

  round-Reported :
      (ip_addr : Str) (e : Event) (d : Waiting)
      → Unique d
      → RunReported (watch_round is_minimal should_print_status ip_addr e d) d (shows ip_addr e)
  unfolding watch_round
  round-Reported ip_addr (arrived path target) d u = see-Reported path target d u
  round-Reported ip_addr (quiet names) d u =
      listed-Reported (iterate_activated_iscsi_shares ip_addr names) d u

  prepend-Reported :
      (lines : List Str) (r : Run Seen) {a b : Waiting} (f g : Str → Bool)
      → Reported lines a b f
      → RunReported r b g
      → RunReported (prepend is_minimal should_print_status lines r) a (λ k. f k || g k)
  unfolding prepend
  prepend-Reported lines panics f g h q = tt
  prepend-Reported lines (returns (ms, after)) f g h q = then-Reported f g h q

  -- After the round a later part reports what is left.
  go_on-Reported :
      (later : Waiting → Run Seen) (r : Run Seen) (d : Waiting) (f g : Str → Bool)
      → RunReported r d f
      → ((d' : Waiting) → Unique d' → RunReported (later d') d' g)
      → RunReported (go_on is_minimal should_print_status later r) d (λ k. f k || g k)
  unfolding go_on
  go_on-Reported later panics d f g h l = tt
  go_on-Reported later (returns (lines, [])) d f g h l = record {
    unique = tt;
    counted = h.counted;
    gone = λ k. ground (arith, h.gone k, nothing_left k);
  }
  go_on-Reported later (returns (lines, t ∷ left)) d f g h l =
      prepend-Reported lines (later (t ∷ left)) f g h (l (t ∷ left) h.unique)

  same_seen :
      (r : Run Seen) (d : Waiting) (f g : Str → Bool)
      → ((k : Str) → f k ≡ g k)
      → RunReported r d f
      → RunReported r d g
  same_seen panics d f g e h = tt
  same_seen (returns (lines, after)) d f g e h = record {
    unique = h.unique;
    counted = h.counted;
    gone = λ k. ground (arith, h.gone k, e k);
  }

  pub watch-Reported :
      (ip_addr : Str) (n : ℕ) (events : ℕ → Event) (d : Waiting)
      → Unique d
      → RunReported
          (watch is_minimal should_print_status ip_addr n events d)
          d
          (λ k. not (unseen ip_addr n events k))
  unfolding watch
  watch-Reported ip_addr zero events d u = record {
    unique = u;
    counted = omega arith;
    gone = λ k. refl;
  }
  watch-Reported ip_addr (suc n) events d u =
      same_seen _ d
        (λ k. shows ip_addr (events 0) k || not (unseen ip_addr n (λ i. events (suc i)) k)) _
        (λ k. ground arith)
        (go_on-Reported (watch is_minimal should_print_status ip_addr n (λ i. events (suc i))) _ d
          (shows ip_addr (events 0)) (λ k. not (unseen ip_addr n (λ i. events (suc i)) k))
          (round-Reported ip_addr (events 0) d u) (watch-Reported ip_addr n (λ i. events (suc i))))
