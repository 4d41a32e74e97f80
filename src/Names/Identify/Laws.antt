-- ===== src/Names/Identify/Laws.antt =====
-- core/util.go, IdentifyObject: exactly which arguments name which dataset.
use mathlib.Core.Path.{subst, ap₂}
use truenas_incus_ctl.Base.{
  ℕ, zero, suc, ◌+◌, ◌-◌, ◌*◌, ◌<◌, ◌≡◌, ◌≢◌, ◌↔◌, refl, sym, ap, ◌∙◌, inl, inr, ◌⊎◌, false, [],
  ◌∷◌, ◌++◌, append_assoc, append-nil, Option, none, some, arith, Str, eqb, length, take, replicate,
  index_of, last_index_of, eqb_iff, Bool-cases, Option-cases, length-append, length-replicate,
  take-length-append,
}
use truenas_incus_ctl.Base.Decimal.{atoi, parse_digits, parse_unsigned, positive_int, negative_int}
use truenas_incus_ctl.Names.Identify.Defs.{
  dataset, is_number, by_slash, by_at, identify_fuel, identify_object,
}

-- A dataset's name as the API knows it: "pool/rest", with no "@", no "/" at either end.
pub record IsDataset (d : Str) : Type 0 where
  pub no_at : index_of b'@' d ≡ none
  pub no_leading_slash : index_of b'/' d ≢ some 0
  pub slash : ℕ
  pub has_slash : last_index_of b'/' d ≡ some (suc slash)
  pub no_trailing_slash : suc (suc slash) < length d

abbrev pub slashes : ℕ → Str
slashes k = replicate k b'/'

take-last :
    (c : ℕ) (s : Str) (i : ℕ)
    → last_index_of c s ≡ some i
    → suc i ≡ length s
    → take i s ++ c ∷ [] ≡ s
unfolding last_index_of
take-last c [] i e h = absurd (cc)
take-last c (x ∷ []) zero e h = ground (arith, eqb_iff x c)
take-last c (x ∷ []) (suc i) e h = absurd (omega arith)
take-last c (x ∷ y ∷ s) zero e h = absurd (omega arith)
take-last c (x ∷ y ∷ s) (suc i) e h =
    ap (λ (t : Str). x ∷ t) (take-last c (y ∷ s) i (ground arith) (omega arith))

index-of-append :
    (c : ℕ) (s t : Str) → index_of c s ≡ none → index_of c t ≡ none → index_of c (s ++ t) ≡ none
unfolding index_of
index-of-append c [] t h k = k
index-of-append c (x ∷ s) t h k = ground (arith, index-of-append c s t)

index-of-slashes : (k : ℕ) → index_of b'@' (slashes k) ≡ none
unfolding index_of
index-of-slashes zero = refl
index-of-slashes (suc k) = ground (arith, index-of-slashes k)

last-index-append :
    (c : ℕ) (s t : Str) (i : ℕ)
    → last_index_of c t ≡ some i
    → last_index_of c (s ++ t) ≡ some (length s + i)
unfolding last_index_of
last-index-append c [] t i h = h ∙ ground arith
last-index-append c (x ∷ s) t i h = ground (arith, last-index-append c s t i h)

last-index-slashes : (k : ℕ) → last_index_of b'/' (slashes (suc k)) ≡ some k
unfolding last_index_of
last-index-slashes zero = refl
last-index-slashes (suc k) = ground (arith, last-index-slashes k)

-- A text with a "/" is no number.
parse-digits-slash :
    (a : ℕ) (s : Str) {i : ℕ} → last_index_of b'/' s ≡ some i → parse_digits a s ≡ none
unfolding parse_digits last_index_of
parse-digits-slash a [] h = absurd (cc)
parse-digits-slash a (x ∷ s) h = elim (Option-cases (last_index_of b'/' s)) [
  | inl n ↦ ground arith
  | inr (j, p) ↦ ground (arith, parse-digits-slash (a * 10 + (x - b'0')) s p)
]

parse_unsigned-slash : (s : Str) {i : ℕ} → last_index_of b'/' s ≡ some i → parse_unsigned s ≡ none
unfolding parse_unsigned
parse_unsigned-slash [] h = refl
parse_unsigned-slash (c ∷ s) h = parse-digits-slash 0 (c ∷ s) h

last-index-tail :
    (c x : ℕ) (s : Str) (i : ℕ)
    → last_index_of c (x ∷ s) ≡ some (suc i)
    → last_index_of c s ≡ some i
unfolding last_index_of
last-index-tail c x s i h = ground arith

slash_not_number :
    (c : ℕ) (s : Str) (i : ℕ)
    → last_index_of b'/' (c ∷ s) ≡ some (suc i)
    → is_number (c ∷ s) ≡ false
unfolding atoi positive_int negative_int
slash_not_number c s i h =
    ground
      (arith, parse_unsigned-slash (c ∷ s) h, parse_unsigned-slash s (last-index-tail b'/' c s i h))

last-index-lt : (c : ℕ) (s : Str) (i : ℕ) → last_index_of c s ≡ some i → i < length s
unfolding last_index_of
last-index-lt c [] i h = absurd (cc)
last-index-lt c (x ∷ s) zero h = omega arith
last-index-lt c (x ∷ s) (suc i) h = omega (arith, last-index-lt c s i (last-index-tail c x s i h))

head_test : (b c : ℕ) (s : Str) → index_of b (c ∷ s) ≢ some 0 → eqb c b ≡ false
unfolding index_of
head_test b c s h = elim (Bool-cases (eqb c b)) [
  | inl e ↦ absurd (h (rw (e, index_of)))
  | inr e ↦ e
]

-- What is left when the tests on the first byte and on "@" have failed.
reach_slash :
    (n c : ℕ) (s : Str)
    → index_of b'@' (c ∷ s) ≡ none
    → index_of b'/' (c ∷ s) ≢ some 0
    → is_number (c ∷ s) ≡ false
    → identify_fuel (suc n) (c ∷ s)
      ≡ by_slash (c ∷ s) (last_index_of b'/' (c ∷ s)) (identify_fuel n (take (length s) (c ∷ s)))
unfolding identify_fuel by_at
reach_slash n c s na nl d = rw (d, head_test b'/' c s nl, head_test b'@' c s (λ e. cc (na, e)), na)

-- A dataset's name is found under enough fuel as it is.
plain_dataset : (n : ℕ) (d : Str) → IsDataset d → identify_fuel (suc n) d ≡ (dataset, d)
unfolding by_slash
plain_dataset n [] w = absurd (omega (arith, w.no_trailing_slash))
plain_dataset n (c ∷ s) w =
    reach_slash n c s w.no_at w.no_leading_slash (slash_not_number c s w.slash w.has_slash)
    ∙ rw w.has_slash (ground (arith, w.no_trailing_slash))

-- One slash at the end is dropped, if the text does not begin with a slash.
trailing_slash :
    (n c : ℕ) (s : Str) (k : ℕ)
    → index_of b'@' (c ∷ s) ≡ none
    → index_of b'/' (c ∷ s) ≢ some 0
    → last_index_of b'/' (c ∷ s) ≡ some (suc k)
    → suc k ≡ length s
    → identify_fuel (suc n) (c ∷ s) ≡ identify_fuel n (take (length s) (c ∷ s))
unfolding by_slash
trailing_slash n c s k na nl e h =
    reach_slash n c s na nl (slash_not_number c s k e) ∙ rw e (ground arith)

Named : Str → Str → Type 0
Named s d = (k : ℕ) × (s ≡ d ++ slashes k) × IsDataset d

-- What a text is that is taken for a dataset in one round.
record Round (n c : ℕ) (s d : Str) : Type 0 where
  no_at : index_of b'@' (c ∷ s) ≡ none
  no_leading : index_of b'/' (c ∷ s) ≢ some 0
  place : ℕ
  has_slash : last_index_of b'/' (c ∷ s) ≡ some (suc place)
  result :
      ((suc place ≡ length s) × (identify_fuel n (take (length s) (c ∷ s)) ≡ (dataset, d)))
      ⊎ ((suc place ≢ length s) × (c ∷ s ≡ d))

head_test_fails : (b c : ℕ) (s : Str) → eqb c b ≡ false → index_of b (c ∷ s) ≢ some 0
unfolding index_of
head_test_fails b c s h e = ground arith

slash-Round :
    (n c : ℕ) (s d : Str) (o : Option ℕ)
    → index_of b'@' (c ∷ s) ≡ none
    → index_of b'/' (c ∷ s) ≢ some 0
    → last_index_of b'/' (c ∷ s) ≡ o
    → by_slash (c ∷ s) o (identify_fuel n (take (length s) (c ∷ s))) ≡ (dataset, d)
    → Round n c s d
unfolding by_slash
slash-Round n c s d none na nl l e = absurd (cc)
slash-Round n c s d (some zero) na nl l e = absurd (cc)
slash-Round n c s d (some (suc p)) na nl l e = record {
  no_at = na;
  no_leading = nl;
  place = p;
  has_slash = l;
  result = ground arith;
}

at-Round :
    (n c : ℕ) (s d : Str) (o : Option ℕ)
    → index_of b'/' (c ∷ s) ≢ some 0
    → index_of b'@' (c ∷ s) ≢ some 0
    → index_of b'@' (c ∷ s) ≡ o
    → by_at
        (c ∷ s)
        o
        (by_slash (c ∷ s) (last_index_of b'/' (c ∷ s)) (identify_fuel n (take (length s) (c ∷ s))))
      ≡ (dataset, d)
    → Round n c s d
unfolding by_at
at-Round n c s d none nl na l e = slash-Round n c s d _ l nl refl e
at-Round n c s d (some zero) nl na l e = absurd (na l)
at-Round n c s d (some (suc p)) nl na l e = absurd (ground arith)

dataset-Round : (n c : ℕ) (s d : Str) → identify_fuel (suc n) (c ∷ s) ≡ (dataset, d) → Round n c s d
unfolding identify_fuel
dataset-Round n c s d e =
    at-Round n c s d (index_of b'@' (c ∷ s)) (head_test_fails b'/' c s (ground arith))
      (head_test_fails b'@' c s (ground arith)) refl (ground arith)

slashes-end : (k : ℕ) → slashes k ++ b'/' ∷ [] ≡ slashes (suc k)
slashes-end zero = refl
slashes-end (suc k) = ap (λ (t : Str). b'/' ∷ t) (slashes-end k)

Round-IsDataset :
    {n c : ℕ} {s d : Str} (r : Round n c s d) → suc r.place ≢ length s → c ∷ s ≡ d → IsDataset d
Round-IsDataset {c = c} {s = s} r inner same = subst IsDataset same (record {
  no_at = r.no_at;
  no_leading_slash = r.no_leading;
  slash = r.place;
  has_slash = r.has_slash;
  no_trailing_slash = omega (arith, last-index-lt b'/' (c ∷ s) (suc r.place) r.has_slash);
})

Named-longer :
    {n c : ℕ} {s d : Str} (r : Round n c s d)
    → suc r.place ≡ length s
    → Named (take (length s) (c ∷ s)) d
    → Named (c ∷ s) d
unfolding Named
Named-longer {c = c} {s = s} {d = d} r at_end (k, same, w) = (
  suc k,
  sym (take-last b'/' (c ∷ s) (length s) (r.has_slash ∙ ap some at_end) refl)
      ∙ ap (λ (t : Str). t ++ b'/' ∷ []) same
      ∙ append_assoc d (slashes k) (b'/' ∷ [])
      ∙ ap (λ (t : Str). d ++ t) (slashes-end k),
  w,
)

dataset_sound : (n : ℕ) (s d : Str) → identify_fuel n s ≡ (dataset, d) → Named s d
unfolding Named identify_fuel
dataset_sound zero s d e = absurd (ground arith)
dataset_sound (suc n) [] d e = absurd (ground arith)
dataset_sound (suc n) (c ∷ s) d e =
    let r = dataset-Round n c s d e in
    elim r.result [
      | inl (at_end, found) ↦
          Named-longer r at_end (dataset_sound n (take (length s) (c ∷ s)) d found)
      | inr (inner, same) ↦ (0, same ∙ sym (append-nil d), Round-IsDataset r inner same)
    ]

length-slashes : (k : ℕ) → length (slashes k) ≡ k
length-slashes k = length-replicate k b'/'

drop_slash :
    (c : ℕ) (s : Str) (k : ℕ)
    → take (length (s ++ slashes (suc k))) (c ∷ s ++ slashes (suc k)) ≡ (c ∷ s) ++ slashes k
drop_slash c s k =
    let n : length (s ++ slashes (suc k)) ≡ length ((c ∷ s) ++ slashes k) =
      omega (arith, length-append {0} s (slashes (suc k)), length-append {0} (c ∷ s) (slashes k)) in
    let e : (c ∷ s) ++ slashes (suc k) ≡ ((c ∷ s) ++ slashes k) ++ b'/' ∷ [] =
      ap (λ (t : Str). (c ∷ s) ++ t) (sym (slashes-end k))
      ∙ sym (append_assoc (c ∷ s) (slashes k) (b'/' ∷ [])) in
    ap₂ take n e ∙ take-length-append ((c ∷ s) ++ slashes k) (b'/' ∷ [])

index-of-append_ne :
    (b : ℕ) (s t : Str) → index_of b s ≢ some 0 → 0 < length s → index_of b (s ++ t) ≢ some 0
unfolding index_of
index-of-append_ne b [] t h l e = absurd (omega arith)
index-of-append_ne b (x ∷ s) t h l e = ground arith

complete_step :
    (m k : ℕ) (d : Str)
    → IsDataset d
    → identify_fuel (suc m) (d ++ slashes (suc k)) ≡ identify_fuel m (d ++ slashes k)
complete_step m k [] w = absurd (omega (arith, w.no_trailing_slash))
complete_step m k (c ∷ s) w =
    trailing_slash m c (s ++ slashes (suc k)) (length s + k)
      (index-of-append b'@' (c ∷ s) (slashes (suc k)) w.no_at (index-of-slashes (suc k)))
      (index-of-append_ne b'/' (c ∷ s) (slashes (suc k)) w.no_leading_slash (omega arith))
      (last-index-append b'/' (c ∷ s) (slashes (suc k)) k (last-index-slashes k) ∙ ground arith)
      (omega (arith, length-append {0} s (slashes (suc k)), length-slashes (suc k)))
    ∙ ap (identify_fuel m) (drop_slash c s k)

dataset_complete :
    (m k : ℕ) (d : Str) → IsDataset d → k < m → identify_fuel m (d ++ slashes k) ≡ (dataset, d)
dataset_complete zero k d w h = absurd (omega arith)
dataset_complete (suc m) zero d w h = rw (append-nil d) (plain_dataset m d w)
dataset_complete (suc m) (suc k) d w h =
    complete_step m k d w ∙ dataset_complete m k d w (omega arith)

-- An argument names the dataset `d` exactly when it is `d` with any number of slashes behind it,
-- and `d` has no "@", a "/" in it, and none at its ends.
pub identify_object-dataset_iff :
    (s d : Str)
    → (identify_object s ≡ (dataset, d)) ↔ ((k : ℕ) × (s ≡ d ++ slashes k) × IsDataset d)
unfolding identify_object Named
identify_object-dataset_iff s d = (
  dataset_sound (suc (length s)) s d,
  λ (k, same, w). rw same (
      dataset_complete (suc (length (d ++ slashes k))) k d w
        (omega (arith, length-append {0} d (slashes k), length-slashes k))),
)
