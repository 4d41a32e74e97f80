-- ===== src/RealSession/Removal.antt =====
-- core/real_api.go: what removal by swapping with the last entry does to the list of jobs.
use truenas_incus_ctl.Base.{
  ℕ, zero, suc, ◌+◌, ◌≤◌, ◌<◌, ◌≡◌, refl, sym, ap, ◌∙◌, ◌⊎◌, inl, inr, Bool, true, false, List, [],
  ◌∷◌, ◌++◌, none, some, ℤ, int_eq, negsuc, ◌==◌, eq_refl, length, get_elem?, set, take,
  if◌then◌else◌, arith, Bool-cases, Option-cases, length-append, take-length-append, length-set,
}
use mathlib.Core.Path.{subst}
use truenas_incus_ctl.RealSession.{last_or, swap_remove, sweep, remove_job}

abbrev pub bit : Bool → ℕ
bit true = 1
bit false = 0

-- How often a job stands in a list.
unfoldable pub count : ℤ → List ℤ → ℕ
count a [] = 0
count a (x ∷ xs) = bit (x == a) + count a xs

count-append : (a : ℤ) (xs ys : List ℤ) → count a (xs ++ ys) ≡ count a xs + count a ys
unfolding count
count-append a [] ys = omega arith
count-append a (x ∷ xs) ys = omega (arith, count-append a xs ys)

-- A list that is not empty, seen from its end.
snoc : (x : ℤ) (xs : List ℤ) → (ys : List ℤ) × (z : ℤ) × (x ∷ xs ≡ ys ++ z ∷ [])
snoc x [] = ([], x, refl)
snoc x (y ∷ xs) = let (ys, z, e) = snoc y xs in (x ∷ ys, z, ap (λ (l : List ℤ). x ∷ l) e)

last_or-append : (d z : ℤ) (ys : List ℤ) → last_or d (ys ++ z ∷ []) ≡ z
unfolding last_or
last_or-append d z [] = refl
last_or-append d z (y ∷ ys) = last_or-append y z ys

-- Writing over the last entry, or over an earlier one.
set_last : (ys : List ℤ) (z v : ℤ) → set (ys ++ z ∷ []) (length ys) v ≡ ys ++ v ∷ []
set_last [] z v = refl
set_last (y ∷ ys) z v = ap (λ (l : List ℤ). y ∷ l) (set_last ys z v)

set_earlier :
    (ys : List ℤ) (z v : ℤ) (i : ℕ) → i < length ys → set (ys ++ z ∷ []) i v ≡ set ys i v ++ z ∷ []
set_earlier [] z v i h = absurd (omega arith)
set_earlier (y ∷ ys) z v zero h = refl
set_earlier (y ∷ ys) z v (suc i) h = ap (λ (l : List ℤ). y ∷ l) (set_earlier ys z v i (omega arith))

count-set :
    (a v : ℤ) (ys : List ℤ) (i : ℕ) {j : ℤ}
    → get_elem? ys i ≡ some j
    → count a (set ys i v) + bit (j == a) ≡ count a ys + bit (v == a)
unfolding count
count-set a v [] i e = absurd (cc)
count-set a v (y ∷ ys) zero e = ground arith
count-set a v (y ∷ ys) (suc i) e = omega (arith, count-set a v ys i e)

get_elem?-snoc :
    (ys : List ℤ) (z : ℤ) (i : ℕ) {j : ℤ}
    → get_elem? (ys ++ z ∷ []) i ≡ some j
    → ((i < length ys) × (get_elem? ys i ≡ some j)) ⊎ ((i ≡ length ys) × (z ≡ j))
get_elem?-snoc [] z zero e = ground arith
get_elem?-snoc [] z (suc i) e = absurd (cc)
get_elem?-snoc (y ∷ ys) z zero e = inl (omega arith, e)
get_elem?-snoc (y ∷ ys) z (suc i) e = elim (get_elem?-snoc ys z i e) [
  | inl (h, f) ↦ inl (omega (arith, h), f)
  | inr (h, f) ↦ inr (omega (arith, h), f)
]

-- What `swap_remove` does, on a list seen from its end.
length-snoc : (ys : List ℤ) (z : ℤ) → length (ys ++ z ∷ []) ≡ length ys + 1
length-snoc ys z = length-append ys (z ∷ [])

swap_remove_lem :
    (ys : List ℤ) (z : ℤ) (i : ℕ)
    → swap_remove (ys ++ z ∷ []) i ≡ take (length ys) (set (ys ++ z ∷ []) i z)
unfolding swap_remove
swap_remove_lem ys z i =
    ap (λ (n : ℕ). take n (set (ys ++ z ∷ []) i (last_or (negsuc 0) (ys ++ z ∷ []))))
      (omega (arith, length-snoc ys z))
    ∙ ap (λ (v : ℤ). take (length ys) (set (ys ++ z ∷ []) i v)) (last_or-append (negsuc 0) z ys)

swap_remove_earlier :
    (ys : List ℤ) (z : ℤ) (i : ℕ) → i < length ys → swap_remove (ys ++ z ∷ []) i ≡ set ys i z
swap_remove_earlier ys z i h =
    rw (swap_remove_lem ys z i, set_earlier ys z z i h, sym (length-set ys i z))
      (take-length-append (set ys i z) (z ∷ []))

swap_remove_last : (ys : List ℤ) (z : ℤ) → swap_remove (ys ++ z ∷ []) (length ys) ≡ ys
swap_remove_last ys z =
    rw (swap_remove_lem ys z (length ys), set_last ys z z) (take-length-append ys (z ∷ []))

-- One entry fewer, and that is the one at the place.
swap_remove-snoc :
    (ys : List ℤ) (z : ℤ) (i : ℕ) {j : ℤ}
    → get_elem? (ys ++ z ∷ []) i ≡ some j
    → (length (swap_remove (ys ++ z ∷ []) i) ≡ length ys)
      × ((a : ℤ) → count a (swap_remove (ys ++ z ∷ []) i) + bit (j == a) ≡ count a (ys ++ z ∷ []))
unfolding count
swap_remove-snoc ys z i {j} e = elim (get_elem?-snoc ys z i e) [
  | inl (h, f) ↦
      rw (swap_remove_earlier ys z i h)
        (length-set ys i z, λ a. omega (arith, count-append a ys (z ∷ []), count-set a z ys i f))
  | inr (h, f) ↦
      rw (h, swap_remove_last ys z, f) (refl, λ a. omega (arith, count-append a ys (j ∷ [])))
]

pub swap_remove-counts :
    (xs : List ℤ) (i : ℕ) {j : ℤ}
    → get_elem? xs i ≡ some j
    → (suc (length (swap_remove xs i)) ≡ length xs)
      × ((a : ℤ) → count a (swap_remove xs i) + bit (j == a) ≡ count a xs)
swap_remove-counts [] i e = absurd (cc)
swap_remove-counts (x ∷ xs) i {j} e =
    let (ys, z, f) = snoc x xs in
    let (l, c) = swap_remove-snoc ys z i (subst (λ (l : List ℤ). get_elem? l i ≡ some j) f e) in
    subst
      (λ (l : List ℤ).
        (suc (length (swap_remove l i)) ≡ length l)
        × ((a : ℤ) → count a (swap_remove l i) + bit (j == a) ≡ count a l))
      (sym f) (omega (arith, l, length-snoc ys z), c)

take-count :
    (a : ℤ) (xs : List ℤ) (i : ℕ) {j : ℤ}
    → get_elem? xs i ≡ some j
    → count a (take (suc i) xs) ≡ count a (take i xs) + bit (j == a)
unfolding count
take-count a [] i e = absurd (cc)
take-count a (x ∷ xs) zero e = ground arith
take-count a (x ∷ xs) (suc i) e = omega (arith, take-count a xs i e)

count-entry :
    (a : ℤ) (xs : List ℤ) (i : ℕ) {j : ℤ} → get_elem? xs i ≡ some j → bit (j == a) ≤ count a xs
count-entry a xs i e = omega (arith, (swap_remove-counts xs i e).1 a)

take_all : (xs : List ℤ) (i : ℕ) → length xs ≤ i → take i xs ≡ xs
take_all [] zero h = refl
take_all [] (suc i) h = refl
take_all (x ∷ xs) zero h = absurd (omega arith)
take_all (x ∷ xs) (suc i) h = ap (λ (l : List ℤ). x ∷ l) (take_all xs i (omega arith))

get_elem?-none : (xs : List ℤ) (i : ℕ) → get_elem? xs i ≡ none → length xs ≤ i
get_elem?-none [] i e = omega arith
get_elem?-none (x ∷ xs) zero e = absurd (cc)
get_elem?-none (x ∷ xs) (suc i) e = omega (arith, get_elem?-none xs i e)

-- The rounds of the loop.
module _ (test : ℤ → Bool) (n i : ℕ) (xs : List ℤ) where
  pub sweep-past : get_elem? xs i ≡ none → sweep test (suc n) i xs ≡ (xs, 0)
  unfolding sweep
  sweep-past e = rw (sweep, e) refl

  pub sweep-kept :
      {j : ℤ}
      → get_elem? xs i ≡ some j
      → test j ≡ false
      → sweep test (suc n) i xs ≡ sweep test n (suc i) xs
  unfolding sweep
  sweep-kept e f = rw (sweep, e, f) refl

  pub sweep-removed :
      {j : ℤ}
      → get_elem? xs i ≡ some j
      → test j ≡ true
      → sweep test (suc n) i xs ≡ (
        (sweep test n (suc i) (swap_remove xs i)).0,
        suc (sweep test n (suc i) (swap_remove xs i)).1,
      )
  unfolding sweep
  sweep-removed e t = rw (sweep, e, t) refl

-- Where the job is not in the list, nothing is removed.
sweep-absent :
    (a : ℤ) (n i : ℕ) (xs : List ℤ) → count a xs ≡ 0 → sweep (λ j. j == a) n i xs ≡ (xs, 0)
unfolding sweep
sweep-absent a zero i xs h = refl
sweep-absent a (suc n) i xs h = elim (Option-cases (get_elem? xs i)) [
  | inl e ↦ sweep-past (λ j. j == a) n i xs e
  | inr (j, e) ↦ elim (Bool-cases (j == a)) [
    | inl t ↦ absurd (omega (arith, count-entry a xs i e, ap bit t))
    | inr f ↦ rw (sweep-kept (λ j. j == a) n i xs e f) (sweep-absent a n (suc i) xs h)
  ]
]

-- What is left when one entry, the job, is removed.
abbrev pub OneRemoved : ℤ → List ℤ → List ℤ × ℕ → Type 0
OneRemoved a xs r =
    (r.1 ≡ 1) × (suc (length r.0) ≡ length xs) × ((b : ℤ) → count b r.0 + bit (a == b) ≡ count b xs)

removed_here :
    (a : ℤ) (n i : ℕ) (xs : List ℤ)
    → count a xs ≡ 1
    → get_elem? xs i ≡ some a
    → OneRemoved a xs (sweep (λ j. j == a) (suc n) i xs)
removed_here a n i xs h e =
    let (l, c) = swap_remove-counts xs i e in
    rw
      (
        sweep-removed (λ j. j == a) n i xs e (eq_refl a),
        sweep-absent a n (suc i) (swap_remove xs i) (omega (arith, c a, h, ap bit (eq_refl a))),
      )
      (refl, l, c)

-- Where it stands in the list once, at a place that is still to come, it is removed and no other.
sweep-present :
    (a : ℤ) (n i : ℕ) (xs : List ℤ)
    → count a xs ≡ 1
    → count a (take i xs) ≡ 0
    → length xs ≤ i + n
    → OneRemoved a xs (sweep (λ j. j == a) n i xs)
sweep-present a zero i xs h t l =
    absurd (omega (arith, h, t, ap (count a) (take_all xs i (omega (arith, l)))))
sweep-present a (suc n) i xs h t l = elim (Option-cases (get_elem? xs i)) [
  | inl e ↦ absurd (omega (arith, h, t, ap (count a) (take_all xs i (get_elem?-none xs i e))))
  | inr (j, e) ↦ elim (Bool-cases (j == a)) [
    | inl y ↦ removed_here a n i xs h (e ∙ ap (λ (b : ℤ). some b) ((int_eq.beq_iff j a).0 y))
    | inr f ↦ rw (sweep-kept (λ j. j == a) n i xs e f) (
        sweep-present a n (suc i) xs h (omega (arith, t, take-count a xs i e, ap bit f))
          (omega (arith, l)))
  ]
]

pub remove_job-absent : (a : ℤ) (xs : List ℤ) → count a xs ≡ 0 → remove_job a xs ≡ (xs, 0)
unfolding remove_job
remove_job-absent a xs h = sweep-absent a (length xs) 0 xs h

pub remove_job-present : (a : ℤ) (xs : List ℤ) → count a xs ≡ 1 → OneRemoved a xs (remove_job a xs)
unfolding remove_job count
remove_job-present a xs h = sweep-present a (length xs) 0 xs h refl (omega arith)

at_most_one : (n : ℕ) → n ≤ 1 → (n ≡ 0) ⊎ (n ≡ 1)
at_most_one zero h = inl refl
at_most_one (suc n) h = inr (omega arith)

-- What is removed for a job that the list holds once at most.
pub remove_job_lem :
    (a : ℤ) (xs : List ℤ)
    → count a xs ≤ 1
    → ((remove_job a xs).1 ≡ count a xs)
      × ((b : ℤ) → count b (remove_job a xs).0 ≡ (if a == b then 0 else count b xs))
remove_job_lem a xs h = elim (at_most_one (count a xs) h) [
  | inl z ↦ rw (remove_job-absent a xs z) (
    sym z,
    λ b. elim (Bool-cases (a == b)) [
      | inl t ↦ rw t (ap (λ (c : ℤ). count c xs) (sym ((int_eq.beq_iff a b).0 t)) ∙ z)
      | inr f ↦ rw f refl
    ],
  )
  | inr o ↦
      let (n, l, c) = remove_job-present a xs o in
      (
        n ∙ sym o,
        λ b. elim (Bool-cases (a == b)) [
          | inl t ↦ rw t (
              omega
                (arith, c b, ap bit t, o, ap (λ (c : ℤ). count c xs) ((int_eq.beq_iff a b).0 t)))
          | inr f ↦ rw f (omega (arith, c b, ap bit f))
        ],
      )
]
