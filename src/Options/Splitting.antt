-- ===== src/Options/Splitting.antt =====
-- The texts that `strings.Split` of cmd/util_common.go cuts, and the bytes of a number's text.
use truenas_incus_ctl.Base.{
  ℕ, zero, suc, ◌/◌, ◌<◌, ◌≡◌, ◌≢◌, ◌⊎◌, refl, true, false, List, [], ◌∷◌, ◌++◌, ℤ, pos, negsuc,
  Str, split, eqb, ltb, arith, All, All-append, Bool-cases, inl, inr,
}
use truenas_incus_ctl.Base.Decimal.{itoa, digits, digits_fuel}

-- The byte does not stand in the text.
abbrev pub Lacks : ℕ → Str → Type 0
Lacks c s = All (λ x. eqb x c ≡ false) s

pub split-plain : (c : ℕ) (s : Str) → Lacks c s → split c s ≡ s ∷ []
unfolding split
split-plain c [] h = refl
split-plain c (x ∷ s) (h, l) = rw (split, split-plain c s l, h) refl

eqb_self : (c : ℕ) → eqb c c ≡ true
eqb_self c = ground arith

split-cons : (c : ℕ) (s : Str) → (p : Str) × (ps : List Str) × (split c s ≡ p ∷ ps)
unfolding split
split-cons c [] = ([], [], refl)
split-cons c (x ∷ s) =
    let (p, ps, e) = split-cons c s in
    elim (Bool-cases (eqb x c)) [
      | inl t ↦ ([], p ∷ ps, rw (split, e, t) refl)
      | inr f ↦ (x ∷ p, ps, rw (split, e, f) refl)
    ]

pub split-append : (c : ℕ) (s t : Str) → Lacks c s → split c (s ++ c ∷ t) ≡ s ∷ split c t
unfolding split
split-append c [] t h = let (p, ps, e) = split-cons c t in rw (split, e, eqb_self c) refl
split-append c (x ∷ s) t (h, l) = rw (split, split-append c s t l, h) refl

-- The bytes of a number.
digit-Lacks : (c : ℕ) → (c < b'0') ⊎ (b'9' < c) → (f n : ℕ) → Lacks c (digits_fuel f n)
unfolding digits_fuel
digit-Lacks c h zero n = tt
digit-Lacks c h (suc f) n = elim (Bool-cases (ltb n 10)) [
  | inl t ↦ rw (digits_fuel, t) (ground (arith, h, t), tt)
  | inr t ↦
      rw (digits_fuel, t)
        (All-append (λ x. eqb x c ≡ false) (digits_fuel f (n / 10)) _ (digit-Lacks c h f (n / 10))
          (ground (arith, h), tt))
]

pub itoa-Lacks : (c : ℕ) → (c < b'0') ⊎ (b'9' < c) → c ≢ b'-' → (n : ℤ) → Lacks c (itoa n)
unfolding itoa digits
itoa-Lacks c h m (pos n) = digit-Lacks c h (suc n) n
itoa-Lacks c h m (negsuc n) = (ground (arith, m), digit-Lacks c h (suc (suc n)) (suc n))
