-- ===== src/Base/Decimal.antt =====
-- Go's `strconv.Itoa` and `strconv.Atoi` for a 64-bit int.
use Prim.Native.Nat.{ℕ, zero, suc, ◌+◌, ◌-◌, ◌*◌, ◌/◌, ◌%◌, ◌^◌, ◌<◌}
use mathlib.Core.Path.{◌≡◌, refl, ap, ◌∙◌}
use mathlib.Core.Bool.{Bool, true, false, ◌&&◌}
use mathlib.Core.Option.{Option, none, some}
use mathlib.Core.List.{[], ◌∷◌, ◌++◌}
use native.Mathlib.Omega.{arith}
use truenas_incus_ctl.Base.Conditions.{leb, ltb, eqb, if◌then◌else◌, Bool-cases}
use mathlib.Core.Logic.{inl, inr}
use truenas_incus_ctl.Base.Equality.{ℤ, pos, negsuc, Str}

abbrev pub is_digit : ℕ → Bool
is_digit c = leb b'0' c && leb c b'9'

-- The decimal digits, most significant first; a number has fewer digits than its value plus two.
unfoldable pub digits_fuel : ℕ → ℕ → Str
digits_fuel zero n = []
digits_fuel (suc f) n = elim (ltb n 10) [
  | true ↦ (b'0' + n) ∷ []
  | false ↦ digits_fuel f (n / 10) ++ (b'0' + n % 10) ∷ []
]

unfoldable pub digits : ℕ → Str
unfolding digits_fuel
digits n = digits_fuel (suc n) n

unfoldable pub itoa : ℤ → Str
unfolding digits
itoa (pos n) = digits n
itoa (negsuc n) = b'-' ∷ digits (suc n)

unfoldable pub parse_digits : ℕ → Str → Option ℕ
parse_digits acc [] = some acc
parse_digits acc (c ∷ s) = if is_digit c then parse_digits (acc * 10 + (c - b'0')) s else none

-- At least one digit.
unfoldable pub parse_unsigned : Str → Option ℕ
unfolding parse_digits
parse_unsigned [] = none
parse_unsigned (c ∷ s) = parse_digits 0 (c ∷ s)

unfoldable pub positive_int : Option ℕ → Option ℤ
positive_int none = none
positive_int (some n) = if ltb n (2 ^ 63) then some (pos n) else none

unfoldable pub negative_int : Option ℕ → Option ℤ
negative_int none = none
negative_int (some zero) = some (pos 0)
negative_int (some (suc n)) = if ltb n (2 ^ 63) then some (negsuc n) else none

-- `none` is the error: no number, or out of the range of int64.
unfoldable pub atoi : Str → Option ℤ
unfolding parse_unsigned positive_int negative_int
atoi [] = none
atoi (c ∷ s) =
    if eqb c b'-'
    then negative_int (parse_unsigned s)
    else if eqb c b'+'
    then positive_int (parse_unsigned s)
    else positive_int (parse_unsigned (c ∷ s))

next_digit : ℕ → Option ℕ → Option ℕ
next_digit c none = none
next_digit c (some v) = if is_digit c then some (v * 10 + (c - b'0')) else none

parse_digits-append :
    (a : ℕ) (s : Str) (c : ℕ) → parse_digits a (s ++ c ∷ []) ≡ next_digit c (parse_digits a s)
unfolding parse_digits next_digit
parse_digits-append a [] c = refl
parse_digits-append a (x ∷ s) c = ground (arith, parse_digits-append (a * 10 + (x - b'0')) s c)

parse-digits_fuel : (f n : ℕ) → n < f → parse_digits 0 (digits_fuel f n) ≡ some n
unfolding digits_fuel parse_digits next_digit
parse-digits_fuel zero n h = absurd (omega arith)
parse-digits_fuel (suc f) n h = elim (Bool-cases (ltb n 10)) [
  | inl small ↦ ground arith
  | inr large ↦ ground (
    arith,
    parse-digits_fuel f (n / 10),
    parse_digits-append 0 (digits_fuel f (n / 10)) (b'0' + n % 10),
  )
]

-- A text that begins with a digit.
abbrev pub LeadsDigit : Str → Type 0
LeadsDigit t = (c : ℕ) × (s : Str) × (t ≡ c ∷ s) × (is_digit c ≡ true)

leads-append : (t u : Str) → LeadsDigit t → LeadsDigit (t ++ u)
leads-append t u (c, s, e, d) = (c, s ++ u, ap (λ x. x ++ u) e, d)

digits_fuel-head : (f n : ℕ) → LeadsDigit (digits_fuel (suc f) n)
unfolding digits_fuel
digits_fuel-head zero n = elim (Bool-cases (ltb n 10)) [
  | inl small ↦ rw (small, digits_fuel) (b'0' + n, [], refl, ground arith)
  | inr large ↦ rw (large, digits_fuel) (b'0' + n % 10, [], refl, ground arith)
]
digits_fuel-head (suc f) n = elim (Bool-cases (ltb n 10)) [
  | inl small ↦ rw (small, digits_fuel) (b'0' + n, [], refl, ground arith)
  | inr large ↦
      rw (large, digits_fuel)
        (leads-append (digits_fuel (suc f) (n / 10)) _ (digits_fuel-head f (n / 10)))
]

pub digits-head : (n : ℕ) → LeadsDigit (digits n)
unfolding digits
digits-head n = digits_fuel-head n n

parse_unsigned-cons : (t : Str) → LeadsDigit t → parse_unsigned t ≡ parse_digits 0 t
unfolding parse_unsigned
parse_unsigned-cons [] (c, s, e, d) = absurd (cc)
parse_unsigned-cons (x ∷ t) l = refl

pub parse-digits : (n : ℕ) → parse_unsigned (digits n) ≡ some n
parse-digits n =
    parse_unsigned-cons (digits n) (digits-head n)
    ∙ unfold digits in parse-digits_fuel (suc n) n (omega arith)

-- The int64 values.
abbrev pub InRange : ℤ → Type 0
InRange (pos n) = n < 2 ^ 63
InRange (negsuc n) = n < 2 ^ 63

-- Every int64 is parsed back from its decimal text.
atoi-leads : (t : Str) → LeadsDigit t → atoi t ≡ positive_int (parse_unsigned t)
unfolding atoi
atoi-leads [] (c, s, e, d) = absurd (cc)
atoi-leads (x ∷ t) (c, s, e, d) = ground arith

pub atoi-itoa : (z : ℤ) → InRange z → atoi (itoa z) ≡ some z
unfolding itoa
atoi-itoa (pos n) h =
    atoi-leads (digits n) (digits-head n)
    ∙ rw (parse-digits n) (unfold positive_int in ground arith)
atoi-itoa (negsuc n) h = unfold atoi negative_int in rw (parse-digits (suc n)) (ground arith)
