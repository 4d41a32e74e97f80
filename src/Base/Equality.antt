-- ===== src/Base/Equality.antt =====
-- Go's `==` on comparable types: an interface with instances for numbers, int64 and byte strings.
use Prim.Native.Nat.{ℕ}
use mathlib.Core.Path.{◌≡◌, refl}
use mathlib.Core.Logic.{◌↔◌, ◌≢◌}
use mathlib.Core.Bool.{Bool, true, false, ◌&&◌, ◌||◌}
use mathlib.Core.List.{List, [], ◌∷◌, ◌++◌}
use native.Mathlib.Omega.{arith}
use truenas_incus_ctl.Base.Conditions.{eqb, eqb_iff}

pub record Comparable {ℓ} (K : Type ℓ) : Type ℓ where
  pub beq : K → K → Bool
  -- The test says what the equation says.
  pub beq_iff : (x y : K) → (beq x y ≡ true) ↔ (x ≡ y)

-- An int64, by its value; `negsuc n` is -(n + 1).
pub data ℤ : Type 0 where
  pos : ℕ → ℤ
  negsuc : ℕ → ℤ

unfoldable pub int_eqb : ℤ → ℤ → Bool
int_eqb (pos a) (pos b) = eqb a b
int_eqb (negsuc a) (negsuc b) = eqb a b
int_eqb _ _ = false

pub int_eqb_iff : (a b : ℤ) → (int_eqb a b ≡ true) ↔ (a ≡ b)
unfolding int_eqb
int_eqb_iff (pos a) (pos b) = ground arith
int_eqb_iff (negsuc a) (negsuc b) = ground arith
int_eqb_iff (pos a) (negsuc b) = ground arith
int_eqb_iff (negsuc a) (pos b) = ground arith

instance abbrev pub int_eq : Comparable ℤ
int_eq = record { beq = int_eqb; beq_iff = int_eqb_iff }

abbrev pub is_neg : ℤ → Bool
is_neg (pos n) = false
is_neg (negsuc n) = true

-- A Go string is its bytes.
abbrev pub Str : Type 0
Str = List ℕ

unfoldable pub str_eqb : Str → Str → Bool
str_eqb [] [] = true
str_eqb (a ∷ s) (b ∷ t) = eqb a b && str_eqb s t
str_eqb _ _ = false

pub str_eqb_iff : (s t : Str) → (str_eqb s t ≡ true) ↔ (s ≡ t)
unfolding str_eqb
str_eqb_iff [] [] = ground arith
str_eqb_iff [] (b ∷ t) = ground arith
str_eqb_iff (a ∷ s) [] = ground arith
str_eqb_iff (a ∷ s) (b ∷ t) = ground (arith, str_eqb_iff s t)

instance abbrev pub str_eq : Comparable Str
str_eq = record { beq = str_eqb; beq_iff = str_eqb_iff }

instance abbrev pub nat_eq : Comparable ℕ
nat_eq = record { beq = eqb; beq_iff = eqb_iff }

infix 50 ◌==◌
-- `x == y`
abbrev pub ◌==◌ {ℓ} : {K : Type ℓ} ⦃c : Comparable K⦄ → K → K → Bool
◌==◌ ⦃c⦄ = c.beq

module _ {ℓ} {A : Type ℓ} ⦃e : Comparable A⦄ where
  pub eq_refl : (a : A) → (a == a) ≡ true
  eq_refl a = (e.beq_iff a a).1 refl

  pub eq_false : (a b : A) → a ≢ b → (a == b) ≡ false
  eq_false a b h = ground (arith, e.beq_iff a b)

  abbrev pub contains : List A → A → Bool
  contains [] a = false
  contains (x ∷ xs) a = x == a || contains xs a

  pub contains-append :
      (xs : List A) (y u : A) → contains (xs ++ y ∷ []) u ≡ (contains xs u || (y == u))
  contains-append [] y u = ground arith
  contains-append (x ∷ xs) y u = ground (arith, contains-append xs y u)
