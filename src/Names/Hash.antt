-- ===== src/Names/Hash.antt =====
-- core/util.go, `MakeHashedString`: five bits of a hash make one digit. The hash functions of
-- `crypto` are parameters.
use Prim.Native.Nat.{bit_or, min}
use truenas_incus_ctl.Base.{
  ℕ, zero, suc, ◌+◌, ◌-◌, ◌*◌, ◌/◌, ◌%◌, ◌^◌, ◌≤◌, ◌<◌, ◌≡◌, refl, Bool, true, ◌&&◌, ◌||◌, [], ◌∷◌,
  Option, none, some, Str, ltb, leb, length, get_elem?, ◌>>=◌, if◌then◌else◌, arith, All,
  Bool-cases, inl, inr,
}

-- `h[i] << k` and `>> k` on a byte.
abbrev pub shift_left : ℕ → ℕ → ℕ
shift_left b k = (b * 2 ^ k) % 256

abbrev pub shift_right : ℕ → ℕ → ℕ
shift_right b k = b / 2 ^ k

unfoldable pub digit : ℕ → ℕ
digit v = (if leb 10 v then 87 else 48) + v

-- The five bits from `pos` on, of the bytes at `pos/8` and `(pos+4)/8`.
unfoldable pub five_bits : ℕ → ℕ → ℕ → ℕ
five_bits pos first last =
    bit_or (shift_right (shift_left first (pos % 8)) 3) (shift_right last (7 - (pos + 4) % 8)) % 32

unfoldable pub hash_loop : ℕ → Str → ℕ → ℕ → ℕ → Option Str
unfolding digit five_bits
hash_loop zero h needed max_bits pos = none
hash_loop (suc fuel) h needed max_bits pos =
    let rest = hash_loop fuel h needed max_bits (pos + 5) in
    if ltb pos needed && ltb pos (max_bits - 4)
    then (do
      first ← get_elem? h (pos / 8)
      last ← get_elem? h ((pos + 4) / 8)
      digits ← rest
      some (digit (five_bits pos first last) ∷ digits))
    else some []

module _ (sha256 sha512 : Str → Str) where
  -- A round makes one digit, so `length + 1` rounds are enough.
  unfoldable pub make_hashed_string : Str → ℕ → Option Str
  unfolding hash_loop
  make_hashed_string input digits =
      if ltb 256 (digits * 5)
      then hash_loop (suc digits) (sha512 input) (digits * 5) 512 0
      else hash_loop (suc digits) (sha256 input) (digits * 5) 256 0

-- A digit of the base-32 text.
unfoldable pub is_digit32 : ℕ → Bool
is_digit32 c = (leb 48 c && leb c 57) || (leb 97 c && leb c 118)

digit-digit32 : (v : ℕ) → v < 32 → is_digit32 (digit v) ≡ true
unfolding is_digit32 digit
digit-digit32 v h = ground arith

five_bits-lt : (pos first last : ℕ) → five_bits pos first last < 32
unfolding five_bits
five_bits-lt pos first last = omega arith

record Hashed (written : Option Str) (size : ℕ) : Type 0 where
  text : Str
  given : written ≡ some text
  size_is : length text ≡ size
  digits : All (λ c. is_digit32 c ≡ true) text

get_byte : (h : Str) (i : ℕ) → i < length h → (b : ℕ) × (get_elem? h i ≡ some b)
get_byte [] i e = absurd (omega arith)
get_byte (b ∷ h) zero e = (b, refl)
get_byte (b ∷ h) (suc i) e = get_byte h i (omega arith)

-- `most` digits fit into the hash.
hash_loop-Hashed :
    (fuel : ℕ) (h : Str) (n most max_bits i : ℕ)
    → length h * 8 ≡ max_bits
    → most * 5 ≤ max_bits
    → max_bits ≤ most * 5 + 4
    → i ≤ n
    → n < i + fuel
    → Hashed (hash_loop fuel h (n * 5) max_bits (i * 5)) (min n most - i)
unfolding hash_loop
hash_loop-Hashed zero h n most max_bits i a b c le d = absurd (omega (arith, le, d))
hash_loop-Hashed (suc fuel) h n most max_bits i a b c le d =
    elim (Bool-cases (ltb (i * 5) (n * 5) && ltb (i * 5) (max_bits - 4))) [
      | inl t ↦
          let more : (i < n) × (i < most) = (ground arith, ground arith) in
          let (first, f) = get_byte h (i * 5 / 8) (omega (arith, a, b, more.1)) in
          let (last, l) = get_byte h ((i * 5 + 4) / 8) (omega (arith, a, b, more.1)) in
          let next : i * 5 + 5 ≡ suc i * 5 = omega arith in
          let rest =
            hash_loop-Hashed fuel h n most max_bits (suc i) a b c (omega (arith, more.0))
              (omega (arith, d)) in
          record {
            text = digit (five_bits (i * 5) first last) ∷ rest.text;
            given = rw (t, f, l, next, rest.given) refl;
            size_is = omega (arith, rest.size_is, more.0, more.1);
            digits = (digit-digit32 _ (five_bits-lt (i * 5) first last), rest.digits);
          }
      | inr t ↦ record { text = []; given = rw t refl; size_is = ground arith; digits = tt }
    ]

-- With hashes of 32 and of 64 bytes nothing is read out of range, and the text has as many base-32
-- digits as are asked for, but at most 102.
pub make_hashed_string-length :
    (sha256 sha512 : Str → Str) (input : Str) (digits : ℕ)
    → length (sha256 input) ≡ 32
    → length (sha512 input) ≡ 64
    → (text : Str) × (make_hashed_string sha256 sha512 input digits ≡ some text)
      × (length text ≡ min digits 102)
      × All (λ c. is_digit32 c ≡ true) text
unfolding make_hashed_string
make_hashed_string-length sha256 sha512 input digits e f =
    elim (Bool-cases (ltb 256 (digits * 5))) [
      | inl t ↦
          let r =
            hash_loop-Hashed (suc digits) (sha512 input) digits 102 512 0 (omega (arith, f))
              (omega arith) (omega arith) (omega arith) (omega arith) in
          (r.text, rw t r.given, omega (arith, r.size_is), r.digits)
      | inr t ↦
          let short : digits * 5 ≤ 256 = ground arith in
          let r =
            hash_loop-Hashed (suc digits) (sha256 input) digits 51 256 0 (omega (arith, e))
              (omega arith) (omega arith) (omega arith) (omega arith) in
          (r.text, rw t r.given, omega (arith, r.size_is, short), r.digits)
    ]
