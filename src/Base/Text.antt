-- ===== src/Base/Text.antt =====
-- The functions of Go's `strings` package that the program calls, on byte strings.
use Prim.Native.Nat.{ℕ, suc, ◌+◌, ◌-◌}
use Prim.Native.Char.{code}
use Prim.Native.String.{String}
use mathlib.Core.Bool.{Bool, true, false, ◌&&◌}
use mathlib.Core.Option.{Option, none, some}
use mathlib.Core.List.{List, [], ◌∷◌, ◌++◌}
use truenas_incus_ctl.Base.Conditions.{eqb, leb, if◌then◌else◌}
use truenas_incus_ctl.Base.Lists.{length, drop}
use truenas_incus_ctl.Base.Equality.{Str, str_eq, ◌==◌}

-- The bytes of a literal, which is ASCII.
abbrev pub codes : String → Str
codes String.[] = []
codes (String.◌∷◌ c s) = code c ∷ codes s

-- `strings.Index(s, c)` for a one-byte `c`; `none` is -1.
unfoldable pub index_of : ℕ → Str → Option ℕ
index_of c [] = none
index_of c (x ∷ s) =
    if eqb x c then some 0 else elim (index_of c s) [ none ↦ none | some i ↦ some (suc i) ]

-- `strings.LastIndex(s, c)` for a one-byte `c`.
unfoldable pub last_index_of : ℕ → Str → Option ℕ
last_index_of c [] = none
last_index_of c (x ∷ s) = elim (last_index_of c s) [
  | none ↦ if eqb x c then some 0 else none
  | some i ↦ some (suc i)
]

-- `strings.HasPrefix(s, p)`
unfoldable pub has_prefix : Str → Str → Bool
has_prefix s [] = true
has_prefix [] (p ∷ ps) = false
has_prefix (x ∷ s) (p ∷ ps) = eqb x p && has_prefix s ps

-- `strings.HasSuffix(s, p)`: the last `len(p)` bytes are `p`.
unfoldable pub has_suffix : Str → Str → Bool
has_suffix s p = leb (length p) (length s) && (drop (length s - length p) s == p)

-- `strings.Index(s, p)`: the first position at which `p` stands.
unfoldable pub index_str : Str → Str → Option ℕ
unfolding has_prefix
index_str p [] = if has_prefix [] p then some 0 else none
index_str p (x ∷ s) =
    if has_prefix (x ∷ s) p
    then some 0
    else elim (index_str p s) [ none ↦ none | some i ↦ some (suc i) ]

-- `strings.Contains(s, p)`
unfoldable pub contains_str : Str → Str → Bool
unfolding index_str
contains_str s p = elim (index_str p s) [ none ↦ false | some _ ↦ true ]

-- `strings.Split(s, sep)` for a one-byte separator: never empty.
unfoldable pub split : ℕ → Str → List Str
split sep [] = [] ∷ []
split sep (x ∷ s) = elim (split sep s) [
  | [] ↦ [] ∷ []
  | p ∷ ps ↦ if eqb x sep then [] ∷ p ∷ ps else (x ∷ p) ∷ ps
]

-- `strings.Join(parts, sep)`
unfoldable pub join : Str → List Str → Str
join sep [] = []
join sep (p ∷ ps) = elim ps [ [] ↦ p | _ ∷ _ ↦ p ++ sep ++ join sep ps ]

-- `strings.ReplaceAll(s, a, b)` for one-byte `a` and `b`.
unfoldable pub replace_all : ℕ → ℕ → Str → Str
replace_all a b [] = []
replace_all a b (x ∷ s) = (if eqb x a then b else x) ∷ replace_all a b s

-- `strings.ToLower` and `strings.ToUpper` on ASCII bytes.
unfoldable pub lower_byte : ℕ → ℕ
lower_byte c = if leb b'A' c && leb c b'Z' then c + 32 else c

unfoldable pub upper_byte : ℕ → ℕ
upper_byte c = if leb b'a' c && leb c b'z' then c - 32 else c

unfoldable pub to_lower : Str → Str
unfolding lower_byte
to_lower [] = []
to_lower (c ∷ s) = lower_byte c ∷ to_lower s

unfoldable pub to_upper : Str → Str
unfolding upper_byte
to_upper [] = []
to_upper (c ∷ s) = upper_byte c ∷ to_upper s

abbrev pub is_empty : Str → Bool
is_empty [] = true
is_empty (_ ∷ _) = false
