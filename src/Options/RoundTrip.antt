-- ===== src/Options/RoundTrip.antt =====
-- cmd/util_common.go: settings written as "key=value,key=value" and read back.
use truenas_incus_ctl.Base.{
  ℕ, ◌≡◌, ◌⊎◌, refl, ap, ◌∙◌, Bool, true, false, ◌||◌, List, [], ◌∷◌, ◌++◌, map, Option, none, some,
  ℤ, Str, str_eq, str_eqb, ◌==◌, eq_false, codes, split, join, is_empty, eqb, arith, All,
  All-append, inl, inr, append_assoc,
}
use truenas_incus_ctl.Base.Decimal.{atoi, itoa, InRange, atoi-itoa}
use truenas_incus_ctl.Base.Dict.{lookup}
use truenas_incus_ctl.Json.{Json, bool, str, int, Fields, set_field}
use truenas_incus_ctl.Api.{returns}
use truenas_incus_ctl.Daemon.Serve.{bool_text}
use truenas_incus_ctl.Options.Splitting.{Lacks, split-plain, split-append, itoa-Lacks}
use truenas_incus_ctl.Options.Params.{
  Enums, value_of, kv_of, kv_of_all, convert_params_string_to_kv_array, parse_string_and_validate,
  parse_text, validate, parsed, write_kv_array_to_map,
}

-- A value of an option, and its text.
pub data Setting : Type 0 where
  flag : Bool → Setting
  number : ℤ → Setting
  word : Str → Setting

abbrev pub text : Setting → Str
text (flag b) = bool_text b
text (number n) = itoa n
text (word s) = s

-- A number fits in 64 bits; a word is none of the texts that have a meaning of their own.
abbrev pub IsPlain : {F : Type 0} → (Str → Option F) → Setting → Type 0
IsPlain parse_float (flag b) = Unit
IsPlain parse_float (number n) = InRange n
IsPlain parse_float (word s) =
    (is_empty s ≡ false)
    × Lacks b',' s
    × Lacks b'=' s
    × ((s == codes "true" || (s == codes "false" || s == codes "null")) ≡ false)
    × (atoi s ≡ none)
    × (parse_float s ≡ none)

abbrev pub json_of : {F : Type 0} → Setting → Json F
json_of (flag b) = bool b
json_of (number n) = int n
json_of (word s) = str s

abbrev pub IsKey : Str → Type 0
IsKey k = (is_empty k ≡ false) × Lacks b',' k × Lacks b'=' k

-- The key of a word has no enum.
abbrev pub IsFree : Enums → Str → Setting → Type 0
IsFree enums k (flag b) = Unit
IsFree enums k (number n) = Unit
IsFree enums k (word s) = lookup k enums ≡ none

abbrev pub AllFree : Enums → List (Str × Setting) → Type 0
AllFree enums ss = All (λ (k, v). IsFree enums k v) ss

abbrev pub setting_text : Str × Setting → Str
setting_text (k, v) = k ++ b'=' ∷ text v

abbrev pub settings_text : List (Str × Setting) → Str
settings_text ss = join (codes ",") (map setting_text ss)

-- Keys and values in turn.
abbrev pub kv_list : List (Str × Setting) → List Str
kv_list [] = []
kv_list ((k, v) ∷ ss) = k ∷ text v ∷ kv_list ss

-- `dst[key] = value`, for one setting after the other.
abbrev pub set_all : {F : Type 0} → Fields F → List (Str × Setting) → Fields F
set_all dst [] = dst
set_all dst ((k, v) ∷ ss) = set_all (set_field k (json_of v) dst) ss

-- A text that is read as a number is no other text.
number_ne : (s t : Str) (n : ℤ) → atoi s ≡ some n → atoi t ≡ none → (s == t) ≡ false
number_ne s t n h k = eq_false s t (λ e. absurd (ground (arith, h, k, ap atoi e)))

not_number :
    (atoi (codes "true") ≡ none) × (atoi (codes "false") ≡ none) × (atoi (codes "null") ≡ none)
unfolding atoi
not_number = (refl, refl, refl)

read_not_empty : (s : Str) (n : ℤ) → atoi s ≡ some n → is_empty s ≡ false
unfolding atoi
read_not_empty [] n h = absurd (cc)
read_not_empty (c ∷ s) n h = refl

none_of_three :
    (s : Str)
    → (s == codes "true" || (s == codes "false" || s == codes "null")) ≡ false
    → ((s == codes "true") ≡ false) × ((s == codes "false") ≡ false) × ((s == codes "null") ≡ false)
none_of_three s h = ground (arith, h)

module _ {F : Type 0} (parse_float : Str → Option F) (listed : List Str → Str) where
  text-Lacks :
      (c : ℕ) (v : Setting) → (c ≡ b',') ⊎ (c ≡ b'=') → IsPlain parse_float v → Lacks c (text v)
  text-Lacks c (flag true) h p = elim h [
    | inl e ↦ rw e (refl, (refl, (refl, (refl, tt))))
    | inr e ↦ rw e (refl, (refl, (refl, (refl, tt))))
  ]
  text-Lacks c (flag false) h p = elim h [
    | inl e ↦ rw e (refl, (refl, (refl, (refl, (refl, tt)))))
    | inr e ↦ rw e (refl, (refl, (refl, (refl, (refl, tt)))))
  ]
  text-Lacks c (number n) h p = itoa-Lacks c (ground (arith, h)) (ground (arith, h)) n
  text-Lacks c (word s) h (_, a, b, _, _, _) = elim h [ inl e ↦ rw e a | inr e ↦ rw e b ]

  flag-parse :
      (enums : Enums) (k : Str) (b : Bool)
      → parse_string_and_validate parse_float listed k (bool_text b) enums ≡ parsed (bool b)
  unfolding parse_string_and_validate parse_text validate str_eqb atoi
  flag-parse enums k true = refl
  flag-parse enums k false = refl

  plain_word :
      (enums : Enums) (k s : Str)
      → lookup k enums ≡ none
      → validate parse_float listed k s enums ≡ parsed (str s)
  unfolding validate
  plain_word enums k s h = ground (arith, h)

  -- Each value is read back.
  parse-text :
      (enums : Enums) (k : Str) (v : Setting)
      → IsPlain parse_float v
      → IsFree enums k v
      → parse_string_and_validate parse_float listed k (text v) enums ≡ parsed (json_of v)
  unfolding parse_string_and_validate parse_text validate
  parse-text enums k (flag b) p e = flag-parse enums k b
  parse-text enums k (number n) p e =
      rw
        (
          parse_string_and_validate,
          number_ne (itoa n) (codes "true") n (atoi-itoa n p) not_number.0,
          number_ne (itoa n) (codes "false") n (atoi-itoa n p) not_number.1,
          number_ne (itoa n) (codes "null") n (atoi-itoa n p) not_number.2,
          atoi-itoa n p,
        )
        refl
  parse-text enums k (word s) (_, _, _, w, i, f) e =
      let (t, u, v) = none_of_three s w in
      rw (parse_string_and_validate, t, u, v, i, f) (plain_word enums k s e)

  text-not_empty : (v : Setting) → IsPlain parse_float v → is_empty (text v) ≡ false
  text-not_empty (flag true) p = refl
  text-not_empty (flag false) p = refl
  text-not_empty (number n) p = read_not_empty (itoa n) n (atoi-itoa n p)
  text-not_empty (word s) (e, _, _, _, _, _) = e

  -- One setting, split at "=".
  kv_of-setting :
      (k : Str) (v : Setting)
      → IsKey k
      → IsPlain parse_float v
      → kv_of (split b'=' (setting_text (k, v))) ≡ k ∷ text v ∷ []
  unfolding kv_of value_of
  kv_of-setting k v (e, a, b) p =
      rw
        (
          split-append b'=' k (text v) b,
          split-plain b'=' (text v) (text-Lacks b'=' v (inr refl) p),
          e,
          text-not_empty v p,
        )
        refl

  setting_text-Lacks :
      (k : Str) (v : Setting) → IsKey k → IsPlain parse_float v → Lacks b',' (setting_text (k, v))
  setting_text-Lacks k v (e, a, b) p =
      All-append (λ x. eqb x b',' ≡ false) k _ a (refl, text-Lacks b',' v (inl refl) p)

  abbrev pub AllPlain : List (Str × Setting) → Type 0
  AllPlain ss = All (λ (k, v). IsKey k × IsPlain parse_float v) ss

  write_settings :
      (enums : Enums) (dst : Fields F) (ss : List (Str × Setting))
      → AllPlain ss
      → AllFree enums ss
      → write_kv_array_to_map parse_float listed dst (kv_list ss) enums
        ≡ returns (set_all dst ss, none)
  unfolding write_kv_array_to_map
  write_settings enums dst [] h g = refl
  write_settings enums dst ((k, v) ∷ ss) ((i, p), h) (e, g) =
      rw (write_kv_array_to_map, parse-text enums k v p e)
        (write_settings enums (set_field k (json_of v) dst) ss h g)

  split_settings :
      (s : Str × Setting) (ss : List (Str × Setting))
      → AllPlain (s ∷ ss)
      → kv_of_all (split b',' (settings_text (s ∷ ss))) ≡ kv_list (s ∷ ss)
  unfolding kv_of_all join
  split_settings (k, v) [] ((i, p), h) =
      ap kv_of_all (split-plain b',' (setting_text (k, v)) (setting_text-Lacks k v i p))
      ∙ ap (λ (l : List Str). l ++ []) (kv_of-setting k v i p)
  split_settings (k, v) (s ∷ ss) ((i, p), h) =
      ap (λ (t : Str). kv_of_all (split b',' t))
        (append_assoc (setting_text (k, v)) (codes ",") (settings_text (s ∷ ss)))
      ∙ ap kv_of_all (
          split-append b',' (setting_text (k, v)) (settings_text (s ∷ ss))
            (setting_text-Lacks k v i p))
      ∙ ap (λ (l : List Str). l ++ kv_of_all (split b',' (settings_text (s ∷ ss))))
          (kv_of-setting k v i p)
      ∙ ap (λ (l : List Str). k ∷ text v ∷ l) (split_settings s ss h)

  settings_not_empty :
      (s : Str × Setting) (ss : List (Str × Setting))
      → AllPlain (s ∷ ss)
      → is_empty (settings_text (s ∷ ss)) ≡ false
  unfolding join
  settings_not_empty (c ∷ k, v) [] h = refl
  settings_not_empty (c ∷ k, v) (t ∷ ss) h = refl
  settings_not_empty ([], v) ss (((e, _, _), _), h) = absurd (cc)

  -- Settings whose keys are not empty and whose values are Booleans, numbers of 64 bits or words that
  -- mean nothing else and whose keys have no enum, with no comma and no equals sign in keys and words,
  -- written with "=" in each and "," between them, are read back: the map has each key set to its
  -- value, in order, and there is no error.
  pub settings_read_back :
      (enums : Enums) (dst : Fields F) (ss : List (Str × Setting))
      → AllPlain ss
      → AllFree enums ss
      → write_kv_array_to_map parse_float listed dst
          (convert_params_string_to_kv_array (settings_text ss))
          enums
        ≡ returns (set_all dst ss, none)
  unfolding convert_params_string_to_kv_array join
  settings_read_back enums dst [] h g = write_settings enums dst [] tt tt
  settings_read_back enums dst (s ∷ ss) h g =
      rw (convert_params_string_to_kv_array, settings_not_empty s ss h, split_settings s ss h)
        (write_settings enums dst (s ∷ ss) h g)
