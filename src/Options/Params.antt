-- ===== src/Options/Params.antt =====
-- cmd/util_common.go: ConvertParamsStringToKvArray, WriteKvArrayToMap, ParseStringAndValidate and
-- what calls them.
use truenas_incus_ctl.Base.{
  Bool, false, ◌||◌, List, [], ◌∷◌, ◌++◌, Option, none, some, ℤ, Str, str_eq, ◌==◌, codes, split,
  is_empty, to_upper, if◌then◌else◌,
}
use truenas_incus_ctl.Base.Dict.{Dict, lookup}
use truenas_incus_ctl.Base.Decimal.{atoi}
use truenas_incus_ctl.Json.{
  Json, null, bool, str, float, int, obj, Items, nil, cons, Fields, end, set_field,
}
use truenas_incus_ctl.Api.{Run, returns, panics}

-- The value after the first "=" and before a second one; a key alone, or with an empty value, is set
-- to "true".
unfoldable pub value_of : List Str → Str
value_of (v ∷ _) = if is_empty v then codes "true" else v
value_of [] = codes "true"

unfoldable pub kv_of : List Str → List Str
unfolding value_of
kv_of [] = []
kv_of (key ∷ parts) = if is_empty key then [] else key ∷ value_of parts ∷ []

unfoldable pub kv_of_all : List Str → List Str
unfolding kv_of
kv_of_all [] = []
kv_of_all (parameter ∷ params) = kv_of (split b'=' parameter) ++ kv_of_all params

-- Keys and values in turn; nil is the empty list.
unfoldable pub convert_params_string_to_kv_array : Str → List Str
unfolding kv_of_all
convert_params_string_to_kv_array full_params_str =
    if is_empty full_params_str then [] else kv_of_all (split b',' full_params_str)

abbrev pub Enums : Type 0
Enums = Dict Str (List Str)

-- The loop over the acceptable values.
unfoldable pub is_among : List Str → Str → Bool
is_among [] value_upper = false
is_among (a ∷ acceptable) value_upper = value_upper == to_upper a || is_among acceptable value_upper

-- A value or the text of an error.
pub data Parsed (F : Type 0) : Type 0 where
  parsed : Json F → Parsed F
  refused : Str → Parsed F

-- `parse_float` is `strconv.ParseFloat`, and `listed` how `fmt` prints a list of strings.
module _ {F : Type 0} (parse_float : Str → Option F) (listed : List Str → Str) where
  unfoldable pub check_enum : Str → Str → List Str → Parsed F
  unfolding is_among
  check_enum key value acceptable =
      if is_among acceptable (to_upper value)
      then parsed (str (to_upper value))
      else refused (
          codes "Could not find value "
          ++ (value ++ (codes " in enum " ++ (key ++ (codes " " ++ listed acceptable)))))

  -- No enums are nil.
  unfoldable pub validate : Str → Str → Enums → Parsed F
  unfolding check_enum
  validate opt_key value enums =
      if is_empty opt_key then parsed (str value) else elim (lookup opt_key enums) [
        | none ↦ parsed (str value)
        | some acceptable ↦ check_enum opt_key value acceptable
      ]

  unfoldable pub parse_text : Str → Str → Enums → Option ℤ → Option F → Parsed F
  unfolding validate
  parse_text opt_key value enums (some n) _ = parsed (int n)
  parse_text opt_key value enums none (some f) = parsed (float f)
  parse_text opt_key value enums none none = validate opt_key value enums

  unfoldable pub parse_string_and_validate : Str → Str → Enums → Parsed F
  unfolding parse_text
  parse_string_and_validate opt_key value enums =
      if value == codes "true" || value == codes "false"
      then parsed (bool (value == codes "true"))
      else if value == codes "null"
      then parsed null
      else parse_text opt_key value enums (atoi value) (parse_float value)

  -- The map as it is left, and the error. A key with no value after it is read out of range.
  unfoldable pub write_kv_array_to_map : Fields F → List Str → Enums → Run (Fields F × Option Str)
  unfolding parse_string_and_validate
  write_kv_array_to_map dst [] enums = returns (dst, none)
  write_kv_array_to_map dst (key ∷ []) enums = panics
  write_kv_array_to_map dst (key ∷ value ∷ rest) enums =
      elim (parse_string_and_validate key value enums) [
        | refused e ↦ returns (dst, some e)
        | parsed v ↦ write_kv_array_to_map (set_field key v dst) rest enums
      ]

  -- An error leaves a nil value.
  unfoldable pub parsed_or_null : Parsed F → Json F
  parsed_or_null (parsed v) = v
  parsed_or_null (refused _) = null

  unfoldable pub maybe_copy_property : Fields F → Dict Str Str → Str → Fields F
  unfolding parsed_or_null parse_string_and_validate
  maybe_copy_property dst src key = elim (lookup key src) [
    | none ↦ dst
    | some value ↦ set_field key (parsed_or_null (parse_string_and_validate key value [])) dst
  ]

  unfoldable pub properties_of : Dict Str Str → Fields F → Fields F
  unfolding parsed_or_null parse_string_and_validate
  properties_of [] out = out
  properties_of ((key, value) ∷ flags) out =
      properties_of flags
        (set_field key (parsed_or_null (parse_string_and_validate key value [])) out)

  unfoldable pub build_name_str_and_properties_json : Dict Str Str → Str → Items F
  unfolding properties_of
  build_name_str_and_properties_json used_flags name =
      cons (str name) (cons (obj (properties_of used_flags end)) nil)
