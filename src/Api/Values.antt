-- ===== src/Api/Values.antt =====
-- core/util_json.go: ExtractJsonArrayOfMaps, IsStringTrue, IsValueTrue, GetIdFromObject,
-- GetIntegerFromJsonObjectOr, ToAnyArray and core/util.go: MakeErrorFromList.
use truenas_incus_ctl.Base.{
  Bool, false, List, [], ◌∷◌, ◌++◌, Option, none, some, ℤ, Str, str_eq, ◌==◌, codes, to_lower,
}
use truenas_incus_ctl.Base.Dict.{Dict, lookup}
use truenas_incus_ctl.Json.{
  Json, null, bool, str, float, int64, int, arr, obj, Items, nil, cons, Fields, FloatOps, get_field,
}

-- A Go call that may panic, such as an index out of range.
pub data Run {ℓ} (A : Type ℓ) : Type ℓ where
  returns : A → Run A
  panics : Run A

module _ {F : Type 0} where
  -- The loop over the array; `none` stands for the element that is no object.
  unfoldable pub all_maps : Items F → Option (List (Fields F))
  all_maps nil = some []
  all_maps (cons (obj fs) js) = elim (all_maps js) [ none ↦ none | some l ↦ some (fs ∷ l) ]
  all_maps (cons j js) = none

  unfoldable pub maps_or_message : Option (List (Fields F)) → List (Fields F) × Str
  maps_or_message none = ([], codes "contained a non-object entry")
  maps_or_message (some l) = (l, [])

  -- The second result is the message of a failure, and empty on success.
  unfoldable pub array_of_maps : Option (Json F) → List (Fields F) × Str
  unfolding all_maps maps_or_message
  array_of_maps none = ([], codes "did not contain a list")
  array_of_maps (some (arr js)) = maps_or_message (all_maps js)
  array_of_maps (some j) = ([], codes "was not an array")

  unfoldable pub extract_json_array_of_maps : Fields F → Str → List (Fields F) × Str
  unfolding array_of_maps
  extract_json_array_of_maps m key = array_of_maps (get_field key m)

  unfoldable pub is_json_true : Option (Json F) → Bool
  is_json_true (some (bool b)) = b
  is_json_true (some (str s)) = to_lower s == codes "true"
  is_json_true _ = false

  unfoldable pub is_value_true : Fields F → Str → Bool
  unfolding is_json_true
  is_value_true dict key = is_json_true (get_field key dict)

  -- `null` is also the result for a value of another kind; `objArr[0]` panics on an empty array.
  unfoldable pub or_null : Option (Json F) → Json F
  or_null none = null
  or_null (some j) = j

  unfoldable pub get_id_from_object : Json F → Run (Json F)
  unfolding or_null
  get_id_from_object (float f) = returns (float f)
  get_id_from_object (int64 n) = returns (int64 n)
  get_id_from_object (int n) = returns (int n)
  get_id_from_object (obj fs) = returns (or_null (get_field (codes "id") fs))
  get_id_from_object (arr nil) = panics
  get_id_from_object (arr (cons j js)) = get_id_from_object j
  get_id_from_object _ = returns null

  -- `parse_int` is `strconv.ParseInt(s, 0, 64)`, which reads prefixed bases too.
  unfoldable pub integer_or : FloatOps F → (Str → Option ℤ) → ℤ → Option (Json F) → ℤ
  integer_or ops parse_int d (some (float f)) = ops.to_int64 f
  integer_or ops parse_int d (some (str s)) = elim (parse_int s) [ none ↦ d | some n ↦ n ]
  integer_or ops parse_int d (some (int64 n)) = n
  integer_or ops parse_int d _ = d

  unfoldable pub get_integer_from_json_object_or :
      FloatOps F → (Str → Option ℤ) → Fields F → Str → ℤ → ℤ
  unfolding integer_or
  get_integer_from_json_object_or ops parse_int m key d =
      integer_or ops parse_int d (get_field key m)

unfoldable pub is_text_true : Option Str → Bool
is_text_true none = false
is_text_true (some s) = s == codes "true"

unfoldable pub is_string_true : Dict Str Str → Str → Bool
unfolding is_text_true
is_string_true dict key = is_text_true (lookup key dict)

unfoldable pub combine_messages : List Str → Str
combine_messages [] = []
combine_messages (e ∷ es) = codes "\n" ++ e ++ combine_messages es

-- No error for an empty list, else the messages, each on a line of its own.
unfoldable pub make_error_from_list : List Str → Option Str
unfolding combine_messages
make_error_from_list [] = none
make_error_from_list (e ∷ es) = some (combine_messages (e ∷ es))
