-- ===== src/Api/Response.antt =====
-- core/util_json.go: GetResultsAndErrorsFromApiResponse, ExtractApiErrorJson and
-- GetJobNumberFromObject. A nil slice is the empty list: the callers test only the length.
use truenas_incus_ctl.Base.{
  ℕ, zero, suc, Bool, true, false, List, [], ◌∷◌, ◌++◌, Option, none, some, ℤ, Str, str_eq, ◌==◌,
  codes, is_empty, if◌then◌else◌,
}
use truenas_incus_ctl.Json.{
  Json, float, int64, int, arr, obj, Fields, end, field, FloatOps, get_field, items, as_str, sprint,
  depth,
}

abbrev line : Str → Str
line s = if is_empty s then [] else s ++ codes "\n"

unfoldable pub error_text : Str → Str → Str → Str
error_text code message reason = codes "\nError " ++ line code ++ line message ++ reason

module _ {F : Type 0} where
  unfoldable pub error_list : Option (Json F) → List (Json F)
  error_list (some (obj end)) = []
  error_list (some (obj (field k v fs))) = obj (field k v fs) ∷ []
  error_list (some (arr js)) = items js
  error_list _ = []

  unfoldable pub result_list : Option (Json F) → List (Json F)
  result_list (some (obj fs)) = obj fs ∷ []
  result_list (some (arr js)) = items js
  result_list _ = []

  -- The test on `resultList[0]`.
  unfoldable pub is_core_bulk : List (Json F) → Bool
  is_core_bulk (obj fs ∷ js) = as_str (get_field (codes "method") fs) == codes "core.bulk"
  is_core_bulk _ = false

  -- The loop over a bulk result; `sub` is the recursive call on an object.
  unfoldable pub collect :
      (Fields F → (List (Json F) × List (Json F))) → List (Json F) → List (Json F) × List (Json F)
  collect sub [] = ([], [])
  collect sub (obj fs ∷ js) =
      let rest = collect sub js in ((sub fs).0 ++ rest.0, (sub fs).1 ++ rest.1)
  collect sub (j ∷ js) = collect sub js

  -- What to do with the two lists of one response.
  unfoldable pub settle :
      (Fields F → (List (Json F) × List (Json F)))
      → List (Json F)
      → List (Json F)
      → List (Json F) × List (Json F)
  unfolding collect is_core_bulk
  settle sub [] errors = ([], errors)
  settle sub (r ∷ rs) errors = elim (is_core_bulk (r ∷ rs)) [
    | true ↦ collect sub (r ∷ rs)
    | false ↦ (r ∷ rs, errors)
  ]

  unfoldable pub results_and_errors_fuel : ℕ → Fields F → List (Json F) × List (Json F)
  unfolding settle result_list error_list
  results_and_errors_fuel zero response = ([], [])
  results_and_errors_fuel (suc n) response =
      settle (results_and_errors_fuel n) (result_list (get_field (codes "result") response))
        (error_list (get_field (codes "error") response))

  -- Each call is on a value that lies deeper, so the nesting of the response is enough fuel.
  unfoldable pub get_results_and_errors_from_api_response : Fields F → List (Json F) × List (Json F)
  unfolding results_and_errors_fuel
  get_results_and_errors_from_api_response response =
      results_and_errors_fuel (depth (obj response)) response

  unfoldable pub text_of : FloatOps F → Option (Json F) → Str
  text_of ops none = []
  text_of ops (some j) = sprint ops j

  unfoldable pub reason_of : FloatOps F → Option (Json F) → Str
  unfolding text_of
  reason_of ops (some (obj fs)) = text_of ops (get_field (codes "reason") fs)
  reason_of ops _ = []

  unfoldable pub extract_api_error_json_given_error : FloatOps F → Json F → Str
  unfolding error_text text_of reason_of
  extract_api_error_json_given_error ops (obj e) =
      error_text (text_of ops (get_field (codes "code") e))
        (text_of ops (get_field (codes "message") e)) (reason_of ops (get_field (codes "data") e))
  extract_api_error_json_given_error ops _ = error_text [] [] []

  unfoldable pub error_of : FloatOps F → Option (Json F) → Str
  error_of ops none = []
  error_of ops (some e) = extract_api_error_json_given_error ops e

  -- The empty text is no error.
  unfoldable pub extract_api_error_json : FloatOps F → Fields F → Str
  unfolding error_of
  extract_api_error_json ops response = error_of ops (get_field (codes "error") response)

  -- `none` is the error that comes with the job number -1.
  unfoldable pub number_of : FloatOps F → Option (Json F) → Option ℤ
  number_of ops (some (float f)) = some (ops.to_int64 f)
  number_of ops (some (int64 n)) = some n
  number_of ops (some (int n)) = some n
  number_of ops _ = none

  unfoldable pub get_job_number_from_object : FloatOps F → Json F → Option ℤ
  unfolding number_of
  get_job_number_from_object ops (obj response) =
      number_of ops (get_field (codes "result") response)
  get_job_number_from_object ops _ = none
