-- ===== src/Api/Tests.antt =====
-- Runs of core/util_json.go.
use truenas_incus_ctl.Base.{ℕ, ◌≡◌, ◌↔◌, refl, [], ◌∷◌, codes, str_eqb}
use truenas_incus_ctl.Json.{
  Json, str, arr, obj, float, nil, cons, Fields, field, end, get_field, depth,
}
use truenas_incus_ctl.Api.{get_results_and_errors_from_api_response, get_id_from_object, panics}
use truenas_incus_ctl.Api.Results.{
  of_parts, get_results_and_errors_lem, HollowHead, get_id_from_object-panics_iff,
}

-- The response to a bulk call whose first part failed.
abbrev bulk_response : Fields ℕ
bulk_response =
    field (codes "result")
      (arr (
        cons
          (obj (
            field (codes "method") (str (codes "core.bulk"))
              (field (codes "error") (arr (cons (str (codes "no such pool")) nil)) end)))
          (cons (obj (field (codes "result") (arr (cons (float 3) nil)) end)) nil)))
      end

bulk_parts :
    get_results_and_errors_from_api_response bulk_response
    ≡ (float 3 ∷ [], str (codes "no such pool") ∷ [])
unfolding get_results_and_errors_from_api_response depth get_field str_eqb
bulk_parts = refl

abbrev failed_part : Fields ℕ
failed_part =
    field (codes "method") (str (codes "core.bulk"))
      (field (codes "error") (arr (cons (str (codes "no such pool")) nil)) end)

abbrev failed_response : Fields ℕ
failed_response =
    field (codes "result") (arr (cons (obj failed_part) nil))
      (field (codes "error") (arr (cons (str (codes "outer")) nil)) end)

get_results_and_errors_lem_example :
    get_results_and_errors_from_api_response failed_response ≡ of_parts (cons (obj failed_part) nil)
unfolding get_field str_eqb
get_results_and_errors_lem_example =
    get_results_and_errors_lem failed_response failed_part nil (cons (str (codes "outer")) nil) refl
      refl

abbrev one_child : Fields ℕ
one_child = field (codes "children") (arr (cons (obj end) nil)) end

abbrev hollow_array : Json ℕ
hollow_array = arr (cons (arr nil) nil)

get_id_from_object-panics_iff_example :
    (get_id_from_object hollow_array ≡ panics) ↔ HollowHead hollow_array
get_id_from_object-panics_iff_example = get_id_from_object-panics_iff hollow_array
