-- ===== src/Api/Results.antt =====
-- core/util_json.go: the recursion over bulk results ends, and what is read out of a response.
use truenas_incus_ctl.Base.{
  ◌++◌, ◌==◌, str_eq, if◌then◌else◌, ℕ, zero, suc, ◌≤◌, ◌<◌, ◌≡◌, refl, ap, inl, inr, ◌↔◌, List, [],
  ◌∷◌, map, Option, none, some, arith, Str, codes, All, Option-cases,
}
use mathlib.Core.Path.{subst}
use truenas_incus_ctl.Json.{
  Json, null, bool, str, float, int64, int, arr, obj, Items, nil, cons, Fields, get_field, items,
  as_str, depth, depth_items, depth_fields, depth-get_field,
}
use truenas_incus_ctl.Api.Values.{
  panics, all_maps, array_of_maps, maps_or_message, extract_json_array_of_maps, get_id_from_object,
}
use truenas_incus_ctl.Api.Response.{
  is_core_bulk, error_list, result_list, collect, settle, results_and_errors_fuel,
  get_results_and_errors_from_api_response,
}

module _ {F : Type 0} where
  abbrev Within : ℕ → Json F → Type 0
  Within n j = depth j ≤ n

  items-Within : (js : Items F) (n : ℕ) → depth_items js ≤ n → All (Within n) (items js)
  unfolding depth
  items-Within nil n h = tt
  items-Within (cons j js) n h = (omega arith, items-Within js n (omega arith))

  result_list-Within :
      (o : Option (Json F)) (n : ℕ)
      → ((v : Json F) → o ≡ some v → depth v ≤ n)
      → All (Within n) (result_list o)
  unfolding result_list depth
  result_list-Within (some (obj fs)) n h = (h (obj fs) refl, tt)
  result_list-Within (some (arr js)) n h = items-Within js n (omega (arith, h (arr js) refl))
  result_list-Within _ n h = tt

  -- Two recursive calls that agree below a nesting collect the same from values within it.
  collect-agree :
      (f g : Fields F → List (Json F) × List (Json F)) (n : ℕ)
      → ((fs : Fields F) → depth_fields fs < n → f fs ≡ g fs)
      → (js : List (Json F)) → All (Within n) js
      → collect f js ≡ collect g js
  unfolding collect depth
  collect-agree f g n h [] w = refl
  collect-agree f g n h (obj fs ∷ js) (w, ws) = cc (h fs (omega arith), collect-agree f g n h js ws)
  collect-agree f g n h (null ∷ js) (w, ws) = collect-agree f g n h js ws
  collect-agree f g n h (bool b ∷ js) (w, ws) = collect-agree f g n h js ws
  collect-agree f g n h (str s ∷ js) (w, ws) = collect-agree f g n h js ws
  collect-agree f g n h (float x ∷ js) (w, ws) = collect-agree f g n h js ws
  collect-agree f g n h (int64 x ∷ js) (w, ws) = collect-agree f g n h js ws
  collect-agree f g n h (int x ∷ js) (w, ws) = collect-agree f g n h js ws
  collect-agree f g n h (arr xs ∷ js) (w, ws) = collect-agree f g n h js ws

  settle-agree :
      (f g : Fields F → List (Json F) × List (Json F)) (n : ℕ)
      → ((fs : Fields F) → depth_fields fs < n → f fs ≡ g fs)
      → (js es : List (Json F)) → All (Within n) js
      → settle f js es ≡ settle g js es
  unfolding settle
  settle-agree f g n h [] es w = refl
  settle-agree f g n h (j ∷ js) es w = ground (arith, collect-agree f g n h (j ∷ js) w)

  results-Within :
      (fs : Fields F) (k : Str) → All (Within (depth_fields fs)) (result_list (get_field k fs))
  results-Within fs k =
      result_list-Within (get_field k fs) (depth_fields fs) (λ v e. depth-get_field k fs v e)

  -- More fuel than the nesting changes nothing.
  fuel_enough :
      (n m : ℕ) (fs : Fields F)
      → depth_fields fs < n
      → depth_fields fs < m
      → results_and_errors_fuel n fs ≡ results_and_errors_fuel m fs
  unfolding results_and_errors_fuel
  fuel_enough zero m fs h k = absurd (omega arith)
  fuel_enough (suc n) zero fs h k = absurd (omega arith)
  fuel_enough (suc n) (suc m) fs h k =
      settle-agree (results_and_errors_fuel n) (results_and_errors_fuel m) (depth_fields fs)
        (λ gs w. fuel_enough n m gs (omega arith) (omega arith)) _ _
        (results-Within fs (codes "result"))

  -- For every response, the two lists are those that its own "result" and "error" settle, with the
  -- same function called on the parts of a bulk result.
  get_results_and_errors-eq :
      (response : Fields F)
      → get_results_and_errors_from_api_response response
        ≡ settle get_results_and_errors_from_api_response
            (result_list (get_field (codes "result") response))
            (error_list (get_field (codes "error") response))
  unfolding get_results_and_errors_from_api_response depth results_and_errors_fuel
  get_results_and_errors-eq response =
      settle-agree (results_and_errors_fuel (depth_fields response)) _ (depth_fields response)
        (λ fs w. fuel_enough (depth_fields response) (suc (depth_fields fs)) fs w (omega arith)) _ _
        (results-Within response (codes "result"))

  -- The results and the errors of the parts of a bulk result, one part after the other.
  abbrev pub of_parts : Items F → List (Json F) × List (Json F)
  of_parts nil = ([], [])
  of_parts (cons (obj fs) js) = (
    (get_results_and_errors_from_api_response fs).0 ++ (of_parts js).0,
    (get_results_and_errors_from_api_response fs).1 ++ (of_parts js).1,
  )
  of_parts (cons _ js) = of_parts js

  collect-parts :
      (js : Items F) → collect get_results_and_errors_from_api_response (items js) ≡ of_parts js
  unfolding collect
  collect-parts nil = refl
  collect-parts (cons (obj fs) js) = ground (arith, collect-parts js)
  collect-parts (cons null js) = collect-parts js
  collect-parts (cons (bool b) js) = collect-parts js
  collect-parts (cons (str s) js) = collect-parts js
  collect-parts (cons (float x) js) = collect-parts js
  collect-parts (cons (int64 x) js) = collect-parts js
  collect-parts (cons (int x) js) = collect-parts js
  collect-parts (cons (arr xs) js) = collect-parts js

  -- For a response with a result whose first element is an object and with a list of errors: if the
  -- object's method is core.bulk, GetResultsAndErrorsFromApiResponse ends with the results and errors
  -- of the parts, one after the other, and the response's own errors are dropped; otherwise with the
  -- elements of the result and those errors.
  pub get_results_and_errors_lem :
      (response first : Fields F) (js es : Items F)
      → get_field (codes "result") response ≡ some (arr (cons (obj first) js))
      → get_field (codes "error") response ≡ some (arr es)
      → get_results_and_errors_from_api_response response ≡ (
          if as_str (get_field (codes "method") first) == codes "core.bulk"
          then of_parts (cons (obj first) js)
          else (obj first ∷ items js, items es))
  unfolding settle result_list error_list is_core_bulk
  get_results_and_errors_lem response first js es r e =
      ground (arith, get_results_and_errors-eq response, r, e, collect-parts (cons (obj first) js))

  all_maps_sound :
      (js : Items F) (l : List (Fields F)) → all_maps js ≡ some l → items js ≡ map obj l
  unfolding all_maps
  all_maps_sound nil [] e = refl
  all_maps_sound nil (f ∷ l) e = absurd (cc)
  all_maps_sound (cons (obj fs) js) l e = elim (Option-cases (all_maps js)) [
    | inl n ↦ absurd (ground arith)
    | inr (l', p) ↦
        let q : fs ∷ l' ≡ l = ground arith in
        subst (λ k. obj fs ∷ items js ≡ map obj k) q
          (ap (λ (ys : List (Json F)). obj fs ∷ ys) (all_maps_sound js l' p))
  ]
  all_maps_sound (cons null js) l e = absurd (cc)
  all_maps_sound (cons _ js) l e = absurd (cc)

  all_maps_complete :
      (js : Items F) (l : List (Fields F)) → items js ≡ map obj l → all_maps js ≡ some l
  unfolding all_maps
  all_maps_complete nil [] e = refl
  all_maps_complete nil (f ∷ l) e = absurd (cc)
  all_maps_complete (cons j js) [] e = absurd (cc)
  all_maps_complete (cons (obj fs) js) (f ∷ l) e = ground (arith, all_maps_complete js l)
  all_maps_complete (cons null js) (f ∷ l) e = absurd (cc)
  all_maps_complete (cons _ js) (f ∷ l) e = absurd (cc)

  extracted_sound :
      (o : Option (Json F)) (l : List (Fields F))
      → array_of_maps o ≡ (l, [])
      → (js : Items F) × (o ≡ some (arr js)) × (items js ≡ map obj l)
  unfolding array_of_maps maps_or_message
  extracted_sound none l e = absurd (ground arith)
  extracted_sound (some (arr js)) l e = elim (Option-cases (all_maps js)) [
    | inl n ↦ absurd (ground arith)
    | inr (l', p) ↦ (js, refl, all_maps_sound js l (ground arith))
  ]
  extracted_sound (some null) l e = absurd (ground arith)
  extracted_sound (some _) l e = absurd (ground arith)

  -- The message is empty exactly when the key holds an array of objects alone, and then the result
  -- lists those objects in order.
  extract_json_array_of_maps-ok_iff :
      (m : Fields F) (key : Str) (l : List (Fields F))
      → (extract_json_array_of_maps m key ≡ (l, []))
        ↔ ((js : Items F) × (get_field key m ≡ some (arr js)) × (items js ≡ map obj l))
  unfolding extract_json_array_of_maps
  extract_json_array_of_maps-ok_iff m key l = (
    extracted_sound (get_field key m) l,
    λ (js, e, p). rw e (unfold array_of_maps maps_or_message in rw (all_maps_complete js l p)),
  )

-- An array whose first elements lead to an empty array.
pub data HollowHead {F : Type 0} : Json F → Type 0 where
  hollow : HollowHead (arr nil)
  inside : {j : Json F} {js : Items F} → HollowHead j → HollowHead (arr (cons j js))

module _ {F : Type 0} where
  hollow_panics : {j : Json F} → HollowHead j → get_id_from_object j ≡ panics
  unfolding get_id_from_object
  hollow_panics hollow = refl
  hollow_panics (inside h) = hollow_panics h

  panics_hollow : (j : Json F) → get_id_from_object j ≡ panics → HollowHead j
  unfolding get_id_from_object
  panics_hollow (arr nil) e = hollow
  panics_hollow (arr (cons j js)) e = inside (panics_hollow j e)
  panics_hollow null e = absurd (cc)
  panics_hollow _ e = absurd (cc)

  -- GetIdFromObject panics exactly on an array whose first elements lead to an empty array.
  pub get_id_from_object-panics_iff : (j : Json F) → (get_id_from_object j ≡ panics) ↔ HollowHead j
  get_id_from_object-panics_iff j = (panics_hollow j, hollow_panics)
