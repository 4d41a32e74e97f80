-- ===== src/Session/Bulk.antt =====
-- cmd/util_common.go, `MaybeBulkApiCall`: one call for each value of a list, all in one job if there
-- are several; and core/util_json.go, `DeepCopy`.
use truenas_incus_ctl.Base.{
  ℕ, suc, Bool, List, [], ◌∷◌, ◌++◌, none, some, ℤ, negsuc, Str, codes, is_empty, length, leb,
  get_elem?, set, if◌then◌else◌,
}
use truenas_incus_ctl.Base.Dict.{Dict}
use truenas_incus_ctl.Json.{Json, null, str, arr, obj, Items, nil, cons, FloatOps, set_field, items}
use truenas_incus_ctl.Api.{Run, returns, panics}
use truenas_incus_ctl.Session.{
  Session, BulkAnswer, no_message, of_answer, maybe_await, api_call, api_call_async, calls_of,
}

-- The parameters of each call.
abbrev pub Calls : Type 0 → Type 0
Calls F = List (List (Json F))

module _ {F : Type 0} where
  -- `marshal` and `unmarshal` are those of encoding/json.
  unfoldable pub deep_copy : (Json F → Str) → (Str → Json F) → Json F → Json F
  deep_copy marshal unmarshal null = null
  deep_copy marshal unmarshal v = unmarshal (marshal v)

  -- The value becomes the first parameter, before an object if that is first.
  unfoldable pub put_first : Json F → List (Json F) → Run (List (Json F))
  put_first v [] = panics
  put_first v (obj fs ∷ ps) = returns (v ∷ obj fs ∷ ps)
  put_first v (p ∷ ps) = returns (v ∷ ps)

  -- `allParams[i][objIdx]`, which has to be an object: the first parameter, or the second.
  unfoldable pub put_field : Str → Json F → List (Json F) → Run (List (Json F))
  put_field key v (obj fs ∷ ps) = returns (obj (set_field key v fs) ∷ ps)
  put_field key v (p ∷ obj fs ∷ ps) = returns (p ∷ obj (set_field key v fs) ∷ ps)
  put_field key v _ = panics

  unfoldable pub remap_one : Str → Json F → List (Json F) → Run (List (Json F))
  unfolding put_first put_field
  remap_one key v params = if is_empty key then put_first v params else put_field key v params

  -- A call that is not there yet starts as a copy of the parameters, which have to be an array.
  unfoldable pub grow : Json F → ℕ → Calls F → Run (Calls F)
  grow (arr js) i all = returns (if leb (length all) i then all ++ items js ∷ [] else all)
  grow copy i all = if leb (length all) i then panics else returns all

  unfoldable pub write_back : Calls F → ℕ → Run (List (Json F)) → Run (Calls F)
  write_back all i panics = panics
  write_back all i (returns params) = returns (set all i params)

  unfoldable pub remap_at : Str → Json F → ℕ → Run (Calls F) → Run (Calls F)
  unfolding remap_one write_back
  remap_at key v i panics = panics
  remap_at key v i (returns all) = elim (get_elem? all i) [
    | none ↦ panics
    | some params ↦ write_back all i (remap_one key v params)
  ]

  -- The loop over the values of one key.
  unfoldable pub remap_values : Json F → Str → ℕ → List (Json F) → Calls F → Run (Calls F)
  unfolding grow remap_at
  remap_values copy key i [] all = returns all
  remap_values copy key i (v ∷ vs) all = elim (remap_at key v i (grow copy i all)) [
    | panics ↦ panics
    | returns changed ↦ remap_values copy key (suc i) vs changed
  ]

  -- The loop over the keys, in the order of the map.
  unfoldable pub remap_all : Json F → Dict Str (List (Json F)) → Calls F → Run (Calls F)
  unfolding remap_values
  remap_all copy [] all = returns all
  remap_all copy ((key, vs) ∷ remap) all = elim (remap_values copy key 0 vs all) [
    | panics ↦ panics
    | returns changed ↦ remap_all copy remap changed
  ]

  abbrev pub arrays_of : Calls F → Items F
  arrays_of [] = nil
  arrays_of (ps ∷ all) = cons (arr (calls_of ps)) (arrays_of all)

module _ {S F : Type 0} (api : Session S F) (ops : FloatOps F) where
  unfoldable pub send_calls : S → Str → ℤ → Bool → Calls F → S × BulkAnswer F
  unfolding of_answer maybe_await api_call api_call_async
  send_calls s endpoint timeout should_wait_now [] = (
    s,
    record {
      message = no_message;
      job_id = negsuc 0;
      error = some (codes "MaybeBulkApiCall: Nothing to do");
    },
  )
  send_calls s endpoint timeout should_wait_now (ps ∷ []) =
      of_answer api (negsuc 0) (api_call api ops s endpoint timeout (arr (calls_of ps)))
  send_calls s endpoint timeout should_wait_now (ps ∷ qs ∷ all) = maybe_await api should_wait_now (
      api_call_async api s (codes "core.bulk")
        (arr (cons (str endpoint) (cons (arr (arrays_of (ps ∷ qs ∷ all))) nil))) should_wait_now)

  -- `copy` is `DeepCopy(params)`.
  unfoldable pub maybe_bulk_api_call :
      S → Str → ℤ → Json F → Dict Str (List (Json F)) → Bool → Run (S × BulkAnswer F)
  unfolding send_calls remap_all
  maybe_bulk_api_call s endpoint timeout copy remap should_wait_now =
      elim (remap_all copy remap []) [
        | panics ↦ panics
        | returns all ↦ returns (send_calls s endpoint timeout should_wait_now all)
      ]
