-- ===== src/Command/Steps.antt =====
-- What the commands of cmd/iscsi.go and cmd/iscsi_crud.go are made of: steps that change the state of
-- a session and end, fail, panic, exit, or run out of the fuel of a loop.
use truenas_incus_ctl.Base.{
  ℕ, ◌≡◌, refl, Bool, true, false, List, [], ◌∷◌, Option, none, some, ℤ, pos, Str,
}
use truenas_incus_ctl.Json.{Json, obj, Fields, FloatOps}
use truenas_incus_ctl.Api.{Run, returns, panics, get_results_and_errors_from_api_response}
use truenas_incus_ctl.Session.{
  Session, Message, value, Answer, BulkAnswer, api_call, maybe_bulk_api_call_array,
}
use truenas_incus_ctl.Query.Filter.{QueryParams, Result}
use truenas_incus_ctl.Query.Properties.{build_value_order}
use truenas_incus_ctl.Query.Collect.{Response}
use truenas_incus_ctl.Query.Rows.{Order}
use truenas_incus_ctl.Query.Request.{query_api}
use truenas_incus_ctl.Iscsi.Tool.{Ran}
use truenas_incus_ctl.Iscsi.Lookups.{Found, lookup_initiator_or_create_blank}
use truenas_incus_ctl.Iscsi.Portals.{lookup_portal_id_or_create}

pub data Outcome {ℓ} (A : Type ℓ) : Type ℓ where
  ends : A → Outcome A
  errs : Str → Outcome A
  crashes : Outcome A
  exits : Outcome A
  spins : Outcome A

-- `S` is the state that a step changes, whatever its outcome.
abbrev pub M : Type 0 → Type 0 → Type 0
M S A = S → S × Outcome A

abbrev pub pure : {S A : Type 0} → Outcome A → M S A
pure out s = (s, out)

abbrev pub and_then : {S A B : Type 0} → S × Outcome A → (A → M S B) → S × Outcome B
and_then (s, ends a) f = f a s
and_then (s, errs e) f = (s, errs e)
and_then (s, crashes) f = (s, crashes)
and_then (s, exits) f = (s, exits)
and_then (s, spins) f = (s, spins)

infixl 5 ◌>>=◌ ◌>>◌
abbrev pub ◌>>=◌ : {S A B : Type 0} → M S A → (A → M S B) → M S B
◌>>=◌ m f s = and_then (m s) f

abbrev pub ◌>>◌ : {S B : Type 0} → M S (Unit {0}) → M S B → M S B
m >> k = m >>= λ _. k

-- The inversion of a step that ends.
pub and_then-ends :
    {S A B : Type 0} (r : S × Outcome A) (f : A → M S B) (b : B)
    → (and_then r f).1 ≡ ends b
    → (a : A) × (r.1 ≡ ends a) × ((f a r.0).1 ≡ ends b)
and_then-ends (s, ends a) f b h = (a, refl, h)
and_then-ends (s, errs e) f b h = cc
and_then-ends (s, crashes) f b h = cc
and_then-ends (s, exits) f b h = cc
and_then-ends (s, spins) f b h = cc

-- What the commands rely on that is not this program's own: the session behind the interface, its
-- host name, encoding/json, the resolver, the hashes, the sort, and the runs of iscsiadm.
pub record Outside (S F : Type 0) : Type 0 where
  pub api : Session S F
  pub ops : FloatOps F
  pub host_name : Str
  pub default_call_timeout : ℤ
  pub unmarshal : Str → Result (Json F)
  pub unmarshal_value : Str → Json F
  pub type_error : Json F → Str
  pub lookup_ip : Str → Option Str
  pub split_host : Str → Option Str
  pub parse_int : Str → Option ℤ
  pub sort_stable : (Str → Str → Order) → List Str → List Str
  pub sha256 : Str → Str
  pub sha512 : Str → Str
  pub runs : List Str → ℕ → Ran

abbrev pub default_iscsi_port : ℤ
default_iscsi_port = pos 3260

abbrev pub of_run {ℓ} : {A : Type ℓ} → Run A → Outcome A
of_run panics = crashes
of_run (returns a) = ends a

-- The parameters of the queries of the commands, but for the two switches.
abbrev pub query_params : Bool → Bool → QueryParams
query_params all_props recurse = record {
  value_order = build_value_order true;
  should_skip_key_build = false;
  should_get_all_props = all_props;
  should_get_user_props = false;
  should_recurse = recurse;
}

module _ {F : Type 0} where
  -- `GetResultsAndErrorsFromApiResponseRaw`
  unfoldable pub results_and_errors : Message F → List (Json F) × List (Json F)
  results_and_errors (value (obj response)) = get_results_and_errors_from_api_response response
  results_and_errors _ = ([], [])

  -- The elements that are objects.
  unfoldable pub maps_in : List (Json F) → List (Fields F)
  maps_in [] = []
  maps_in (obj fs ∷ js) = fs ∷ maps_in js
  maps_in (_ ∷ js) = maps_in js

module _ {S : Type 0} where
  abbrev pub of_query {ℓ} : {A : Type ℓ} → S × Option (A × Option Str) → S × Outcome A
  of_query (s, none) = (s, spins)
  of_query (s, some (r, some e)) = (s, errs e)
  of_query (s, some (r, none)) = (s, ends r)

  abbrev pub of_found : S × Run Found → S × Outcome ℤ
  of_found (s, panics) = (s, crashes)
  of_found (s, returns f) = (s, elim f.error [ some e ↦ errs e | none ↦ ends f.id ])

  abbrev pub of_bulk : {F : Type 0} → S × BulkAnswer F → S × Outcome (BulkAnswer F)
  of_bulk (s, a) = (s, elim a.error [ some e ↦ errs e | none ↦ ends a ])

  abbrev pub of_answer : {F : Type 0} → S × Answer F → S × Outcome (Message F)
  of_answer (s, a) = (s, elim a.error [ some e ↦ errs e | none ↦ ends a.message ])

module _ {S F : Type 0} (w : Outside S F) where
  -- The calls of the helpers, each of which returns early on an error.
  unfoldable pub query : Str → List Str → List Str → List Str → QueryParams → M S (Response F)
  query category entries types props params s = of_query (
      query_api w.ops w.api w.unmarshal_value w.default_call_timeout s category entries types props
        params)

  unfoldable pub portal_id : Str → M S ℤ
  portal_id spec s = of_found (
      lookup_portal_id_or_create w.api w.ops w.default_call_timeout w.type_error w.unmarshal
        w.lookup_ip w.split_host w.host_name s default_iscsi_port spec)

  unfoldable pub initiator_id : Str → M S ℤ
  initiator_id spec s =
      of_found
        (lookup_initiator_or_create_blank w.api w.ops w.default_call_timeout w.type_error s spec)

  unfoldable pub bulk : Str → ℤ → List (Json F) → Bool → M S (BulkAnswer F)
  bulk endpoint timeout calls wait s =
      of_bulk (maybe_bulk_api_call_array w.api w.ops s endpoint timeout calls wait)

  unfoldable pub await_job : ℤ → M S (Message F)
  await_job job s = of_answer (w.api.wait_for_job s job)

  unfoldable pub call : Str → Json F → M S (Message F)
  call method params s = of_answer (api_call w.api w.ops s method w.default_call_timeout params)
