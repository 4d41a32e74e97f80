-- ===== src/Command/Keeping.antt =====
-- What the steps of cmd/iscsi.go keep: a property of the session's state that every allowed call
-- keeps is kept by the helpers that make such calls only.
pub mod Calls
use truenas_incus_ctl.Base.{
  Bool, List, [], ◌∷◌, ◌++◌, Option, none, some, ℤ, Str, codes, Bool-cases, eqb, length, arith, inl,
  inr,
}
use truenas_incus_ctl.Json.{Json, str, arr, obj, field, end, Items, nil, cons, FloatOps}
use truenas_incus_ctl.Api.{Run, returns, panics}
use truenas_incus_ctl.Names.Hosts.{ip_port_to_json_string}
use truenas_incus_ctl.Session.{
  Session, Answer, Started, maybe_login, call_logged_in, api_call, maybe_skip, start_logged_in,
  api_call_async, of_answer, maybe_await, maybe_bulk_api_call_array,
}
use truenas_incus_ctl.Query.Filter.{QueryParams, Result, fails, gives}
use truenas_incus_ctl.Query.Request.{query_api, send_query}
use truenas_incus_ctl.Iscsi.Lookups.{
  Found, initiator_filter, lookup_by_filter, lookup_portal_by_object, lookup_initiator_by_filter,
  after_create, or_create, create_blank, lookup_initiator_or_create_blank,
}
use truenas_incus_ctl.Iscsi.Portals.{
  create_portal, portal_of, without_port, own_host, lookup_portal_id_or_create,
}
use truenas_incus_ctl.Command.Steps.{
  Outside, Outcome, M, and_then, ◌>>=◌, query, portal_id, initiator_id, bulk, await_job, call,
  of_query, of_found, default_iscsi_port,
}

-- A login, the end of a job, the wish not to wait for one, and each call of an allowed endpoint,
-- alone or in bulk.
pub record Kept {S F : Type 0} (api : Session S F) (Allowed : Str → Type 0) (Inv : S → Type 0)
    : Type 0 where
  pub login : (s : S) → Inv s → Inv (api.login s).0
  pub call :
      (s : S) (m : Str) (t : ℤ) (p : Json F) → Allowed m → Inv s → Inv (api.call_raw s m t p).0
  pub start :
      (s : S) (m : Str) (ps : Json F)
      → Allowed m
      → Inv s
      → Inv (api.call_async_raw s (codes "core.bulk") (arr (cons (str m) (cons ps nil)))).0
  pub wait : (s : S) (job : ℤ) → Inv s → Inv (api.wait_for_job s job).0
  pub skip : (s : S) (job : ℤ) → Inv s → Inv (api.skip_waiting_job_on_close s job)

abbrev pub Preserves : {S A : Type 0} → (S → Type 0) → (S → S × A) → Type 0
Preserves Inv m = (s : _) → Inv s → Inv (m s).0

-- A step that keeps a property, whatever its outcome.
pub record Keeps {S A : Type 0} (Inv : S → Type 0) (m : M S A) : Type 0 where
  pub preserves : Preserves Inv m

module _ {S A B : Type 0} (Inv : S → Type 0) where
  and_then-Keeps :
      (r : S × Outcome A) (f : A → M S B)
      → Inv r.0
      → ((a : A) → Keeps Inv (f a))
      → Inv (and_then r f).0
  and_then-Keeps (s, Outcome.ends a) f h k = (k a).preserves s h
  and_then-Keeps (s, Outcome.errs e) f h k = h
  and_then-Keeps (s, Outcome.crashes) f h k = h
  and_then-Keeps (s, Outcome.exits) f h k = h
  and_then-Keeps (s, Outcome.spins) f h k = h

  pub >>=-Keeps :
      (m : M S A) (f : A → M S B) → Keeps Inv m → ((a : A) → Keeps Inv (f a)) → Keeps Inv (m >>= f)
  >>=-Keeps m f h k = record { preserves = λ s i. and_then-Keeps (m s) f (h.preserves s i) k }

module _ {S F : Type 0} (api : Session S F) (ops : FloatOps F) {Allowed : Str → Type 0}
    {Inv : S → Type 0} (kept : Kept api Allowed Inv) where
  maybe_login-Keeps : (s : S) → Inv s → Inv (maybe_login api s).0
  unfolding maybe_login
  maybe_login-Keeps s i = elim (Bool-cases (api.is_logged_in s)) [
    | inl e ↦ rw e i
    | inr e ↦ rw e (kept.login s i)
  ]

  call_logged_in-Keeps :
      (m : Str) (t : ℤ) (p : Json F) (l : S × Option Str)
      → Allowed m
      → Inv l.0
      → Inv (call_logged_in api ops m t p l).0
  unfolding call_logged_in
  call_logged_in-Keeps m t p (s, some e) a i = i
  call_logged_in-Keeps m t p (s, none) a i = kept.call s m t p a i

  pub api_call-Keeps :
      (s : S) (m : Str) (t : ℤ) (p : Json F) → Allowed m → Inv s → Inv (api_call api ops s m t p).0
  unfolding api_call
  api_call-Keeps s m t p a i =
      call_logged_in-Keeps m t p (maybe_login api s) a (maybe_login-Keeps s i)

  maybe_skip-Keeps : (b : Bool) (r : S × Started) → Inv r.0 → Inv (maybe_skip api b r).0
  unfolding maybe_skip
  maybe_skip-Keeps b (s, r) i = ground (arith, kept.skip s r.job_id)

  start_logged_in-Keeps :
      (m : Str) (ps : Json F) (b : Bool) (l : S × Option Str)
      → Allowed m
      → Inv l.0
      → Inv (start_logged_in api (codes "core.bulk") (arr (cons (str m) (cons ps nil))) b l).0
  unfolding start_logged_in
  start_logged_in-Keeps m ps b (s, some e) a i = i
  start_logged_in-Keeps m ps b (s, none) a i = maybe_skip-Keeps b _ (kept.start s m ps a i)

  maybe_await-Keeps : (b : Bool) (r : S × Started) → Inv r.0 → Inv (maybe_await api b r).0
  unfolding maybe_await of_answer
  maybe_await-Keeps b (s, r) i = ground (arith, kept.wait s r.job_id)

  pub maybe_bulk-Keeps :
      (s : S) (m : Str) (t : ℤ) (ps : List (Json F)) (b : Bool)
      → Allowed m
      → Inv s
      → Inv (maybe_bulk_api_call_array api ops s m t ps b).0
  unfolding maybe_bulk_api_call_array of_answer api_call_async
  maybe_bulk-Keeps s m t [] b a i = i
  maybe_bulk-Keeps s m t (p ∷ []) b a i = api_call-Keeps s m t p a i
  maybe_bulk-Keeps s m t (p ∷ q ∷ ps) b a i =
      maybe_await-Keeps b _
        (start_logged_in-Keeps m _ b (maybe_login api s) a (maybe_login-Keeps s i))
