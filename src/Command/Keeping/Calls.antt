-- ===== src/Command/Keeping/Calls.antt =====
-- What the helpers of Command/Steps keep, by the endpoints that they call.
use truenas_incus_ctl.Base.{
  Bool, List, ◌++◌, Option, none, some, ℤ, Str, codes, Bool-cases, eqb, length, arith, inl, inr,
}
use truenas_incus_ctl.Json.{Json, str, arr, obj, field, end, Items, nil, cons}
use truenas_incus_ctl.Api.{Run, returns, panics}
use truenas_incus_ctl.Names.Hosts.{ip_port_to_json_string}
use truenas_incus_ctl.Session.{Answer}
use truenas_incus_ctl.Query.Filter.{QueryParams, Result, fails, gives}
use truenas_incus_ctl.Query.Request.{query_api, send_query}
use truenas_incus_ctl.Iscsi.Lookups.{
  Found, initiator_filter, lookup_by_filter, lookup_portal_by_object, lookup_initiator_by_filter,
  after_create, or_create, create_blank, lookup_initiator_or_create_blank,
}
use truenas_incus_ctl.Iscsi.Portals.{
  create_portal, portal_of, without_port, own_host, lookup_portal_id_or_create,
}
use truenas_incus_ctl.Command.Steps.{
  Outside, query, portal_id, initiator_id, bulk, await_job, of_query, default_iscsi_port,
}
use truenas_incus_ctl.Command.Keeping.{Kept, Preserves, Keeps, api_call-Keeps, maybe_bulk-Keeps}

module _ {S F : Type 0} (w : Outside S F) {Allowed : Str → Type 0} {Inv : S → Type 0}
    (kept : Kept w.api Allowed Inv) where
  send_query-Keeps :
      (category : Str) (props : List Str) (params : QueryParams) (r : Result (List (Json F)))
      → Allowed (category ++ codes ".query")
      → Preserves Inv (λ s.
        send_query w.ops w.api w.unmarshal_value w.default_call_timeout s category props params r)
  unfolding send_query
  send_query-Keeps category props params (fails e) a s i = i
  send_query-Keeps category props params (gives filter) a s i =
      api_call-Keeps w.api w.ops kept s _ _ _ a i

  query_api-Keeps :
      (category : Str) (es ts props : List Str) (params : QueryParams)
      → Allowed (category ++ codes ".query")
      → Preserves Inv (λ s.
        query_api w.ops w.api w.unmarshal_value w.default_call_timeout s category es ts props
          params)
  unfolding query_api
  query_api-Keeps category es ts props params a s i =
      elim (Bool-cases (eqb (length ts) (length es))) [
        | inl e ↦ rw e (send_query-Keeps category props params _ a s i)
        | inr e ↦ rw e i
      ]

  of_query-Keeps : {A : Type 0} (r : S × Option (A × Option Str)) → Inv r.0 → Inv (of_query r).0
  of_query-Keeps (s, none) i = i
  of_query-Keeps (s, some (a, none)) i = i
  of_query-Keeps (s, some (a, some e)) i = i

  pub query-Keeps :
      (category : Str) (es ts props : List Str) (params : QueryParams)
      → Allowed (category ++ codes ".query")
      → Keeps Inv (query w category es ts props params)
  unfolding query
  query-Keeps category es ts props params a = record {
    preserves = λ s i. of_query-Keeps _ (query_api-Keeps category es ts props params a s i);
  }

  after_create-Keeps :
      (r : S × Answer F) (again : S → S × Run Found)
      → Inv r.0
      → ((t : S) → Inv t → Inv (again t).0)
      → Inv (after_create w.api w.ops w.default_call_timeout w.type_error r again).0
  unfolding after_create
  after_create-Keeps (s, a) again i h = ground (arith, h s i)

  or_create-Keeps :
      (create : S → S × Run Found) (r : S × Run Found)
      → Inv r.0
      → ((t : S) → Inv t → Inv (create t).0)
      → Inv (or_create w.api w.ops w.default_call_timeout w.type_error create r).0
  unfolding or_create
  or_create-Keeps create (s, panics) i h = i
  or_create-Keeps create (s, returns f) i h = ground (arith, h s i)

  lookup_by_filter-Keeps :
      (s : S) (endpoint : Str) (js : Items F)
      → Allowed endpoint
      → Inv s
      → Inv (lookup_by_filter w.api w.ops w.default_call_timeout w.type_error s endpoint js).0
  unfolding lookup_by_filter
  lookup_by_filter-Keeps s endpoint js a i = api_call-Keeps w.api w.ops kept s _ _ _ a i

  pub bulk-Keeps :
      (m : Str) (t : ℤ) (ps : List (Json F)) (b : Bool) → Allowed m → Keeps Inv (bulk w m t ps b)
  unfolding bulk
  bulk-Keeps m t ps b a = record {
    preserves = λ s i. maybe_bulk-Keeps w.api w.ops kept s m t ps b a i;
  }

  pub await_job-Keeps : (job : ℤ) → Keeps Inv (await_job w job)
  unfolding await_job
  await_job-Keeps job = record { preserves = λ s i. kept.wait s job i }

  module _ (may_query : Allowed (codes "iscsi.portal.query"))
      (may_create : Allowed (codes "iscsi.portal.create")) where
    create_portal-Keeps :
        (listen : Json F)
        → Preserves Inv (λ s.
          create_portal w.api w.ops w.default_call_timeout w.type_error w.unmarshal w.lookup_ip
            w.split_host w.host_name s listen)
    unfolding create_portal lookup_portal_by_object
    create_portal-Keeps listen s i =
        after_create-Keeps _
          (λ t. lookup_portal_by_object w.api w.ops w.default_call_timeout w.type_error t listen)
          (api_call-Keeps w.api w.ops kept s _ _
            (arr (cons (obj (field (codes "listen") listen end)) nil)) may_create i)
          (λ t it. lookup_by_filter-Keeps t _ _ may_query it)

    portal_of-Keeps :
        (r : Result (Json F))
        → Preserves Inv (λ s.
          portal_of w.api w.ops w.default_call_timeout w.type_error w.unmarshal w.lookup_ip
            w.split_host w.host_name s r)
    unfolding portal_of lookup_portal_by_object
    portal_of-Keeps (fails e) s i = i
    portal_of-Keeps (gives listen) s i =
        or_create-Keeps
          (λ t.
            create_portal w.api w.ops w.default_call_timeout w.type_error w.unmarshal w.lookup_ip
              w.split_host w.host_name t (without_port listen))
          _ (lookup_by_filter-Keeps s _ _ may_query i) (create_portal-Keeps (without_port listen))

    portal_id-Preserves : (spec : Str) → Preserves Inv (portal_id w spec)
    unfolding portal_id lookup_portal_id_or_create
    portal_id-Preserves spec s i = ground (
      arith,
      portal_of-Keeps
          (w.unmarshal (
            ip_port_to_json_string w.lookup_ip spec
              (own_host w.api w.ops w.default_call_timeout w.type_error w.unmarshal w.lookup_ip
                w.split_host w.host_name)
              default_iscsi_port))
          s i,
    )

    pub portal_id-Keeps : (spec : Str) → Keeps Inv (portal_id w spec)
    portal_id-Keeps spec = record { preserves = portal_id-Preserves spec }

  module _ (may_query : Allowed (codes "iscsi.initiator.query"))
      (may_create : Allowed (codes "iscsi.initiator.create")) where
    create_blank-Keeps :
        (spec : Str) (js : Items F)
        → Preserves Inv
            (λ s. create_blank w.api w.ops w.default_call_timeout w.type_error s spec js)
    unfolding create_blank lookup_initiator_by_filter
    create_blank-Keeps spec js s i =
        after_create-Keeps _
          (λ t. lookup_initiator_by_filter w.api w.ops w.default_call_timeout w.type_error t js)
          (api_call-Keeps w.api w.ops kept s _ _
            (arr (cons (obj (field (codes "comment") (str spec) end)) nil)) may_create i)
          (λ t it. lookup_by_filter-Keeps t _ js may_query it)

    initiator_id-Preserves : (spec : Str) → Preserves Inv (initiator_id w spec)
    unfolding initiator_id lookup_initiator_or_create_blank lookup_initiator_by_filter
    initiator_id-Preserves spec s i = ground (
      arith,
      or_create-Keeps
          (λ t.
            create_blank w.api w.ops w.default_call_timeout w.type_error t spec
              (initiator_filter w.api w.ops w.default_call_timeout w.type_error spec))
          (lookup_by_filter w.api w.ops w.default_call_timeout w.type_error s
            (codes "iscsi.initiator.query")
            (initiator_filter w.api w.ops w.default_call_timeout w.type_error spec))
          (lookup_by_filter-Keeps s (codes "iscsi.initiator.query")
            (initiator_filter w.api w.ops w.default_call_timeout w.type_error spec) may_query i)
          (create_blank-Keeps spec
            (initiator_filter w.api w.ops w.default_call_timeout w.type_error spec)),
    )

    pub initiator_id-Keeps : (spec : Str) → Keeps Inv (initiator_id w spec)
    initiator_id-Keeps spec = record { preserves = initiator_id-Preserves spec }
