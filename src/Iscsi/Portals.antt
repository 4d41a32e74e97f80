-- ===== src/Iscsi/Portals.antt =====
-- cmd/iscsi_util.go: LookupPortalIdOrCreate and MaybeLookupIpPortFromPortal.
use truenas_incus_ctl.Base.{
  ◌∷◌, ◌++◌, Option, none, some, ℤ, int_eq, Str, codes, is_empty, contains_str, if◌then◌else◌,
}
use truenas_incus_ctl.Base.Decimal.{atoi}
use truenas_incus_ctl.Json.{
  Json, int, arr, obj, Items, nil, cons, Fields, end, field, FloatOps, get_field, delete_field,
  sprint,
}
use truenas_incus_ctl.Api.{Run, returns}
use truenas_incus_ctl.Names.Hosts.{ip_port_to_json_string, resolved_ipv4_or_verbatim}
use truenas_incus_ctl.Query.Filter.{Result, fails, gives}
use truenas_incus_ctl.Session.{Session, Answer, api_call}
use truenas_incus_ctl.Iscsi.TargetNames.{strip_ip_v6_brackets}
use truenas_incus_ctl.Iscsi.Tool.{fields_of, undecoded, decode_object}
use truenas_incus_ctl.Iscsi.Lookups.{
  Found, not_found, lookup_portal_by_object, after_create, or_create, equals, as_items,
}

abbrev pub no_portal : Str
no_portal = codes "Portal was not specified (use ':' for the default portal)"

module _ {F : Type 0} where
  -- The first object of an array loses its port.
  unfoldable pub without_port : Json F → Json F
  without_port (arr (cons (obj fs) js)) = arr (cons (obj (delete_field (codes "port") fs)) js)
  without_port j = j

  -- The map behind "listen" in the first result that has one; what is no object ends the search.
  unfoldable pub listen_in : Option (Json F) → Option (Option (Fields F))
  listen_in (some (arr (cons (obj fs) js))) = some (some fs)
  listen_in (some (arr (cons j js))) = some none
  listen_in (some (obj fs)) = some (some fs)
  listen_in _ = none

  unfoldable pub listen_of : Items F → Option (Fields F)
  unfolding listen_in
  listen_of nil = none
  listen_of (cons (obj fs) js) =
      let later = listen_of js in
      elim (listen_in (get_field (codes "listen") fs)) [ none ↦ later | some found ↦ found ]
  listen_of (cons j js) = listen_of js

  -- The object that the text of an address is decoded to.
  unfoldable pub listen_object : Json F → Result (Fields F)
  listen_object (arr nil) = fails (codes "listen object was empty")
  listen_object (arr (cons (obj fs) js)) = gives fs
  listen_object (obj fs) = gives fs
  listen_object j = fails (codes "listen object was not a map or array of map")

-- `host_name` is the session's; `split_host` is the host of `net.SplitHostPort`, none if that fails.
module _ {S F : Type 0} (api : Session S F) (ops : FloatOps F) (default_call_timeout : ℤ)
    (type_error : Json F → Str) (unmarshal : Str → Result (Json F)) (lookup_ip : Str → Option Str)
    (split_host : Str → Option Str) (host_name : Str) where
  unfoldable pub create_portal : S → Json F → S × Run Found
  unfolding after_create lookup_portal_by_object api_call
  create_portal s listen =
      after_create api ops default_call_timeout type_error
        (api_call api ops s (codes "iscsi.portal.create") default_call_timeout
          (arr (cons (obj (field (codes "listen") listen end)) nil)))
        (λ t. lookup_portal_by_object api ops default_call_timeout type_error t listen)

  unfoldable pub portal_of : S → Result (Json F) → S × Run Found
  unfolding create_portal or_create lookup_portal_by_object without_port
  portal_of s (fails e) = (s, returns (not_found (some e)))
  portal_of s (gives listen) =
      or_create api ops default_call_timeout type_error (λ t. create_portal t (without_port listen))
        (lookup_portal_by_object api ops default_call_timeout type_error s listen)

  unfoldable pub own_host : Str
  unfolding strip_ip_v6_brackets
  own_host = elim (split_host host_name) [
    | none ↦ strip_ip_v6_brackets host_name
    | some host ↦ host
  ]

  unfoldable pub lookup_portal_id_or_create : S → ℤ → Str → S × Run Found
  unfolding portal_of own_host
  lookup_portal_id_or_create s default_port spec =
      let made =
        portal_of s (unmarshal (ip_port_to_json_string lookup_ip spec own_host default_port)) in
      if is_empty spec then (s, returns (not_found (some no_portal))) else elim (atoi spec) [
        | some n ↦ (s, returns (record { id = n; error = none }))
        | none ↦ made
      ]

  -- The address and the port, with the defaults; an address of IPv6 stands in brackets.
  unfoldable pub ip_text : Option (Json F) → Str
  ip_text none = resolved_ipv4_or_verbatim lookup_ip host_name
  ip_text (some v) = sprint ops v

  unfoldable pub in_brackets : Str → Str
  unfolding strip_ip_v6_brackets
  in_brackets ip =
      if contains_str ip (codes ":") then b'[' ∷ strip_ip_v6_brackets ip ++ codes "]" else ip

  unfoldable pub or_int : ℤ → Option (Json F) → Json F
  or_int n none = int n
  or_int n (some v) = v

  unfoldable pub ip_port_text : ℤ → Fields F → Str
  unfolding ip_text in_brackets or_int
  ip_port_text default_port listen =
      in_brackets (ip_text (get_field (codes "ip") listen))
      ++ b':' ∷ sprint ops (or_int default_port (get_field (codes "port") listen))

  unfoldable pub read_listen : ℤ → Result (Json F) → Result Str
  unfolding listen_object ip_port_text
  read_listen default_port (fails e) = fails e
  read_listen default_port (gives j) = elim (listen_object j) [
    | fails e ↦ fails e
    | gives listen ↦ gives (ip_port_text default_port listen)
  ]

  -- What the specification itself says.
  unfoldable pub from_spec : ℤ → Str → Result Str
  unfolding read_listen
  from_spec default_port spec =
      read_listen default_port
        (unmarshal (ip_port_to_json_string lookup_ip spec host_name default_port))

  unfoldable pub read_portal : ℤ → Str → Answer F → Result Str
  unfolding from_spec listen_of as_items ip_port_text
  read_portal default_port spec a = elim a.error [
    | some e ↦ fails e
    | none ↦ elim (decode_object type_error a.message) [
      | undecoded e ↦ fails e
      | fields_of response ↦
          elim (listen_of (
            as_items api ops default_call_timeout type_error
              (get_field (codes "result") response))) [
                | none ↦ from_spec default_port spec
                | some listen ↦ gives (ip_port_text default_port listen)
              ]
    ]
  ]

  unfoldable pub query_portal : S → ℤ → Str → ℤ → S × Result Str
  unfolding read_portal api_call
  query_portal s default_port spec id =
      let (t, a) = api_call api ops s (codes "iscsi.portal.query") default_call_timeout (
        arr (
          cons
            (arr (cons (equals api ops default_call_timeout type_error (codes "id") (int id)) nil))
            (cons (obj end) nil))) in
      (t, read_portal default_port spec a)

  unfoldable pub maybe_lookup_ip_port_from_portal : S → ℤ → Str → S × Result Str
  unfolding query_portal from_spec
  maybe_lookup_ip_port_from_portal s default_port spec =
      let queried = elim (atoi spec) as (λ _. S × Result Str) [
        | none ↦ (s, from_spec default_port spec)
        | some n ↦ query_portal s default_port spec n
      ] in
      if is_empty spec then (s, fails no_portal) else queried
