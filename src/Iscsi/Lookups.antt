-- ===== src/Iscsi/Lookups.antt =====
-- cmd/iscsi_util.go: LookupPortalByObject, LookupInitiatorByFilter and LookupInitiatorOrCreateBlank.
use truenas_incus_ctl.Base.{
  [], ◌∷◌, Option, none, some, ℤ, negsuc, int_eq, ◌==◌, Str, codes, is_empty, if◌then◌else◌,
}
use truenas_incus_ctl.Base.Decimal.{atoi}
use truenas_incus_ctl.Json.{
  Json, str, arr, obj, Items, nil, cons, end, field, FloatOps, get_field, sprint,
}
use truenas_incus_ctl.Api.{
  Run, returns, panics, get_id_from_object, get_results_and_errors_from_api_response,
}
use truenas_incus_ctl.Session.{Session, Message, value, Answer, api_call}
use truenas_incus_ctl.Iscsi.Tool.{fields_of, undecoded, decode_object}

-- The two results of a look-up.
pub record Found : Type 0 where
  pub id : ℤ
  pub error : Option Str

abbrev pub not_found : Option Str → Found
not_found e = record { id = negsuc 0; error = e }

-- `type_error` is the error of `json.Unmarshal` for a value that is no object.
module _ {S F : Type 0} (api : Session S F) (ops : FloatOps F) (default_call_timeout : ℤ)
    (type_error : Json F → Str) where
  -- The id of a result, if its text is a number.
  unfoldable pub number_in : Run (Json F) → Run (Option ℤ)
  number_in panics = panics
  number_in (returns j) = returns (atoi (sprint ops j))

  -- The loop over the results; -1 if none has a number.
  unfoldable pub first_id : Items F → Run ℤ
  unfolding number_in get_id_from_object
  first_id nil = returns (negsuc 0)
  first_id (cons j js) =
      let later = first_id js in
      elim (number_in (get_id_from_object j)) [
        | panics ↦ panics
        | returns none ↦ later
        | returns (some n) ↦ returns n
      ]

  unfoldable pub as_items : Option (Json F) → Items F
  as_items (some (arr js)) = js
  as_items _ = nil

  unfoldable pub found : Run ℤ → Run Found
  found panics = panics
  found (returns n) = returns (record { id = n; error = none })

  unfoldable pub read_ids : Answer F → Run Found
  unfolding first_id as_items found decode_object
  read_ids a = elim a.error [
    | some e ↦ returns (not_found (some e))
    | none ↦ elim (decode_object type_error a.message) [
      | undecoded e ↦ returns (not_found (some e))
      | fields_of response ↦ found (first_id (as_items (get_field (codes "result") response)))
    ]
  ]

  unfoldable pub lookup_by_filter : S → Str → Items F → S × Run Found
  unfolding read_ids api_call
  lookup_by_filter s endpoint query_filter =
      let (t, a) =
        api_call api ops s endpoint default_call_timeout
          (arr (cons (arr query_filter) (cons (obj end) nil))) in
      (t, read_ids a)

  abbrev pub equals : Str → Json F → Json F
  equals key v = arr (cons (str key) (cons (str (codes "=")) (cons v nil)))

  unfoldable pub lookup_portal_by_object : S → Json F → S × Run Found
  unfolding lookup_by_filter
  lookup_portal_by_object s to_match =
      lookup_by_filter s (codes "iscsi.portal.query") (cons (equals (codes "listen") to_match) nil)

  unfoldable pub lookup_initiator_by_filter : S → Items F → S × Run Found
  unfolding lookup_by_filter
  lookup_initiator_by_filter s query_filter =
      lookup_by_filter s (codes "iscsi.initiator.query") query_filter

  -- The id in what the creation gives, or -1. Bytes that are no object have no results.
  unfoldable pub created_id : Message F → Run ℤ
  unfolding number_in get_id_from_object
  created_id (value (obj response)) = elim (get_results_and_errors_from_api_response response).0 [
    | [] ↦ returns (negsuc 0)
    | r ∷ _ ↦ elim (number_in (get_id_from_object r)) [
      | panics ↦ panics
      | returns none ↦ returns (negsuc 0)
      | returns (some n) ↦ returns n
    ]
  ]
  created_id _ = returns (negsuc 0)

  -- After the creation: an id that is still unknown is looked up again.
  unfoldable pub after_create : S × Answer F → (S → S × Run Found) → S × Run Found
  unfolding created_id
  after_create (s, a) again = elim a.error [
    | some e ↦ (s, returns (not_found (some e)))
    | none ↦ elim (created_id a.message) [
      | panics ↦ (s, panics)
      | returns n ↦
          if n == negsuc 0 then again s else (s, returns (record { id = n; error = none }))
    ]
  ]

  -- What was looked up, or else what `create` makes.
  unfoldable pub or_create : (S → S × Run Found) → S × Run Found → S × Run Found
  or_create create (s, panics) = (s, panics)
  or_create create (s, returns f) = elim f.error [
    | some e ↦ (s, returns (not_found (some e)))
    | none ↦ if f.id == negsuc 0 then create s else (s, returns f)
  ]

  unfoldable pub create_blank : S → Str → Items F → S × Run Found
  unfolding after_create api_call lookup_initiator_by_filter
  create_blank s spec query_filter =
      after_create
        (api_call api ops s (codes "iscsi.initiator.create") default_call_timeout
          (arr (cons (obj (field (codes "comment") (str spec) end)) nil)))
        (λ t. lookup_initiator_by_filter t query_filter)

  unfoldable pub initiator_filter : Str → Items F
  initiator_filter spec =
      if is_empty spec then nil else cons (equals (codes "comment") (str spec)) nil

  unfoldable pub lookup_initiator_or_create_blank : S → Str → S × Run Found
  unfolding or_create create_blank lookup_initiator_by_filter initiator_filter
  lookup_initiator_or_create_blank s spec = elim (atoi spec) [
    | some n ↦ (s, returns (record { id = n; error = none }))
    | none ↦
        or_create (λ t. create_blank t spec (initiator_filter spec))
          (lookup_initiator_by_filter s (initiator_filter spec))
  ]
