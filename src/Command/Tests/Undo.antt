-- ===== src/Command/Tests/Undo.antt =====
-- A run of createIscsi over a session that knows whether its object 1 still exists and which endpoints
-- were called, whose creations give the object 7 but in which extents cannot be created.
use truenas_incus_ctl.Base.{
  some, to_lower, has_prefix, inl, inr, str_eq, ◌==◌, ◌++◌, if◌then◌else◌, ℕ, eqb, ◌≡◌, refl, sym,
  ◌∙◌, ap, Bool, true, false, ◌&&◌, not, ◌||◌, [], ◌∷◌, none, pos, Str, codes, has_suffix, str_eqb,
  arith, List,
}
use truenas_incus_ctl.Base.Dict.{has, lookup, insert, Dict}
use truenas_incus_ctl.Json.{
  Json, str, int64, int, obj, arr, Items, nil, cons, field, end, get_field, depth,
}
use truenas_incus_ctl.Api.{
  returns, extract_api_error_json, get_results_and_errors_from_api_response, get_id_from_object,
}
use truenas_incus_ctl.Session.{
  Session, Message, Answer, no_message, value, BulkAnswer, maybe_bulk_api_call_array,
}
use truenas_incus_ctl.Base.Decimal.{atoi}
use truenas_incus_ctl.Json.{sprint}
use truenas_incus_ctl.Api.{extract_json_array_of_maps}
use truenas_incus_ctl.Query.Request.{query_api}
use truenas_incus_ctl.Query.Rows.{
  get_map_from_query_response_keyed_on, get_list_from_query_response,
}
use truenas_incus_ctl.Iscsi.Portals.{lookup_portal_id_or_create}
use truenas_incus_ctl.Iscsi.Lookups.{lookup_initiator_or_create_blank}
use truenas_incus_ctl.Command.Steps.{query, portal_id, initiator_id}
use truenas_incus_ctl.Command.Steps.{Outside, ends, bulk, results_and_errors}
use truenas_incus_ctl.Command.Sample.{world_of}
use truenas_incus_ctl.Command.Keeping.{Kept}
use truenas_incus_ctl.Command.Create.{ids_of, delete_all, create_iscsi}
use truenas_incus_ctl.Command.Create.Own.{Creates, Harmless}
use truenas_incus_ctl.Command.Create.Undone.{KeptByUndo, create_undoes_own}

-- The parameters name the object 1.
abbrev names_one : Json ℕ → Bool
names_one (arr (cons (int64 (pos n)) js)) = eqb n 1
names_one _ = false

abbrev some_names_one : Items ℕ → Bool
some_names_one nil = false
some_names_one (cons j js) = names_one j || some_names_one js

abbrev some_named : Json ℕ → Bool
some_named (arr ps) = some_names_one ps
some_named _ = false

-- The parameters of a bulk call.
abbrev bulk_deletes : Json ℕ → Bool
bulk_deletes (arr (cons (str m) (cons ps js))) = has_suffix m (codes ".delete") && some_named ps
bulk_deletes _ = false

abbrev object_7 : Message ℕ
object_7 = value (obj (field (codes "result") (obj (field (codes "id") (int (pos 7)) end)) end))

-- A query finds nothing.
abbrev reply_to : Str → Answer ℕ
reply_to m =
    if m == codes "iscsi.extent.create"
    then record { message = no_message; error = some (codes "no space") }
    else if has_suffix m (codes ".query")
    then record { message = value (obj (field (codes "result") (arr nil) end)); error = none }
    else record { message = object_7; error = none }

abbrev KeptState : Type 0
KeptState = Bool × List Str

abbrev keeper : Session KeptState ℕ
keeper = record {
  is_logged_in = λ s. true;
  login = λ s. (s, none);
  call_raw = λ s m t p.
      ((s.0 && not (names_one p && has_suffix m (codes ".delete")), s.1 ++ m ∷ []), reply_to m);
  call_async_raw = λ s m p.
      ((s.0 && not (bulk_deletes p), s.1 ++ m ∷ []), record { job_id = pos 1; error = none });
  wait_for_job = λ s j. (s, record { message = object_7; error = none });
  skip_waiting_job_on_close = λ s j. s;
}

abbrev world : Outside KeptState ℕ
world = world_of keeper

abbrev Alive : KeptState → Type 0
Alive s = s.0 ≡ true

keeper-Kept : Kept keeper Harmless Alive
keeper-Kept = record {
  login = λ s i. i;
  call = λ s m t p h i. ground (arith, h, i);
  start = λ s m ps h i. ground (arith, h, i);
  wait = λ s job i. i;
  skip = λ s job i. i;
}

-- A creation of targets is answered with the object 7.
targets_7 :
    (params : List (Json ℕ)) (s : KeptState) (answer : BulkAnswer ℕ)
    → (bulk world (codes "iscsi.target.create") (pos 30) params true s).1 ≡ ends answer
    → answer.message ≡ object_7
unfolding bulk maybe_bulk_api_call_array extract_api_error_json get_field str_eqb depth has_suffix
targets_7 [] s answer e = absurd (cc)
targets_7 (p ∷ []) s answer e = cc
targets_7 (p ∷ q ∷ ps) s answer e = cc

-- One of extents is, too, if it is answered.
extents_7 :
    (params : List (Json ℕ)) (s : KeptState) (answer : BulkAnswer ℕ)
    → (bulk world (codes "iscsi.extent.create") (pos 30) params true s).1 ≡ ends answer
    → answer.message ≡ object_7
unfolding bulk maybe_bulk_api_call_array extract_api_error_json get_field str_eqb depth
extents_7 [] s answer e = absurd (cc)
extents_7 (p ∷ []) s answer e = absurd (cc)
extents_7 (p ∷ q ∷ ps) s answer e = cc

sends_7 :
    (m : Str) (params : List (Json ℕ)) (s : KeptState) (answer : BulkAnswer ℕ)
    → Creates world m
    → (bulk world m (pos 30) params true s).1 ≡ ends answer
    → answer.message ≡ object_7
sends_7 m params s answer (inl q) e = targets_7 params s answer (rw q at e)
sends_7 m params s answer (inr q) e = extents_7 params s answer (rw q at e)

deletes_7 :
    (endpoint : Str) (s : KeptState)
    → (delete_all world endpoint (arr (cons (int (pos 7)) nil) ∷ []) s).0 ≡ s.0
unfolding delete_all bulk maybe_bulk_api_call_array
deletes_7 endpoint s = ground arith

returned :
    (ids : List (Json ℕ))
    → ids_of (results_and_errors object_7).0 ≡ returns ids
    → ids ≡ arr (cons (int (pos 7)) nil) ∷ []
unfolding ids_of results_and_errors get_results_and_errors_from_api_response get_field str_eqb depth
    get_id_from_object
returned ids e = cc

own_kept : KeptByUndo world keeper-Kept
own_kept s c ids own e i =
    let listed : c.result_list ≡ (results_and_errors object_7).0 =
      own.results
      ∙ ap (λ m. (results_and_errors m).0)
          (sends_7 c.endpoint c.params own.before own.answer own.creates own.sent) in
    let same : ids_of (results_and_errors object_7).0 ≡ returns ids = sym (ap ids_of listed) ∙ e in
    let seven : ids ≡ arr (cons (int (pos 7)) nil) ∷ [] = returned ids same in
    rw seven (deletes_7 c.endpoint s ∙ i)

abbrev flags : Dict Str Str
flags = (codes "portal", codes "1") ∷ (codes "initiator", codes "2") ∷ []

create_undoes_own_example :
    (create_iscsi world (codes "create") flags (codes "tank/a" ∷ []) (true, [])).0.0 ≡ true
create_undoes_own_example =
    create_undoes_own world keeper-Kept own_kept (codes "create") flags (codes "tank/a" ∷ [])
      (true, []) refl

-- The target is created, the extent is not, and the target is deleted again.
target_undone :
    (create_iscsi world (codes "create") flags (codes "tank/a" ∷ []) (true, [])).0.1
    ≡ codes "iscsi.target.query"
      ∷ codes "iscsi.target.create"
      ∷ codes "iscsi.extent.query"
      ∷ codes "iscsi.extent.create"
      ∷ codes "iscsi.target.delete"
      ∷ []
unfolding create_iscsi lookup str_eqb to_lower has query query_api has_suffix extract_api_error_json
    get_field extract_json_array_of_maps portal_id lookup_portal_id_or_create atoi initiator_id
    lookup_initiator_or_create_blank maybe_bulk_api_call_array get_map_from_query_response_keyed_on
    get_list_from_query_response get_results_and_errors_from_api_response depth insert sprint
    has_prefix get_id_from_object
target_undone = refl
