-- ===== src/Command/Crud/Join.antt =====
-- cmd/iscsi_crud.go: iscsiQueryTargetExtentWithJoin, which gives the pairs of targets and extents the
-- names of both.
use truenas_incus_ctl.Base.{
  Bool, true, false, List, [], ◌∷◌, ◌++◌, map, Option, none, some, Str, str_eq, codes, is_empty,
  if◌then◌else◌,
}
use truenas_incus_ctl.Base.Dict.{Dict, lookup, insert, keys}
use truenas_incus_ctl.Json.{Json, Fields, FloatOps, get_field, set_field, sprint}
use truenas_incus_ctl.Api.{or_null}
use truenas_incus_ctl.Query.Filter.{QueryParams}
use truenas_incus_ctl.Query.Collect.{Response, delete_response_entries}
use truenas_incus_ctl.Command.Steps.{Outside, Outcome, ends, errs, M, pure, ◌>>=◌, query}
use truenas_incus_ctl.Command.Crud.{iscsi_crud_query}

-- What one half of a pair shows: no id, an id with the row that has it, or an id without a row.
pub data Half (F : Type 0) : Type 0 where
  no_id : Half F
  joined : Fields F → Half F
  dangling : Str → Half F

-- The state of the loop: the rows with what they have got, those to remove, and the pairs that wait
-- for the name of a target or of an extent.
pub record Joined (F : Type 0) : Type 0 where
  pub rows : Dict Str (Fields F)
  pub to_remove : List Str
  pub missing_targets : Dict Str Str
  pub missing_extents : Dict Str Str

module _ {F : Type 0} (ops : FloatOps F) where
  abbrev pub half_at : Str → Option (Fields F) → Half F
  half_at id none = dangling id
  half_at id (some row) = joined row

  unfoldable pub half_of : Dict Str (Fields F) → Option (Json F) → Half F
  half_of others none = no_id
  half_of others (some id) = half_at (sprint ops id) (lookup (sprint ops id) others)

  -- `row[key], _ = other["name"]`
  unfoldable pub take_name : Str → Half F → Fields F → Fields F
  take_name key (joined other) row = set_field key (or_null (get_field (codes "name") other)) row
  take_name key _ row = row

  abbrev pub is_joined : Half F → Bool
  is_joined (joined _) = true
  is_joined _ = false

  -- An id that prints as nothing is not looked for.
  abbrev pub unless_empty : Str → Str → Dict Str Str → Dict Str Str
  unless_empty id k missing = if is_empty id then missing else insert id k missing

  abbrev pub wait_for_extent : Str → Half F → Joined F → Joined F
  wait_for_extent k (dangling id) j = record j {
    missing_extents = unless_empty id k j.missing_extents;
  }
  wait_for_extent k _ j = j

  -- A pair that has found neither half goes; one that lacks its target waits for that alone.
  unfoldable pub note_missing : Str → Half F → Half F → Joined F → Joined F
  note_missing k no_id extent j =
      if is_joined extent
      then wait_for_extent k extent j
      else record j { to_remove = j.to_remove ++ k ∷ [] }
  note_missing k (joined _) extent j = wait_for_extent k extent j
  note_missing k (dangling id) extent j =
      if is_joined extent
      then record j { missing_targets = unless_empty id k j.missing_targets }
      else record j { to_remove = j.to_remove ++ k ∷ [] }

  unfoldable pub join_row :
      Dict Str (Fields F) → Dict Str (Fields F) → Str → Fields F → Joined F → Joined F
  unfolding half_of take_name note_missing
  join_row targets extents k row j =
      let target = half_of targets (get_field (codes "target") row) in
      let extent = half_of extents (get_field (codes "extent") row) in
      let named =
        take_name (codes "extent_name") extent (take_name (codes "target_name") target row) in
      note_missing k target extent (record j { rows = j.rows ++ (k, named) ∷ [] })

  -- The loop over the pairs.
  unfoldable pub join_rows :
      Dict Str (Fields F) → Dict Str (Fields F) → Dict Str (Fields F) → Joined F → Joined F
  unfolding join_row
  join_rows targets extents [] j = j
  join_rows targets extents ((k, row) ∷ rows) j =
      join_rows targets extents rows (join_row targets extents k row j)

  -- The rows that the second query found give their names to the pair that waits for them.
  unfoldable pub set_name : Str → Json F → Option Str → Dict Str (Fields F) → Dict Str (Fields F)
  set_name key name none rows = rows
  set_name key name (some k) rows = elim (lookup k rows) [
    | none ↦ rows
    | some row ↦ insert k (set_field key name row) rows
  ]

  unfoldable pub give_names :
      Str → Dict Str Str → Dict Str (Fields F) → Dict Str (Fields F) → Dict Str (Fields F)
  unfolding set_name
  give_names key missing [] rows = rows
  give_names key missing ((id, other) ∷ others) rows =
      give_names key missing others
        (set_name key (or_null (get_field (codes "name") other)) (lookup id missing) rows)

module _ {S F : Type 0} (w : Outside S F) (extras : QueryParams) where
  -- An error of the query finds nothing.
  abbrev found_rows : Outcome (Response F) → Outcome (Dict Str (Fields F))
  found_rows (ends r) = ends r.results_map
  found_rows (errs e) = ends []
  found_rows Outcome.crashes = Outcome.crashes
  found_rows Outcome.exits = Outcome.exits
  found_rows Outcome.spins = Outcome.spins

  unfoldable pub find_missing : Str → List Str → M S (Dict Str (Fields F))
  unfolding query
  find_missing category [] s = (s, ends [])
  find_missing category (id ∷ ids) s =
      let (t, out) = query w category (id ∷ ids) (map (λ _. codes "id") (id ∷ ids)) [] extras s in
      (t, found_rows out)

  unfoldable pub name_missing : Joined F → Response F → M S (Response F)
  unfolding find_missing give_names
  name_missing j response = do
    targets ← find_missing (codes "iscsi.target") (keys j.missing_targets)
    let named =
        give_names w.ops (codes "target_name") j.missing_targets targets response.results_map
    extents ← find_missing (codes "iscsi.extent") (keys j.missing_extents)
    pure (
        ends (record response {
          results_map = give_names w.ops (codes "extent_name") j.missing_extents extents named;
        }))

abbrev pub without_all_props : QueryParams → QueryParams
without_all_props extras = record extras { should_get_all_props = false }

abbrev pub nothing_joined : {F : Type 0} → Joined F
nothing_joined = record { rows = []; to_remove = []; missing_targets = []; missing_extents = [] }

module _ {S F : Type 0} (w : Outside S F) where
  unfoldable pub iscsi_query_target_extent_with_join :
      List Str → List Str → QueryParams → M S (Response F)
  unfolding iscsi_crud_query join_rows name_missing delete_response_entries
  iscsi_query_target_extent_with_join values properties extras = do
    response ← iscsi_crud_query w (codes "targetextent") [] properties extras
    targets ← iscsi_crud_query w (codes "target") values [] (without_all_props extras)
    extents ← iscsi_crud_query w (codes "extent") values [] (without_all_props extras)
    let j =
        join_rows w.ops targets.results_map extents.results_map response.results_map nothing_joined
    name_missing w (without_all_props extras) j
        (delete_response_entries (record response { results_map = j.rows }) j.to_remove)
