-- ===== src/Command/Create/Plans.antt =====
-- cmd/iscsi.go, createIscsi: the loops between its calls.
use truenas_incus_ctl.Base.{
  Bool, ◌||◌, List, [], ◌∷◌, ◌++◌, Option, none, some, ℤ, pos, Str, str_eq, codes, contains_str,
  is_empty, if◌then◌else◌,
}
use truenas_incus_ctl.Base.Dict.{Dict, lookup, insert, erase, has}
use truenas_incus_ctl.Json.{
  Json, bool, str, int, arr, obj, nil, cons, Fields, end, field, FloatOps, get_field, as_str,
  sprint,
}
use truenas_incus_ctl.Api.{Run, returns, panics, get_id_from_object, or_null}
use truenas_incus_ctl.Iscsi.TargetNames.{maybe_hash_iscsi_name_from_volume_path}
use truenas_incus_ctl.Command.Steps.{Outcome, ends, errs, crashes}

-- maybeHashedToVolumeMap and volumeToMaybeHashedMap.
abbrev pub Names : Type 0
Names = Dict Str Str × Dict Str Str

-- The loop over the volumes that fills both maps.
module _ (sha256 sha512 : Str → Str) (prefix : Str) where
  unfoldable pub names_for : List Str → Names → Outcome Names
  unfolding maybe_hash_iscsi_name_from_volume_path
  names_for [] names = ends names
  names_for (vol ∷ vols) (volume_of, name_of) =
      elim (maybe_hash_iscsi_name_from_volume_path sha256 sha512 prefix vol) [
        | none ↦ crashes
        | some hashed ↦
            let later = names_for vols (insert hashed vol volume_of, insert vol hashed name_of) in
            if has hashed volume_of
            then errs (codes "There are duplicates in the provided list of datasets")
            else later
      ]

-- A key that is missing gives the empty text.
abbrev pub text_in : Dict Str Str → Str → Str
text_in d k = elim (lookup k d) [ none ↦ [] | some s ↦ s ]

abbrev pub zvol : Str → Str
zvol vol = codes "zvol/" ++ vol

module _ {F : Type 0} where
  abbrev pub alias_of : Fields F → Str
  alias_of row = as_str (get_field (codes "alias") row)

  unfoldable pub add_id : Str → Run (Json F) → Dict Str (Json F) → Outcome (Dict Str (Json F))
  add_id alias panics d = crashes
  add_id alias (returns id) d = ends (insert alias id d)

  -- The loop over the rows of the targets: the id by the alias, if there is one.
  unfoldable pub ids_by_alias :
      Dict Str (Fields F) → Dict Str (Json F) → Outcome (Dict Str (Json F))
  unfolding add_id get_id_from_object
  ids_by_alias [] d = ends d
  ids_by_alias ((_, row) ∷ rows) d =
      let skipped = ids_by_alias rows d in
      if is_empty (alias_of row)
      then skipped
      else elim (add_id (alias_of row) (get_id_from_object (obj row)) d) [
        | ends d' ↦ ids_by_alias rows d'
        | errs e ↦ errs e
        | crashes ↦ crashes
        | Outcome.exits ↦ Outcome.exits
        | Outcome.spins ↦ Outcome.spins
      ]

  unfoldable pub target_object : ℤ → ℤ → Str → Str → Json F
  target_object portal initiator name vol =
      let group =
        field (codes "portal") (int portal) (field (codes "initiator") (int initiator) end) in
      obj (
        field (codes "name") (str name) (
          field (codes "alias") (str vol)
            (field (codes "groups") (arr (cons (obj group) nil)) end)))

  -- The parameters of the updates and those of the creations.
  unfoldable pub plan_targets :
      ℤ → ℤ → Dict Str Str → Dict Str (Json F) → List Str → List (Json F) × List (Json F)
  unfolding target_object
  plan_targets portal initiator name_of ids [] = ([], [])
  plan_targets portal initiator name_of ids (vol ∷ vols) =
      let rest = plan_targets portal initiator name_of ids vols in
      let target = target_object portal initiator (text_in name_of vol) vol in
      elim (lookup vol ids) [
        | some id ↦ (arr (cons id (cons target nil)) ∷ rest.0, rest.1)
        | none ↦ (rest.0, arr (cons target nil) ∷ rest.1)
      ]

  -- The rows of a response; a nil map reads as one without keys.
  abbrev pub or_no_keys : Option (Fields F) → Fields F
  or_no_keys none = end
  or_no_keys (some fs) = fs

  -- The disks that have no extent yet, each with the name of its target.
  unfoldable pub missing_extents : Dict Str Str → Dict Str (Fields F) → List Str → List (Str × Str)
  missing_extents name_of extents [] = []
  missing_extents name_of extents (vol ∷ vols) =
      let rest = missing_extents name_of extents vols in
      if has (zvol vol) extents then rest else (zvol vol, text_in name_of vol) ∷ rest

  unfoldable pub extent_params : Bool → List (Str × Str) → List (Json F)
  extent_params is_read_only [] = []
  extent_params is_read_only ((disk, name) ∷ missing) =
      let ro = is_read_only || contains_str disk (codes "@") in
      arr (
        cons
          (obj (
            field (codes "name") (str name)
              (field (codes "disk") (str disk) (field (codes "ro") (bool ro) end))))
          nil)
      ∷ extent_params is_read_only missing

  abbrev pub lines_of : Str → List (Fields F) → List Str
  lines_of before [] = []
  lines_of before (target ∷ targets) = (before ++ alias_of target) ∷ lines_of before targets

  abbrev pub pair_list : Dict Str (Fields F) → List (Json F)
  pair_list [] = []
  pair_list ((_, te) ∷ d) = arr (cons (obj te) nil) ∷ pair_list d

module _ {F : Type 0} (ops : FloatOps F) where
  abbrev pub shown : Str → Fields F → Str
  shown key row = sprint ops (or_null (get_field key row))

  -- The extents that were created, by what their disk prints as.
  unfoldable pub add_extents : List (Fields F) → Dict Str (Fields F) → Dict Str (Fields F)
  add_extents [] extents = extents
  add_extents (row ∷ rows) extents =
      add_extents rows (insert (shown (codes "disk") row) row extents)

  abbrev pub pair_key : Str → Str → Fields F → Fields F → Str
  pair_key j k target extent = shown j target ++ (codes "-" ++ shown k extent)

  -- The pair of a target and the extent of its volume.
  unfoldable pub pair_object : Fields F → Fields F → Fields F
  pair_object target extent = field (codes "target") (or_null (get_field (codes "id") target)) (
      field (codes "lunid") (int (pos 0))
        (field (codes "extent") (or_null (get_field (codes "id") extent)) end))

  unfoldable pub add_pair : Fields F → Option (Fields F) → Dict Str (Fields F) → Dict Str (Fields F)
  unfolding pair_object
  add_pair target none d = d
  add_pair target (some extent) d =
      insert (pair_key (codes "id") (codes "id") target extent) (pair_object target extent) d

  -- A target without an alias has no pair.
  unfoldable pub add_target :
      Dict Str (Fields F) → Fields F → Dict Str (Fields F) → Dict Str (Fields F)
  unfolding add_pair
  add_target extents target d =
      if is_empty (alias_of target)
      then d
      else add_pair target (lookup (zvol (alias_of target)) extents) d

  -- The loop over the targets.
  unfoldable pub pairs_of :
      Dict Str (Fields F) → List (Fields F) → Dict Str (Fields F) → Dict Str (Fields F)
  unfolding add_target
  pairs_of extents [] d = d
  pairs_of extents (target ∷ targets) d = pairs_of extents targets (add_target extents target d)

  -- The pairs that the server has already are taken out.
  unfoldable pub drop_known : Dict Str (Fields F) → Dict Str (Fields F) → Dict Str (Fields F)
  drop_known [] d = d
  drop_known ((_, te) ∷ tes) d =
      drop_known tes (erase (pair_key (codes "target") (codes "extent") te te) d)
