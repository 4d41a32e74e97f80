-- ===== src/Command/Crud.antt =====
-- cmd/iscsi_crud.go: iscsiCrudQuery, with the tables that it reads.
pub mod Join
pub mod Change
pub mod Delete
pub mod Listing
pub mod Entries
use truenas_incus_ctl.Base.{
  Bool, true, false, ◌||◌, List, [], ◌∷◌, ◌++◌, map, Str, str_eq, ◌==◌, codes, has_prefix,
  if◌then◌else◌,
}
use truenas_incus_ctl.Names.Hosts.{ip_port_to_json_string}
use truenas_incus_ctl.Query.Filter.{QueryParams}
use truenas_incus_ctl.Query.Collect.{Response}
use truenas_incus_ctl.Command.Steps.{Outside, M, query, default_iscsi_port}

-- iscsiCrudIdentifierMap; another category has no entry.
unfoldable pub identifiers_of : Str → List Str
identifiers_of category =
    if category == codes "target"
    then codes "id" ∷ codes "name" ∷ codes "alias" ∷ []
    else if category == codes "extent"
    then codes "id" ∷ codes "name" ∷ codes "disk" ∷ []
    else if category == codes "targetextent"
    then codes "id" ∷ codes "target" ∷ codes "extent" ∷ []
    else if category == codes "initiator"
    then codes "id" ∷ codes "initiators" ∷ codes "comment" ∷ []
    else if category == codes "portal"
    then codes "id" ∷ codes "listen" ∷ codes "tag" ∷ codes "comment" ∷ []
    else if category == codes "auth"
    then codes "id" ∷ codes "user" ∷ []
    else []

-- iscsiCrudRequiredAttrMap
unfoldable pub required_of : Str → List Str
required_of category =
    if category == codes "target"
    then codes "name" ∷ codes "alias" ∷ []
    else if category == codes "extent"
    then codes "name" ∷ codes "disk" ∷ []
    else if category == codes "targetextent"
    then codes "target" ∷ codes "extent" ∷ []
    else if category == codes "portal"
    then codes "listen" ∷ []
    else if category == codes "auth"
    then codes "tag" ∷ codes "user" ∷ codes "secret" ∷ []
    else []

-- The attributes of the kind "StringArray" in iscsiCrudFeatureMap.
unfoldable pub is_string_array : Str → Str → Bool
is_string_array category attr =
    if category == codes "target"
    then attr == codes "groups"
      || (attr == codes "auth-networks" || attr == codes "iscsi-parameters")
    else if category == codes "portal"
    then attr == codes "listen"
    else false

abbrev pub as_disk : Str → Str
as_disk value = if has_prefix value (codes "zvol/") then value else codes "zvol/" ++ value

abbrev pub as_array : Str → Str
as_array value = if has_prefix value (codes "[") then value else b'[' ∷ value ++ codes "]"

module _ {S F : Type 0} (w : Outside S F) (category : Str) where
  -- The text of a value that an attribute is compared with.
  unfoldable pub entry_for : Str → Str → Str
  unfolding is_string_array
  entry_for attr value =
      if attr == codes "disk"
      then as_disk value
      else if attr == codes "listen"
      then ip_port_to_json_string w.lookup_ip value w.host_name default_iscsi_port
      else if is_string_array category attr
      then as_array value
      else value

  -- queryValues and queryAttrs: for each attribute all values.
  unfoldable pub query_values : List Str → List Str → List Str
  unfolding entry_for
  query_values [] values = []
  query_values (attr ∷ attrs) values = map (entry_for attr) values ++ query_values attrs values

  unfoldable pub query_attrs : List Str → List Str → List Str
  query_attrs [] values = []
  query_attrs (attr ∷ attrs) values = map (λ _. attr) values ++ query_attrs attrs values

  unfoldable pub iscsi_crud_query : List Str → List Str → QueryParams → M S (Response F)
  unfolding query_values query_attrs identifiers_of
  iscsi_crud_query [] props extras = query w (codes "iscsi." ++ category) [] [] props extras
  iscsi_crud_query (v ∷ values) props extras =
      query w (codes "iscsi." ++ category) (query_values (identifiers_of category) (v ∷ values))
        (query_attrs (identifiers_of category) (v ∷ values)) props extras
