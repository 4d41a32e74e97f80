-- ===== src/Iscsi/TargetNames.antt =====
-- cmd/iscsi_util.go: the name of the target that serves a volume, and the names of initiators.
use truenas_incus_ctl.Base.{
  ℕ, ◌-◌, ◌≤◌, ◌<◌, ◌≡◌, refl, inl, inr, Bool, ◌||◌, ◌&&◌, [], ◌∷◌, ◌++◌, Option, none, some, ℤ,
  pos, Str, str_eq, codes, is_empty, length, length-append, to_lower, eqb, leb, ltb, if◌then◌else◌,
  arith, Bool-cases,
}
use truenas_incus_ctl.Base.Dict.{Dict, insert, lookup}
use truenas_incus_ctl.Base.Decimal.{itoa}
use truenas_incus_ctl.Json.{Json, float, Fields, FloatOps, get_field, as_str}
use truenas_incus_ctl.Session.{is_positive}
use truenas_incus_ctl.Names.Hash.{make_hashed_string, make_hashed_string-length}

-- One character of a volume's path. The bytes of the others are written as they are.
unfoldable pub substitute : ℕ → ℕ
substitute c =
    if eqb c b':' || (eqb c b'.' || eqb c b'_')
    then b'-'
    else if eqb c b'/' || eqb c b'@'
    then b':'
    else c

unfoldable pub substitute_all : Str → Str
unfolding substitute
substitute_all [] = []
substitute_all (c ∷ vol) = substitute c ∷ substitute_all vol

-- For a path in ASCII: the code goes by runes, and makes the letters of all alphabets small.
unfoldable pub make_iscsi_target_name_from_volume_path : Str → Str → Str
unfolding substitute_all
make_iscsi_target_name_from_volume_path prefix vol =
    if is_empty prefix
    then to_lower (substitute_all vol)
    else to_lower (prefix ++ b':' ∷ substitute_all vol)

abbrev pub hash_begin : Str → Str
hash_begin prefix = if is_empty prefix then codes "-:" else prefix ++ codes ":-:"

-- `none` is an index out of range.
module _ (sha256 sha512 : Str → Str) where
  unfoldable pub maybe_hash_iscsi_name_from_volume_path : Str → Str → Option Str
  unfolding make_iscsi_target_name_from_volume_path make_hashed_string
  maybe_hash_iscsi_name_from_volume_path prefix vol =
      let iscsi_name = make_iscsi_target_name_from_volume_path prefix vol in
      let hashed = make_hashed_string sha256 sha512 vol (64 - length (hash_begin prefix)) in
      if ltb 64 (length iscsi_name)
      then elim hashed [ none ↦ none | some text ↦ some (hash_begin prefix ++ text) ]
      else some iscsi_name

abbrev pub is_space : ℕ → Bool
is_space c = eqb c 32 || (leb 9 c && leb c 13)

unfoldable pub trim_left : Str → Str
trim_left [] = []
trim_left (c ∷ s) = let rest = trim_left s in if is_space c then rest else c ∷ s

unfoldable pub trim_right : Str → Str
trim_right [] = []
trim_right (c ∷ s) = let rest = trim_right s in if is_empty rest && is_space c then [] else c ∷ rest

-- A prefix that is too long ends the program: `none`.
unfoldable pub get_iscsi_target_prefix_or_exit : Dict Str Str → Option Str
unfolding trim_left trim_right
get_iscsi_target_prefix_or_exit options =
    let raw = elim (lookup (codes "target_prefix") options) as (λ _. Str) [
      | none ↦ []
      | some s ↦ s
    ] in
    let prefix = trim_right (trim_left raw) in if ltb 24 (length prefix) then none else some prefix

unfoldable pub strip_ip_v6_brackets : Str → Str
strip_ip_v6_brackets [] = []
strip_ip_v6_brackets (c ∷ s) =
    let rest = strip_ip_v6_brackets s in if eqb c b'[' || eqb c b']' then rest else c ∷ rest

-- The name of an initiator, or the text of an error.
pub data Initiator : Type 0 where
  named : Dict Str ℤ → Str → Initiator
  invalid : Str → Initiator

module _ {F : Type 0} (ops : FloatOps F) where
  unfoldable pub id_of : Option (Json F) → ℤ
  id_of (some (float f)) = ops.to_int64 f
  id_of _ = pos 0

  unfoldable pub add_named : Dict Str ℤ → ℤ → Str → Initiator
  add_named initiators id name =
      if is_empty name
      then invalid (codes "Could not find any name in initiator group " ++ itoa id)
      else named (insert name id initiators) name

  unfoldable pub add_iscsi_initiator : Dict Str ℤ → Fields F → Initiator
  unfolding id_of add_named is_positive
  add_iscsi_initiator initiators row =
      let id = id_of (get_field (codes "id") row) in
      if is_positive id
      then add_named initiators id (as_str (get_field (codes "comment") row))
      else invalid (codes "Invalid ID in initiator group response: " ++ itoa id)

begin_bound : (prefix : Str) → length prefix ≤ 24 → length (hash_begin prefix) ≤ 27
begin_bound [] h = omega arith
begin_bound (c ∷ prefix) h = omega (arith, h, length-append (c ∷ prefix) (codes ":-:"))

-- For a prefix of at most 24 bytes and hashes of 32 and of 64 bytes the name of a target is made
-- without an index out of range and has at most 64 bytes; a name that would be longer is replaced by
-- one of 64 bytes, which starts with the prefix.
pub maybe_hash-bound :
    (sha256 sha512 : Str → Str) (prefix vol : Str)
    → length prefix ≤ 24
    → length (sha256 vol) ≡ 32
    → length (sha512 vol) ≡ 64
    → (name : Str) × (maybe_hash_iscsi_name_from_volume_path sha256 sha512 prefix vol ≡ some name)
      × (length name ≤ 64)
      × (64 < length (make_iscsi_target_name_from_volume_path prefix vol)
          → (length name ≡ 64) × ((rest : Str) × (name ≡ hash_begin prefix ++ rest)))
unfolding maybe_hash_iscsi_name_from_volume_path
maybe_hash-bound sha256 sha512 prefix vol h e f =
    let (text, g, l, d) =
      make_hashed_string-length sha256 sha512 vol (64 - length (hash_begin prefix)) e f in
    let size : length (hash_begin prefix ++ text) ≡ 64 =
      omega (arith, length-append (hash_begin prefix) text, l, begin_bound prefix h) in
    elim (Bool-cases (ltb 64 (length (make_iscsi_target_name_from_volume_path prefix vol)))) [
      | inl t ↦ (
        hash_begin prefix ++ text,
        rw (maybe_hash_iscsi_name_from_volume_path, t, g) refl,
        omega (arith, size),
        λ _. (size, (text, refl)),
      )
      | inr t ↦ (
        make_iscsi_target_name_from_volume_path prefix vol,
        rw (maybe_hash_iscsi_name_from_volume_path, t) refl,
        ground (arith, t),
        λ long. absurd (ground (arith, t, long)),
      )
    ]
