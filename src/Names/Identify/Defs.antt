-- ===== src/Names/Identify/Defs.antt =====
-- core/util.go, IdentifyObject.
use truenas_incus_ctl.Base.{
  ℕ, zero, suc, ◌-◌, Bool, true, false, [], ◌∷◌, Option, none, some, Str, eqb, length, take,
  index_of, last_index_of, if◌then◌else◌,
}
use truenas_incus_ctl.Base.Decimal.{atoi}

-- The first result of IdentifyObject; `nothing` is the empty text.
pub data ObjectType : Type 0 where
  nothing id share snapshot_only error snapshot dataset pool : ObjectType

abbrev pub is_number : Str → Bool
is_number s = elim (atoi s) [ none ↦ false | some _ ↦ true ]

-- The branch on the last "/", with the recursive call on the text without its last byte.
unfoldable pub by_slash : Str → Option ℕ → ObjectType × Str → ObjectType × Str
by_slash obj none rest = (pool, obj)
by_slash obj (some zero) rest = (pool, obj)
by_slash obj (some (suc p)) rest = if eqb (suc p) (length obj - 1) then rest else (dataset, obj)

-- The branch on the first "@"; position 0 is caught before.
unfoldable pub by_at : Str → Option ℕ → ObjectType × Str → ObjectType × Str
by_at obj none other = other
by_at obj (some zero) other = other
by_at obj (some (suc p)) other =
    if eqb (suc p) (length obj - 1) then (error, obj) else (snapshot, obj)

-- The length of the text bounds the recursion, which drops a byte each time.
unfoldable pub identify_fuel : ℕ → Str → ObjectType × Str
unfolding by_slash by_at
identify_fuel zero obj = (nothing, [])
identify_fuel (suc n) [] = (nothing, [])
identify_fuel (suc n) (c ∷ s) =
    let shorter = identify_fuel n (take (length s) (c ∷ s)) in
    if is_number (c ∷ s)
    then (id, c ∷ s)
    else if eqb c b'/'
    then (share, c ∷ s)
    else if eqb c b'@'
    then (snapshot_only, s)
    else by_at (c ∷ s) (index_of b'@' (c ∷ s))
        (by_slash (c ∷ s) (last_index_of b'/' (c ∷ s)) shorter)

unfoldable pub identify_object : Str → ObjectType × Str
unfolding identify_fuel
identify_object obj = identify_fuel (suc (length obj)) obj
