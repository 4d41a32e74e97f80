-- ===== src/Names/Tests.antt =====
-- Runs of core/util.go.
use truenas_incus_ctl.Base.{
  ℕ, ◌≡◌, ◌↔◌, refl, codes, ◌++◌, index_of, last_index_of, Str, replicate, some,
}
use truenas_incus_ctl.Names.Hash.{make_hashed_string}
use truenas_incus_ctl.Base.Decimal.{atoi}
use truenas_incus_ctl.Names.Identify.{
  dataset, pool, identify_object, IsDataset, slashes, identify_object-dataset_iff,
}

identify_object-dataset_iff_example :
    (identify_object (codes "tank/a//") ≡ (dataset, codes "tank/a"))
    ↔ ((k : ℕ) × (codes "tank/a//" ≡ codes "tank/a" ++ slashes k) × IsDataset (codes "tank/a"))
identify_object-dataset_iff_example =
    identify_object-dataset_iff (codes "tank/a//") (codes "tank/a")

slash_dropped : identify_object (codes "tank/a//") ≡ (dataset, codes "tank/a")
unfolding identify_object atoi index_of last_index_of
slash_dropped = refl

pool_with_slash : identify_object (codes "tank/") ≡ (pool, codes "tank")
unfolding identify_object atoi index_of last_index_of
pool_with_slash = refl

-- Functions of the right sizes in place of the hashes.
abbrev short_hash : Str → Str
short_hash s = replicate 32 255

abbrev long_hash : Str → Str
long_hash s = replicate 64 170

all_ones : make_hashed_string short_hash long_hash (codes "tank/a") 3 ≡ some (codes "vvv")
unfolding make_hashed_string
all_ones = refl
