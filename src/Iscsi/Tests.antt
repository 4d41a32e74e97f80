-- ===== src/Iscsi/Tests.antt =====
-- Runs of cmd/iscsi_util.go.
use truenas_incus_ctl.Base.{
  ℕ, ◌<◌, ◌≤◌, ◌≡◌, refl, [], ◌∷◌, ◌++◌, some, Str, str_eq, str_eqb, codes, length, replicate,
  arith, to_lower,
}
use truenas_incus_ctl.Base.Dict.{Dict, has, lookup}
use truenas_incus_ctl.Iscsi.TargetNames.{
  make_iscsi_target_name_from_volume_path, maybe_hash_iscsi_name_from_volume_path, hash_begin,
  maybe_hash-bound, substitute_all, substitute,
}
use truenas_incus_ctl.Iscsi.Listings.{takes, fails, session_line}
use truenas_incus_ctl.Iscsi.Sessions.{line_of, session_line-read_back}

abbrev volumes : Dict Str ℕ
volumes = (codes "tank:vol", 0) ∷ []

target_of_volume :
    make_iscsi_target_name_from_volume_path (codes "tnc") (codes "Tank/my.vol")
    ≡ codes "tnc:tank:my-vol"
unfolding make_iscsi_target_name_from_volume_path substitute_all substitute to_lower
target_of_volume = refl

maybe_hash-bound_example :
    (name : Str) × (maybe_hash_iscsi_name_from_volume_path
        (λ _. replicate 32 0)
        (λ _. replicate 64 0)
        (codes "tnc")
        (codes "tank/vol")
      ≡ some name)
    × (length name ≤ 64)
    × (64 < length (make_iscsi_target_name_from_volume_path (codes "tnc") (codes "tank/vol"))
        → (length name ≡ 64) × ((rest : Str) × (name ≡ hash_begin (codes "tnc") ++ rest)))
maybe_hash-bound_example =
    maybe_hash-bound (λ _. replicate 32 0) (λ _. replicate 64 0) (codes "tnc") (codes "tank/vol")
      (omega arith) refl refl

-- "tcp: [1] 10.0.0.2:3260,1 iqn.2005-10:tank:vol (x)"
session_line-read_back_example :
    (session_line volumes (
        line_of
          (codes "tcp: [1")
          (codes "10.0.0.2")
          (codes "1")
          ((codes "iqn.2005" ++ b':' ∷ codes "tank:vol") ++ b' ' ∷ codes "(x)"))
      ≡ takes (record {
        remote_ip = codes "10.0.0.2";
        iqn = codes "iqn.2005";
        target = codes "tank:vol";
      }))
    × (session_line volumes (
          line_of
            (codes "tcp: [1")
            (codes "10.0.0.2")
            (codes "1")
            (codes "iqn.2005" ++ b':' ∷ codes "tank:vol"))
        ≡ fails)
unfolding has lookup str_eqb
session_line-read_back_example =
    session_line-read_back volumes (codes "tcp: [1") (codes "10.0.0.2") (codes "1")
      (codes "iqn.2005") (codes "tank:vol") (codes "(x)")
      (refl, (refl, (refl, (refl, (refl, (refl, (refl, tt)))))))
      (refl, (refl, (refl, (refl, (refl, (refl, (refl, (refl, tt))))))))
      (refl, (refl, (refl, (refl, (refl, (refl, (refl, (refl, (refl, (refl, tt))))))))))
      (refl, (refl, (refl, (refl, (refl, (refl, (refl, (refl, tt))))))))
      (
        refl,
        (
          refl,
          (
            refl,
            (
              refl,
              (
                refl,
                (
                  refl,
                  (
                    refl,
                    (
                      refl,
                      (refl, (refl, (refl, (refl, (refl, (refl, (refl, (refl, (refl, tt))))))))),
                    ),
                  ),
                ),
              ),
            ),
          ),
        ),
      )
      (refl, (refl, (refl, tt))) refl
