-- ===== src/Options/Tests.antt =====
-- Runs of cmd/util_common.go and cmd/util_flags.go.
use truenas_incus_ctl.Base.{
  ℕ, ◌≡◌, refl, true, not, ◌&&◌, List, [], ◌∷◌, ◌++◌, Option, none, negsuc, Str, str_eq, str_eqb,
  codes, contains, split, arith,
}
use truenas_incus_ctl.Base.Decimal.{atoi}
use truenas_incus_ctl.Base.Dict.{lookup}
use truenas_incus_ctl.Json.{end}
use truenas_incus_ctl.Api.{returns}
use truenas_incus_ctl.Options.Params.{
  Enums, convert_params_string_to_kv_array, kv_of_all, kv_of, value_of, write_kv_array_to_map,
}
use truenas_incus_ctl.Options.Columns.{
  make_property_columns, make_property_columns_lem, IsSorted, IsDistinct,
}
use truenas_incus_ctl.Options.RoundTrip.{
  Setting, flag, number, word, settings_text, set_all, settings_read_back,
}

abbrev no_float : Str → Option ℕ
no_float _ = none

abbrev no_list : List Str → Str
no_list _ = []

abbrev three_settings : List (Str × Setting)
three_settings =
    (codes "ro", flag true)
    ∷ (codes "quota", number (negsuc 4))
    ∷ (codes "sync", word (codes "off"))
    ∷ []

abbrev ro_enum : Enums
ro_enum = (codes "ro", codes "ON" ∷ codes "OFF" ∷ []) ∷ []

settings_read_back_example :
    write_kv_array_to_map no_float no_list end
      (convert_params_string_to_kv_array (settings_text three_settings))
      ro_enum
    ≡ returns (set_all end three_settings, none)
unfolding str_eqb atoi lookup
settings_read_back_example =
    settings_read_back no_float no_list ro_enum end three_settings
      (
        ((refl, (refl, (refl, tt)), (refl, (refl, tt))), tt),
        (
          (
            (
              refl,
              (refl, (refl, (refl, (refl, (refl, tt))))),
              (refl, (refl, (refl, (refl, (refl, tt))))),
            ),
            omega arith,
          ),
          (
            (
              (refl, (refl, (refl, (refl, (refl, tt)))), (refl, (refl, (refl, (refl, tt))))),
              (refl, (refl, (refl, (refl, tt))), (refl, (refl, (refl, tt))), refl, refl, refl),
            ),
            tt,
          ),
        ),
      )
      (tt, (tt, (refl, tt)))

-- What follows a second "=" is dropped.
second_equals_sign :
    convert_params_string_to_kv_array (codes "note=a=b,quiet")
    ≡ codes "note" ∷ codes "a" ∷ codes "quiet" ∷ codes "true" ∷ []
unfolding convert_params_string_to_kv_array kv_of_all kv_of value_of split
second_equals_sign = refl

make_property_columns_lem_example :
    (rest : List Str) × (make_property_columns
        (codes "id" ∷ [])
        (codes "name" ∷ codes "id" ∷ codes "name" ∷ [])
      ≡ (codes "id" ∷ []) ++ rest)
    × IsSorted rest
    × IsDistinct rest
    × ((u : Str)
        → contains rest u ≡ (
            not (contains (codes "id" ∷ []) u)
            && contains (codes "name" ∷ codes "id" ∷ codes "name" ∷ []) u))
make_property_columns_lem_example =
    make_property_columns_lem (codes "id" ∷ []) (codes "name" ∷ codes "id" ∷ codes "name" ∷ [])
