-- ===== src/Options/Enums.antt =====
-- cmd/util_flags.go: ValidateFlagEnums, ValidateEnumArray, AddFlagsEnum and RemoveFlag, and
-- cmd/util_common.go: LowerCaseValuesFromEnums.
use truenas_incus_ctl.Base.{
  List, [], ◌∷◌, ◌++◌, Option, none, some, Str, str_eq, codes, split, join, is_empty, to_upper,
  to_lower, replace_all, if◌then◌else◌,
}
use truenas_incus_ctl.Base.Dict.{Dict, lookup, insert, erase, keys}
use truenas_incus_ctl.Json.{Json, str, Fields, get_field, set_field}
use truenas_incus_ctl.Options.Params.{Enums, is_among}

abbrev pub flag_error : Str → Str → List Str → Str
flag_error key value enum_list =
    codes "Error: flag \""
    ++ (key
        ++ (codes "\": value \""
            ++ (value
                ++ (codes "\" was not in the valid set ("
                    ++ (join (codes ", ") enum_list ++ codes ")\n")))))

-- What the loop makes of one flag: its value, and what it adds to the errors.
unfoldable pub check_flag : Enums → Str → Str → Str × Str
unfolding is_among
check_flag enums key value = elim (lookup key enums) [
  | none ↦ (value, [])
  | some enum_list ↦
      if is_among enum_list (to_upper value)
      then (to_upper value, [])
      else (value, flag_error key value enum_list)
]

-- The loop over the flags, in the order of the map.
unfoldable pub check_flags : Dict Str Str → Enums → Dict Str Str × Str
unfolding check_flag
check_flags [] enums = ([], [])
check_flags ((key, value) ∷ flags) enums =
    let (v, e) = check_flag enums key value in
    let (rest, errors) = check_flags flags enums in ((key, v) ∷ rest, e ++ errors)

-- The flags as they are left, and the error.
unfoldable pub validate_flag_enums : Dict Str Str → Enums → Dict Str Str × Option Str
unfolding check_flags
validate_flag_enums flags enums =
    let (rest, errors) = check_flags flags enums in
    (rest, if is_empty errors then none else some errors)

-- The loop of `ValidateEnumArray`: the output and the text of the errors.
unfoldable pub check_values : List Str → List Str → List Str × Str
unfolding is_among
check_values [] enum_list = ([], [])
check_values (value ∷ input) enum_list =
    let (output, errors) = check_values input enum_list in
    if is_among enum_list (to_upper value)
    then (to_upper value ∷ output, errors)
    else (output, (codes "Error: value \"" ++ (value ++ codes "\" was not valid\n")) ++ errors)

unfoldable pub validate_enum_array : Str → List Str → List Str × Option Str
unfolding check_values
validate_enum_array content enum_list =
    if is_empty content
    then ([], none)
    else (let (output, errors) = check_values (split b',' content) enum_list in
        (
          output,
          if is_empty errors
              then none
              else some (
                  errors
                  ++ (codes "Acceptable values: (" ++ (join (codes ", ") enum_list ++ codes ")"))),
        ))

-- A nil map is made first. The second result is the help text.
unfoldable pub add_flags_enum : Enums → Str → List Str → Enums × Str
add_flags_enum enums flag_name new_enum = (
  insert (replace_all b'-' b'_' flag_name) new_enum enums,
  codes "(" ++ (join (codes ", ") new_enum ++ codes ")"),
)

-- core/util.go: DeleteSnakeKebab.
unfoldable pub delete_snake_kebab : {V : Type 0} → Dict Str V → Str → Dict Str V
delete_snake_kebab dict key =
    erase (replace_all b'_' b'-' key) (erase (replace_all b'-' b'_' key) (erase key dict))

-- `FlagMap`
pub record FlagMap : Type 0 where
  pub flag_keys : List Str
  pub used_flags : Dict Str Str
  pub all_flags : Dict Str Str
  pub all_types : Dict Str Str

unfoldable pub remove_flag : FlagMap → Str → FlagMap
unfolding delete_snake_kebab
remove_flag fm key = record {
  flag_keys = fm.flag_keys;
  used_flags = delete_snake_kebab fm.used_flags key;
  all_flags = delete_snake_kebab fm.all_flags key;
  all_types = delete_snake_kebab fm.all_types key;
}

-- `fm` is passed by value: the append to its `flagKeys` is lost, the writes to its maps are not.
unfoldable pub insert_non_cobra_flag : FlagMap → Str → Str → Str → FlagMap
insert_non_cobra_flag fm flag_type flag_name flag_value =
    let key = replace_all b'-' b'_' flag_name in
    record {
      flag_keys = fm.flag_keys;
      used_flags = insert key flag_value fm.used_flags;
      all_flags = insert key flag_value fm.all_flags;
      all_types = insert key flag_type fm.all_types;
    }

module _ {F : Type 0} where
  unfoldable pub lower_case_value : Fields F → Str → Option (Json F) → Fields F
  lower_case_value row key (some (str s)) = set_field key (str (to_lower s)) row
  lower_case_value row key _ = row

  unfoldable pub lower_case_row : Fields F → List Str → Fields F
  unfolding lower_case_value
  lower_case_row row [] = row
  lower_case_row row (key ∷ ks) = lower_case_row (lower_case_value row key (get_field key row)) ks

  unfoldable pub lower_case_values_from_enums : List (Fields F) → Enums → List (Fields F)
  unfolding lower_case_row
  lower_case_values_from_enums [] enums = []
  lower_case_values_from_enums (row ∷ results) enums =
      lower_case_row row (keys enums) ∷ lower_case_values_from_enums results enums
