-- ===== src/Command/Service.antt =====
-- cmd/service.go: toggleService, enableOrDisableService and changeServiceStateImpl.
use truenas_incus_ctl.Base.{
  Bool, true, false, ◌||◌, not, List, [], ◌∷◌, ◌++◌, Option, Str, str_eq, ◌==◌, codes,
  if◌then◌else◌,
}
use truenas_incus_ctl.Base.Dict.{Dict}
use truenas_incus_ctl.Api.{is_string_true}
use truenas_incus_ctl.Json.{Json, bool, str, arr, obj, nil, cons, Fields, end, field, set_field}
use truenas_incus_ctl.Options.Params.{parsed_or_null, parse_string_and_validate}
use truenas_incus_ctl.Command.Steps.{Outside, ends, errs, M, pure, ◌>>=◌, ◌>>◌, bulk}
use truenas_incus_ctl.Command.Delete.{timeout_for}

module _ {F : Type 0} where
  -- The parameters for each service.
  unfoldable pub service_params : Fields F → List Str → List (Json F)
  service_params fs [] = []
  service_params fs (arg ∷ args) = arr (cons (str arg) (cons (obj fs) nil)) ∷ service_params fs args

module _ {S F : Type 0} (w : Outside S F) where
  unfoldable pub toggle_service : List Str → Bool → Bool → M S (Unit {0})
  unfolding service_params bulk
  toggle_service args false false = pure (ends tt)
  toggle_service args true true = pure (errs (codes "--enable and --disable are incompatible"))
  toggle_service args should_enable should_disable = do
    _ ←
        bulk w (codes "service.update") (timeout_for args)
          (service_params (field (codes "enable") (bool should_enable) end) args) false
    pure (ends tt)

  unfoldable pub enable_or_disable_service : Str → List Str → M S (Unit {0})
  unfolding toggle_service
  enable_or_disable_service cmd_type args =
      if cmd_type == codes "enable"
      then toggle_service args true false
      else if cmd_type == codes "disable"
      then toggle_service args false true
      else pure (errs (codes "cmdType was not enable or disable"))

  abbrev pub is_state : Str → Bool
  is_state s =
      s == codes "reload" || (s == codes "restart" || (s == codes "start" || s == codes "stop"))

  -- `parse_float` and `listed` are those of the option texts; a nil map of flags is empty.
  module _ (parse_float : Str → Option F) (listed : List Str → Str) where
    unfoldable pub flag_fields : Dict Str Str → Fields F → Fields F
    unfolding parse_string_and_validate
    flag_fields [] fs = fs
    flag_fields ((name, text) ∷ flags) fs = flag_fields flags (
        set_field name
          (parsed_or_null parse_float listed
            (parse_string_and_validate parse_float listed name text []))
          fs)

    unfoldable pub change_service_state_impl :
        Str → Dict Str Str → Bool → Bool → List Str → M S (Unit {0})
    unfolding toggle_service flag_fields service_params bulk
    change_service_state_impl new_state flags is_enable is_disable services =
        if not (is_state new_state)
        then pure (errs (codes "The intended state was not reload, restart, start or stop"))
        else do
          toggle_service services is_enable is_disable
          _ ←
              bulk w (codes "service." ++ new_state) (timeout_for services)
                (service_params (flag_fields flags end) services) true
          pure (ends tt)

    -- `used` are the flags that were given, without "enable" and "disable".
    unfoldable pub change_service_state :
        Str → Dict Str Str → Dict Str Str → List Str → M S (Unit {0})
    unfolding change_service_state_impl
    change_service_state cmd_type all used args =
        change_service_state_impl cmd_type used (is_string_true all (codes "enable"))
          (is_string_true all (codes "disable")) args
