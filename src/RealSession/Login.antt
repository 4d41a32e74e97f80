-- ===== src/RealSession/Login.antt =====
-- core/real_api.go, `Login`.
use truenas_incus_ctl.Base.{
  true, ◌||◌, ◌++◌, Option, none, some, Str, codes, is_empty, if◌then◌else◌,
}
use truenas_incus_ctl.Json.{FloatOps}
use truenas_incus_ctl.RealSession.{RealSession, close}

module _ {F : Type 0} (ops : FloatOps F) where
  -- `new_client_error` and `login_error` are what `NewClientWithCallback` and the client's own
  -- `Login` give.
  unfoldable pub connect :
      RealSession F → Str → Str → Option Str → Option Str → RealSession F × Option Str
  connect s host_name api_key new_client_error login_error =
      if is_empty host_name || is_empty api_key
      then (s, some (codes "Hostname and API key were not provided"))
      else elim new_client_error [
        | some e ↦ (s, some (codes "Failed to create client: " ++ e))
        | none ↦ elim login_error [
          | some e ↦ (s, some (codes "Client login failed: " ++ e))
          | none ↦ (record s { has_client = true }, none)
        ]
      ]

  -- A session that is logged in is closed first, which may wait for ever: `none`.
  unfoldable pub login :
      RealSession F
      → Str
      → Str
      → Option Str
      → Option Str
      → Option Str
      → Option (RealSession F × Option Str)
  unfolding connect close
  login s host_name api_key close_error new_client_error login_error =
      let closed = close ops s none close_error in
      if s.has_client
      then elim closed [
        | none ↦ none
        | some (t, _) ↦ some (connect t host_name api_key new_client_error login_error)
      ]
      else some (connect s host_name api_key new_client_error login_error)
