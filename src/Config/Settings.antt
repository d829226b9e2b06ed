-- ===== src/Config/Settings.antt =====
-- Config and ValidateConfig of notifications/internal/agent/config.go.
use nova_codex_bootstrap.Prelude.{
  ℕ, String, Bool, true, false, not, ◌||◌, Option, none, some, ◌==◌, str_eq, is_empty,
  if◌then◌else◌,
}
use nova_codex_bootstrap.Config.Endpoint.{NetLib, Url, parse_notification_endpoint}

pub record Config : Type 0 where
  pub version : ℕ
  pub host_id : String
  pub endpoint : String
  pub registration_state : String

abbrev pub registration_pending : String
registration_pending = "pending"

abbrev pub registration_active : String
registration_active = "active"

abbrev pub registration_needs_setup_token : String
registration_needs_setup_token = "needs_setup_token"

abbrev pub registration_identity_conflict : String
registration_identity_conflict = "identity_conflict"

unfoldable pub is_registration_state : String → Bool
is_registration_state s =
    str_eq s registration_pending
    || str_eq s registration_active
    || str_eq s registration_needs_setup_token
    || str_eq s registration_identity_conflict

abbrev is_parsed : Option Url → Bool
is_parsed none = false
is_parsed (some _) = true

-- ValidateConfig; true is a nil error
unfoldable pub validate_config : NetLib → Config → Bool
unfolding is_registration_state parse_notification_endpoint
validate_config net c =
    if not (c.version == 1) || is_empty c.host_id || is_empty c.endpoint
    then false
    else if not (is_registration_state c.registration_state)
    then false
    else is_parsed (parse_notification_endpoint net c.endpoint)
