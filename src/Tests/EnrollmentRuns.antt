-- ===== src/Tests/EnrollmentRuns.antt =====
-- The theorems on enrollment at a concrete daemon.
use nova_codex_bootstrap.Prelude.{◌≡◌, refl, String, true, [], ◌∷◌, some, arith, inl}
use nova_codex_bootstrap.Protocol.Event.{HostEvent}
use nova_codex_bootstrap.Config.Settings.{
  Config, validate_config, registration_pending, registration_active,
}
use nova_codex_bootstrap.Config.Endpoint.{parse_notification_endpoint}
use nova_codex_bootstrap.Enrollment.Machine.{
  Daemon, Inputs, Timing, Loop, registered, rejected, succeeded, attempt_enrollment, start, enroll,
  refresh_config, refresh_loaded, save_registration_state,
}
use nova_codex_bootstrap.Enrollment.Identity.{attempt_enrollment-succeeds, enroll-host}
use nova_codex_bootstrap.Enrollment.Pacing.{IsPaced, enroll-IsPaced}
use nova_codex_bootstrap.Tests.Data.{net, config, empty_queue}

abbrev pending_config : Config
pending_config = record config { registration_state = registration_pending }

abbrev daemon : Daemon HostEvent
daemon = record {
  config = pending_config;
  config_path = "/etc/config.json";
  legacy_path = "/etc/setup-token";
  token_file = true;
  queue = empty_queue;
  requests = 0;
  wakes = 0;
}

abbrev inputs : Inputs
inputs = record {
  loaded = some pending_config;
  discard_lock = true;
  discard_loaded = some pending_config;
  migrated = true;
  attempt_lock = true;
  attempt_loaded = some pending_config;
  token = some "token";
  registration = registered;
  saved = true;
}

abbrev conflict : Inputs
conflict = record inputs { registration = rejected 409 }

abbrev timing : Timing
timing = record { poll = 1; least = 5; most = 300 }

abbrev first : Loop
first = start timing

first-IsPaced : IsPaced timing first
first-IsPaced = record { least_retry = omega arith; most_retry = omega arith; waits = inl refl }

enroll-IsPaced_example : IsPaced timing (enroll net timing daemon first (conflict ∷ inputs ∷ [])).1
enroll-IsPaced_example =
    enroll-IsPaced net timing (omega arith) daemon (conflict ∷ inputs ∷ []) first first-IsPaced

enroll-host_example :
    (enroll net timing daemon first (conflict ∷ inputs ∷ [])).0.config.host_id ≡ "host-1"
enroll-host_example =
    enroll-host net timing "host-1" (conflict ∷ inputs ∷ []) daemon first refl refl

succeeds : (attempt_enrollment net daemon inputs).0 ≡ succeeded
unfolding attempt_enrollment refresh_config refresh_loaded save_registration_state validate_config
    parse_notification_endpoint
succeeds = refl

attempt_enrollment-succeeds_example :
    (inputs.attempt_lock ≡ true)
    × (inputs.registration ≡ registered)
    × ((attempt_enrollment net daemon inputs).1.config.registration_state ≡ registration_active)
    × (token : String) × (inputs.token ≡ some token)
attempt_enrollment-succeeds_example = attempt_enrollment-succeeds net daemon inputs succeeds
