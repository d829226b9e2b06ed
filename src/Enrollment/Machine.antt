-- ===== src/Enrollment/Machine.antt =====
-- enrollmentLoop, attemptEnrollment and what they call (notifications/internal/agent/enrollment.go).
-- Each iteration takes from outside what the files, the lock and the backend give it.
use nova_codex_bootstrap.Prelude.{
  ℕ, ◌+◌, ◌*◌, String, Bool, true, false, not, ◌&&◌, List, [], ◌∷◌, Option, none, some, ltb, ◌==◌,
  str_eq, is_empty, if◌then◌else◌,
}
use nova_codex_bootstrap.Queue.Rows.{Queue, configure_backend}
use nova_codex_bootstrap.Config.Endpoint.{NetLib, Url, parse_notification_endpoint, trim_slashes}
use nova_codex_bootstrap.Config.Settings.{
  Config, validate_config, registration_pending, registration_active,
  registration_needs_setup_token, registration_identity_conflict,
}

pub data EnrollmentResult : Type 0 where
  waiting succeeded retry : EnrollmentResult

-- The error of RegisterHost: none, a RegistrationError with its status, or any other.
pub data Registration : Type 0 where
  registered : Registration
  rejected : ℕ → Registration
  unreachable : Registration

-- The part of the daemon that enrollment reads and writes. `token_file` says that the legacy setup
-- token file is there; `requests` counts the enrollment tokens asked for, and `wakes` the uploads
-- signalled.
pub record Daemon (Body : Type 0) : Type 0 where
  pub config : Config
  pub config_path : String
  pub legacy_path : String
  pub token_file : Bool
  pub queue : Queue Body
  pub requests : ℕ
  pub wakes : ℕ

-- What one iteration meets, in the order of use: LoadConfig (`none` is an error), the enrollment
-- lock, the write of the configuration, the enrollment token, and the registration.
pub record Inputs : Type 0 where
  pub loaded : Option Config
  pub discard_lock : Bool
  pub discard_loaded : Option Config
  pub migrated : Bool
  pub attempt_lock : Bool
  pub attempt_loaded : Option Config
  pub token : Option String
  pub registration : Registration
  pub saved : Bool

pub record Timing : Type 0 where
  pub poll : ℕ
  pub least : ℕ
  pub most : ℕ

-- The variables of the loop.
pub record Loop : Type 0 where
  pub retry_delay : ℕ
  pub delay : ℕ
  pub refresh_active : Bool

-- discardLegacySetupToken
abbrev pub discard_legacy_setup_token : {Body : Type 0} → Daemon Body → Daemon Body
discard_legacy_setup_token d = if is_empty d.legacy_path then d else record d { token_file = false }

module _ (net : NetLib) {Body : Type 0} where
  -- ConfigureBackend with its parsing; `none` is an error
  abbrev pub configure : Queue Body → Option Url → Option (Queue Body)
  configure q none = none
  configure q (some url) = some (configure_backend q (trim_slashes (net.to_string url)))

  unfoldable pub with_queue : Daemon Body → Config → Option (Queue Body) → Option (Daemon Body)
  with_queue d config none = none
  with_queue d config (some q) = some (record d { config = config; queue = q })

  unfoldable pub refresh_loaded : Daemon Body → Option Config → Option (Daemon Body)
  unfolding with_queue
  refresh_loaded d none = none
  refresh_loaded d (some config) =
      if not (is_empty d.config.host_id) && not (str_eq config.host_id d.config.host_id)
      then none
      else with_queue d config (configure d.queue (parse_notification_endpoint net config.endpoint))

  -- refreshConfig; `none` is an error
  unfoldable pub refresh_config : Daemon Body → Option Config → Option (Daemon Body)
  unfolding refresh_loaded
  refresh_config d loaded = if is_empty d.config_path then some d else refresh_loaded d loaded

  -- saveRegistrationState; `none` is an error
  unfoldable pub save_registration_state : Daemon Body → String → Bool → Option (Daemon Body)
  save_registration_state d state written =
      let config = record d.config { registration_state = state } in
      if not (is_empty d.config_path) && not (validate_config net config && written)
      then none
      else some (record d { config = config })

  unfoldable pub discard_if : String → Daemon Body → Option (Daemon Body) → Daemon Body
  discard_if expected d none = d
  discard_if expected d (some e) =
      if str_eq e.config.registration_state expected then discard_legacy_setup_token e else e

  -- discardLegacySetupTokenForState
  unfoldable pub discard_for_state : Daemon Body → String → Inputs → Daemon Body
  unfolding discard_if
  discard_for_state d expected i =
      if i.discard_lock then discard_if expected d (refresh_config d i.discard_loaded) else d

  unfoldable pub after_success : Daemon Body → Option (Daemon Body) → EnrollmentResult × Daemon Body
  after_success d none = (retry, d)
  after_success d (some e) =
      let f = discard_legacy_setup_token e in (succeeded, record f { wakes = f.wakes + 1 })

  unfoldable pub after_conflict :
      Daemon Body → Option (Daemon Body) → EnrollmentResult × Daemon Body
  after_conflict d none = (retry, d)
  after_conflict d (some e) = (waiting, discard_legacy_setup_token e)

  unfoldable pub register_host : Daemon Body → Bool → Registration → EnrollmentResult × Daemon Body
  unfolding after_success after_conflict
  register_host d saved registered =
      after_success d (save_registration_state d registration_active saved)
  register_host d saved (rejected status) =
      if status == 409
      then after_conflict d (save_registration_state d registration_identity_conflict saved)
      else (retry, d)
  register_host d saved unreachable = (retry, d)

  unfoldable pub request_token :
      Daemon Body → Inputs → Option String → EnrollmentResult × Daemon Body
  request_token d i none = (retry, record d { requests = d.requests + 1 })
  request_token d i (some token) =
      register_host (record d { requests = d.requests + 1 }) i.saved i.registration

  unfoldable pub attempt_refreshed :
      Daemon Body → Inputs → Option (Daemon Body) → EnrollmentResult × Daemon Body
  attempt_refreshed d i none = (retry, d)
  attempt_refreshed d i (some e) = request_token e i i.token

  -- attemptEnrollment
  unfoldable pub attempt_enrollment : Daemon Body → Inputs → EnrollmentResult × Daemon Body
  unfolding attempt_refreshed request_token register_host
  attempt_enrollment d i =
      if i.attempt_lock
      then attempt_refreshed d i (refresh_config d i.attempt_loaded)
      else (retry, d)

-- `retryDelay *= 2`, capped
unfoldable pub doubled : Timing → ℕ → ℕ
doubled t d = if ltb t.most (d * 2) then t.most else d * 2

-- The loop's variables after an attempt; the second argument says that the registration was active.
unfoldable pub after_attempt : Timing → Bool → Loop → EnrollmentResult → Loop
unfolding doubled
after_attempt t active l succeeded = record {
  retry_delay = t.least;
  delay = t.poll;
  refresh_active = false;
}
after_attempt t true l waiting = record {
  retry_delay = t.least;
  delay = t.poll;
  refresh_active = false;
}
after_attempt t false l waiting = record l { retry_delay = t.least; delay = t.poll }
after_attempt t active l retry = record l {
  retry_delay = doubled t l.retry_delay;
  delay = l.retry_delay;
}

abbrev pub settled : Timing → Loop → Loop
settled timing l = record l { retry_delay = timing.least; delay = timing.poll }

-- the variables as the loop starts
abbrev pub start : Timing → Loop
start timing = record { retry_delay = timing.least; delay = 0; refresh_active = true }

module _ (net : NetLib) (timing : Timing) {Body : Type 0} where
  unfoldable pub attempt : Bool → Daemon Body → Loop → Inputs → Daemon Body × Loop
  attempt active d l i =
      let (result, e) = attempt_enrollment net d i in (e, after_attempt timing active l result)

  unfoldable pub refresh_or_settle : Daemon Body → Loop → Inputs → Daemon Body × Loop
  refresh_or_settle d l i = if l.refresh_active then attempt true d l i else (d, settled timing l)

  unfoldable pub migrate : Daemon Body → Option (Daemon Body) → Daemon Body
  migrate d none = d
  migrate d (some e) = discard_legacy_setup_token e

  -- the switch over the registration state
  unfoldable pub dispatch : Daemon Body → Loop → Inputs → Daemon Body × Loop
  dispatch d l i =
      let state = d.config.registration_state in
      if str_eq state registration_active
      then refresh_or_settle (discard_for_state net d registration_active i) l i
      else if str_eq state registration_identity_conflict
      then (discard_for_state net d registration_identity_conflict i, settled timing l)
      else if str_eq state registration_needs_setup_token
      then (
        migrate d (save_registration_state net d registration_pending i.migrated),
        record l { retry_delay = timing.least; delay = 0 },
      )
      else if str_eq state registration_pending
      then attempt false d l i
      else (d, record l { delay = timing.poll })

  unfoldable pub refreshed : Daemon Body → Loop → Inputs → Option (Daemon Body) → Daemon Body × Loop
  refreshed d l i none = (d, record l { delay = timing.poll })
  refreshed d l i (some e) = dispatch e l i

  -- one iteration of enrollmentLoop, after the wait
  unfoldable pub iterate : Daemon Body → Loop → Inputs → Daemon Body × Loop
  iterate d l i = refreshed d l i (refresh_config net d i.loaded)

  -- enrollmentLoop over the iterations that the context lets it make
  unfoldable pub enroll : Daemon Body → Loop → List Inputs → Daemon Body × Loop
  enroll d l [] = (d, l)
  enroll d l (i ∷ rest) = let (e, m) = iterate d l i in enroll e m rest
