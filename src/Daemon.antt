-- ===== src/Daemon.antt =====
-- The daemon as a whole: Run of notifications/internal/agent/daemon.go with its three loops and the
-- connections, and the commands that change the same database, interleaved in any order. A step is
-- what no other one divides: the work under configMu, one receive from a channel, one transaction of
-- the queue, or one exchange with the backend. The signals of one socket are handled in one step; what
-- others do between the two transactions in it is as before it or as after it for the queue, since
-- `transacts` makes any transaction at any time.
pub mod Authority
pub mod Parts
pub mod Sending
pub mod Enrolling
pub mod Safety
use nova_codex_bootstrap.Prelude.{
  ℕ, ◌+◌, ◌≡◌, String, Bool, true, false, List, [], ◌∷◌, ◌++◌, Option, none, some, str_eq,
  if◌then◌else◌,
}
use nova_codex_bootstrap.Protocol.Event.{Time, HerdrDirtyEvent}
use nova_codex_bootstrap.Config.Endpoint.{parse_notification_endpoint, trim_slashes}
use nova_codex_bootstrap.Config.Settings.{
  Config, registration_active, registration_pending, registration_needs_setup_token,
  registration_identity_conflict,
}
use nova_codex_bootstrap.Queue.Rows.{Row, Queue, Binding, next, complete, retry}
use nova_codex_bootstrap.Ingress.Connection.{Messages, Service, Connection, handle_connection}
use nova_codex_bootstrap.Upload.Request.{Environment, Trace, upload_to_backend}
use nova_codex_bootstrap.Upload.Loop.{backoff, read_clock}
use nova_codex_bootstrap.Enrollment.Machine.{
  Daemon, configure, refresh_config, save_registration_state, discard_legacy_setup_token,
}
use nova_codex_bootstrap.Herdr.Socket.{FileLib}
use nova_codex_bootstrap.Herdr.Reconcile.{Setting}
use nova_codex_bootstrap.Herdr.Histories
use nova_codex_bootstrap.Herdr.Watch.{Visit, start_signal, take_signal, reconcile_dirty, discover}

-- Where uploadDue is: between two rounds, with the configuration it has read, with an event to send,
-- or with the outcome of sending it.
pub data Uploader (Body : Type 0) : Type 0 where
  resting : Uploader Body
  chosen : Config → Uploader Body
  sending : Row Body → Config → Uploader Body
  answered : Row Body → Bool → Uploader Body

-- `watching` is the map `dirty` of herdrLoop, and `attempt` the configuration that attemptEnrollment
-- has read, while it waits for the backend.
pub record State (Body : Type 0) : Type 0 where
  pub service : Service Body
  pub watching : List HerdrDirtyEvent
  pub config_path : String
  pub legacy_path : String
  pub token_file : Bool
  pub attempt : Option Config
  pub uploader : Uploader Body
  pub trace : Trace Body

module _ {Body : Type 0} where
  -- What enrollment reads and writes of it; requests and wakes are counted from none.
  abbrev pub enrollment_of : State Body → Daemon Body
  enrollment_of s = record {
    config = s.service.config;
    config_path = s.config_path;
    legacy_path = s.legacy_path;
    token_file = s.token_file;
    queue = s.service.queue;
    requests = 0;
    wakes = 0;
  }

  abbrev pub with_enrollment : State Body → Daemon Body → State Body
  with_enrollment s d = record s {
    service = record s.service { config = d.config; queue = d.queue };
    token_file = d.token_file;
  }

  abbrev pub store_queue : State Body → Queue Body → State Body
  store_queue s q = record s { service = record s.service { queue = q } }

  -- the configuration is read: an event is looked for only if the registration is active
  unfoldable pub look : Config → Uploader Body
  look config =
      if str_eq config.registration_state registration_active then chosen config else resting

  abbrev pub found_by : Config → Option (Row Body) → Uploader Body
  found_by config none = resting
  found_by config (some row) = sending row config

  -- Complete, or Retry with the delay, for which the clock is read
  unfoldable pub settle_queue : Row Body → Bool → Time → Queue Body → Queue Body
  settle_queue row true now q = complete q row.event_id
  settle_queue row false now q =
      let attempts = row.attempts + 1 in retry q row.event_id attempts (now + backoff attempts)

  abbrev pub after_settling : Bool → Trace Body → Trace Body
  after_settling accept t = record t { readings = if accept then t.readings else t.readings + 1 }

module _ {Raw Body : Type 0} (setting : Setting Body) (files : FileLib) (up : Environment Body)
    (messages : Messages Raw) where
  -- herdrLoop: the bindings at its start, a signal received, a signal handled, and discovery
  pub data Watches (s : State Body) : State Body → Type 0 where
    baselines :
        (b : Binding) (v : Visit)
        → Watches s (record s {
          service =
              reconcile_dirty setting files v (start_signal setting files b.binding_key) s.service;
        })
    receives :
        (e : HerdrDirtyEvent) (rest : List HerdrDirtyEvent)
        → s.service.dirty ≡ e ∷ rest
        → Watches s (record s {
          service = record s.service { dirty = rest };
          watching = take_signal e s.watching;
        })
    handles :
        (before : List HerdrDirtyEvent) (e : HerdrDirtyEvent) (after : List HerdrDirtyEvent)
        (v : Visit)
        → s.watching ≡ before ++ e ∷ after
        → Watches s (record s {
          service = reconcile_dirty setting files v e s.service;
          watching = before ++ after;
        })
    discovers :
        (sockets : List (String × Visit))
        → Watches s (record s { service = discover setting files sockets s.service })

  -- uploadLoop and uploadDue
  pub data Uploads (s : State Body) : State Body → Type 0 where
    woken :
        s.uploader ≡ resting
        → s.service.wake ≡ true
        → Uploads s (record s { service = record s.service { wake = false } })
    looks : s.uploader ≡ resting → Uploads s (record s { uploader = look s.service.config })
    takes :
        (config : Config)
        → s.uploader ≡ chosen config
        → Uploads s (
            let (now, t) = read_clock up s.trace in
            let found = next s.service.queue now (trim_slashes config.endpoint) in
            record (store_queue s found.1) { uploader = found_by config found.0; trace = t })
    sends :
        (row : Row Body) (config : Config) (accept : Bool) (t : Trace Body)
        → s.uploader ≡ sending row config
        → upload_to_backend up 2 row config s.trace ≡ some (accept, t)
        → Uploads s (record s { uploader = answered row accept; trace = t })
    settles :
        (row : Row Body) (accept : Bool)
        → s.uploader ≡ answered row accept
        → Uploads s (
            let now = up.clock s.trace.readings in
            record (store_queue s (settle_queue row accept now s.service.queue)) {
              uploader = resting;
              trace = after_settling accept s.trace;
            })

  -- enrollmentLoop, outside an attempt
  pub data Enrolls (s : State Body) : State Body → Type 0 where
    refreshes :
        (on_disk : Option Config) (d : Daemon Body)
        → s.attempt ≡ none
        → refresh_config up.net (enrollment_of s) on_disk ≡ some d
        → Enrolls s (with_enrollment s d)
    migrates :
        (written : Bool) (d : Daemon Body)
        → s.attempt ≡ none
        → s.service.config.registration_state ≡ registration_needs_setup_token
        → save_registration_state up.net (enrollment_of s) registration_pending written ≡ some d
        → Enrolls s (with_enrollment s (discard_legacy_setup_token d))
    discards : Enrolls s (with_enrollment s (discard_legacy_setup_token (enrollment_of s)))
    -- attemptEnrollment: the configuration is read under the lock, then the backend answers
    attempts :
        (on_disk : Option Config) (d : Daemon Body)
        → s.attempt ≡ none
        → refresh_config up.net (enrollment_of s) on_disk ≡ some d
        → Enrolls s (record (with_enrollment s d) { attempt = some d.config })
    gives_up : Enrolls s (record s { attempt = none })
    registers :
        (config : Config) (written : Bool) (d : Daemon Body)
        → s.attempt ≡ some config
        → save_registration_state up.net (enrollment_of s) registration_active written ≡ some d
        → Enrolls s (
            let t = with_enrollment s (discard_legacy_setup_token d) in
            record t { attempt = none; service = record t.service { wake = true } })
    conflicts :
        (config : Config) (written : Bool) (d : Daemon Body)
        → s.attempt ≡ some config
        → save_registration_state up.net (enrollment_of s) registration_identity_conflict written
          ≡ some d
        → Enrolls s (record (with_enrollment s (discard_legacy_setup_token d)) { attempt = none })

  -- handleConnection, a step of a loop, or a transaction of another process
  pub data Step (s : State Body) : State Body → Type 0 where
    connects :
        (c : Connection Raw)
        → Step s (record s {
          service = (handle_connection setting.go files setting.codec messages s.service c).1;
        })
    watches : (t : State Body) → Watches s t → Step s t
    uploads : (t : State Body) → Uploads s t → Step s t
    enrolls : (t : State Body) → Enrolls s t → Step s t
    transacts :
        (q : Queue Body) → Histories.Step setting s.service.queue q → Step s (store_queue s q)

  -- What some interleaving of the daemon's parts and of other processes reaches.
  pub data Reachable (s : State Body) : State Body → Type 0 where
    start : Reachable s s
    after : (t u : State Body) → Reachable s t → Step t u → Reachable s u

  abbrev launched :
      String → Config → String → String → Bool → Option (Queue Body) → Option (State Body)
  launched version config config_path legacy_path token_file none = none
  launched version config config_path legacy_path token_file (some q) = some (record {
    service = record { version = version; config = config; queue = q; dirty = []; wake = false };
    watching = [];
    config_path = config_path;
    legacy_path = legacy_path;
    token_file = token_file;
    attempt = none;
    uploader = resting;
    trace = record { sent = []; readings = 0 };
  })

  -- Run up to its loops, after setDefaults and with a socket to listen on; `none` is an error
  unfoldable pub launch :
      String → Config → String → String → Bool → Queue Body → Option (State Body)
  launch version config config_path legacy_path token_file q =
      launched version config config_path legacy_path token_file
        (configure up.net q (parse_notification_endpoint up.net config.endpoint))
