-- ===== src/Cli/HerdrTest.antt =====
-- `novascale-agent herdr test` (notifications/cmd/novascale-agent/herdr.go): a test notification.
use nova_codex_bootstrap.Prelude.{
  String, not, ◌&&◌, head?, Option, none, some, is_empty, if◌then◌else◌,
}
use nova_codex_bootstrap.Protocol.Metadata.{Encoding}
use nova_codex_bootstrap.Protocol.Event.{
  Time, HostEvent, herdr_version, source_herdr, test_notification, valid_id,
}
use nova_codex_bootstrap.Upload.Request.{Codec}
use nova_codex_bootstrap.Queue.Rows.{Queue, Binding, enqueue}
use nova_codex_bootstrap.Herdr.Socket.{FileLib, herdr_binding_key}
use nova_codex_bootstrap.Herdr.Bindings.{herdr_binding, herdr_bindings}
use nova_codex_bootstrap.Herdr.Plugin.{Info, is_capable}

-- What the command meets: the daemon, the queue (`none` if it does not open), the two readings of the
-- clock, and the identifiers that NewUUID gives for the session and for the event.
pub record Occasion (Body : Type 0) : Type 0 where
  pub daemon : Option Info
  pub queue : Option (Queue Body)
  pub occurred_at : Time
  pub queued_at : Time
  pub session_uuid : Option String
  pub event_uuid : Option String

-- json.Marshal leaves out the thread, the turn and the request, which are empty
unfoldable pub test_event : String → String → Time → HostEvent
test_event session installation now = record {
  schema_version = herdr_version;
  event_type = test_notification;
  thread_id = "";
  turn_id = "";
  request_id = "";
  occurred_at = now;
  source = source_herdr;
  target = some (record {
    session_id = session;
    pane_id = "";
    codex_thread_id = "";
    test_installation_id = installation;
  });
  herdr_metadata = none;
}

abbrev enabled_session : Option Binding → Option String
enabled_session none = none
enabled_session (some b) = if b.enabled then some b.session_id else none

abbrev first_session : Option Binding → Option String → Option String
first_session none fresh = fresh
first_session (some b) fresh = some b.session_id

module _ (go : Encoding) (lib : FileLib) {Body : Type 0} (codec : Codec Body) where
  -- the session that the test is sent to: that of the socket, or the newest, or a new one
  unfoldable pub test_session : String → Queue Body → Option String → Option String
  test_session socket q fresh =
      if not (is_empty socket)
      then enabled_session (herdr_binding q (herdr_binding_key lib socket))
      else first_session (head? (herdr_bindings q)) fresh

  queue_test :
      String
      → Occasion Body
      → Queue Body
      → Option String
      → Option String
      → Option (String × Queue Body)
  queue_test installation o q (some session) (some id) = some (
    id,
    enqueue go codec.unmarshal q id (codec.marshal (test_event session installation o.occurred_at))
        o.queued_at,
  )
  queue_test installation o q _ _ = none

  test_on : String → String → Occasion Body → Option (Queue Body) → Option (String × Queue Body)
  unfolding queue_test test_session
  test_on socket installation o none = none
  test_on socket installation o (some q) =
      if q.capture
      then queue_test installation o q (test_session socket q o.session_uuid) o.event_uuid
      else none

  -- the command: the event's identifier and the queue after it; `none` is an error
  unfoldable pub run_test : String → String → Occasion Body → Option (String × Queue Body)
  unfolding test_on
  run_test socket installation o =
      if valid_id installation && is_capable "herdr-v2" o.daemon
      then test_on socket installation o o.queue
      else none
