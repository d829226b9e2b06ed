-- ===== src/Ingress/Connection.antt =====
-- handleConnection, validateHookEvent and eventID of notifications/internal/agent/daemon.go.
use Prim.Native.Char.{code}
use nova_codex_bootstrap.Prelude.{
  ℕ, String, len, Bool, true, false, not, ◌&&◌, ◌||◌, List, [], ◌∷◌, ◌++◌, length, Option, none,
  some, ltb, ◌==◌, str_eq, is_empty, if◌then◌else◌,
}
use nova_codex_bootstrap.Protocol.Text.{join}
use nova_codex_bootstrap.Protocol.Metadata.{Encoding}
use nova_codex_bootstrap.Protocol.Event.{
  Time, HookEvent, HostEvent, HerdrDirtyEvent, version, valid_id, contains_break, is_valid,
}
use nova_codex_bootstrap.Config.Settings.{Config}
use nova_codex_bootstrap.Queue.Rows.{Queue, enqueue, depth}
use nova_codex_bootstrap.Upload.Request.{Codec}
use nova_codex_bootstrap.Herdr.Agent.{is_hex}
use nova_codex_bootstrap.Herdr.Socket.{FileLib, herdr_binding_key}

-- IPCResponse and DaemonInfoResponse.
pub data Reply : Type 0 where
  accepted : Reply
  refused : String → Reply
  info :
      (version : String) (capabilities : List String) (queue_depth : ℕ)
      (registration_state : String)
      → Reply

-- json.Unmarshal of a message as each type of request; `none` is an error. Of the first only the
-- type is read.
pub record Messages (Raw : Type 0) : Type 0 where
  pub as_info : Raw → Option String
  pub as_dirty : Raw → Option HerdrDirtyEvent
  pub as_hook : Raw → Option HookEvent

-- The part of the daemon that connections reach: the channel `herdrDirty`, which holds 128 signals,
-- and whether `wake` holds one.
pub record Service (Body : Type 0) : Type 0 where
  pub version : String
  pub config : Config
  pub queue : Queue Body
  pub dirty : List HerdrDirtyEvent
  pub wake : Bool

-- What one connection brings: the peer's check, the message (`none` is invalid JSON), the time, and
-- the identifier that NewUUID gives.
pub record Connection (Raw : Type 0) : Type 0 where
  pub is_peer : Bool
  pub message : Option Raw
  pub now : Time
  pub fresh : Option String

-- hex.DecodeString succeeds on a text of even length of such characters
unfoldable pub is_hex_text : String → Bool
unfolding is_hex
is_hex_text String.[] = true
is_hex_text (String.◌∷◌ c s) = is_hex (code c) && is_hex_text s

abbrev pub capabilities : List String
capabilities = "codex-v1" ∷ "herdr-v2" ∷ "herdr-bindings-v1" ∷ "herdr-host-capture-v1" ∷ []

abbrev pub is_type : String → Option String → Bool
is_type type none = false
is_type type (some t) = str_eq t type

-- the event as the queue keeps it, under a schema version
abbrev pub to_host_event : ℕ → HookEvent → HostEvent
to_host_event schema e = record {
  schema_version = schema;
  event_type = e.event_type;
  thread_id = e.thread_id;
  turn_id = e.turn_id;
  request_id = e.request_id;
  occurred_at = e.occurred_at;
  source = "";
  target = none;
  herdr_metadata = none;
}

-- validateHookEvent; true is a nil error
unfoldable pub validate_hook_event : Encoding → HookEvent → Bool
validate_hook_event go e =
    e.protocol_version == version && is_valid go (to_host_event e.protocol_version e)

module _ (go : Encoding) (lib : FileLib) {Raw Body : Type 0} (codec : Codec Body)
    (messages : Messages Raw) where
  -- eventID; `none` is an error
  unfoldable pub event_id : Config → HookEvent → Option String → Option String
  event_id config e fresh =
      if is_empty e.request_id
      then fresh
      else some (
          lib.sha256_hex (
            join "\n"
              (config.host_id ∷ e.event_type ∷ e.thread_id ∷ e.turn_id ∷ e.request_id ∷ [])))

  valid_signal : HerdrDirtyEvent → Bool
  valid_signal e =
      len e.binding_key == 64 && (valid_id e.pane_id || (e.baseline && is_empty e.pane_id))

  valid_socket : HerdrDirtyEvent → Bool
  valid_socket e =
      is_empty e.socket_path
      || not (
          ltb 4096 (len e.socket_path)
          || not (lib.is_abs e.socket_path)
          || contains_break e.socket_path
          || not (str_eq (herdr_binding_key lib e.socket_path) e.binding_key))

  -- what is wrong with a signal
  pub signal_error : HerdrDirtyEvent → Option String
  unfolding valid_signal valid_socket
  signal_error e =
      if not (valid_signal e)
      then some "invalid Herdr signal"
      else if not (is_hex_text e.binding_key)
      then some "invalid Herdr binding"
      else if not (valid_socket e)
      then some "invalid Herdr socket"
      else none

  unfoldable pub admit_signal :
      Service Body → HerdrDirtyEvent → Option String → Reply × Service Body
  admit_signal s e (some message) = (refused message, s)
  admit_signal s e none =
      if ltb (length s.dirty) 128
      then (accepted, record s { dirty = s.dirty ++ e ∷ [] })
      else (refused "Herdr signal queue full", s)

  unfoldable pub receive_signal : Service Body → HerdrDirtyEvent → Reply × Service Body
  unfolding signal_error admit_signal
  receive_signal s e = admit_signal s e (signal_error e)

  unfoldable pub enqueue_hook :
      Service Body → HookEvent → Time → Option String → Reply × Service Body
  enqueue_hook s e now none = (refused "create event id", s)
  enqueue_hook s e now (some id) = (
    accepted,
    record s {
      queue = enqueue go codec.unmarshal s.queue id (codec.marshal (to_host_event version e)) now;
      wake = true;
    },
  )

  unfoldable pub receive_hook :
      Service Body → Connection Raw → Option HookEvent → Reply × Service Body
  unfolding enqueue_hook
  receive_hook s c none = (refused "invalid event", s)
  receive_hook s c (some e) =
      if validate_hook_event go e
      then enqueue_hook s e c.now (event_id s.config e c.fresh)
      else (refused "unsupported event", s)

  -- A message that is no request for information: a signal if it decodes to one, else a hook's event.
  unfoldable pub receive :
      Service Body → Connection Raw → Raw → Option HerdrDirtyEvent → Reply × Service Body
  receive s c raw none = receive_hook s c (messages.as_hook raw)
  receive s c raw (some e) =
      if str_eq e.type "herdr-dirty"
      then receive_signal s e
      else receive_hook s c (messages.as_hook raw)

  unfoldable pub handle_message : Service Body → Connection Raw → Option Raw → Reply × Service Body
  unfolding receive
  handle_message s c none = (refused "invalid event", s)
  handle_message s c (some raw) =
      if is_type "daemon-info" (messages.as_info raw)
      then (info s.version capabilities (depth s.queue) s.config.registration_state, s)
      else receive s c raw (messages.as_dirty raw)

  -- handleConnection
  unfoldable pub handle_connection : Service Body → Connection Raw → Reply × Service Body
  unfolding handle_message
  handle_connection s c =
      if c.is_peer then handle_message s c c.message else (refused "unauthorized peer", s)
