-- ===== src/Ingress/Ipc.antt =====
-- The local socket: SendIPC, SendHerdrIPC, dialIPC and ListenIPC of notifications/internal/agent/ipc.go,
-- verifyPeer of peercred_linux.go, and the commands hook and herdr-hook of
-- notifications/cmd/novascale-agent (runHook of main.go and runHerdrHook of herdr.go).
use nova_codex_bootstrap.Prelude.{
  ℕ, ◌≡◌, refl, String, Bool, true, false, ◌&&◌, ◌||◌, Option, none, some, ◌==◌, str_eq, is_empty,
  arith, if◌then◌else◌,
}
use nova_codex_bootstrap.Protocol.Metadata.{Encoding}
use nova_codex_bootstrap.Protocol.Event.{Time, version, HookEvent, HerdrDirtyEvent, valid_id}
use nova_codex_bootstrap.Queue.Rows.{enqueue}
use nova_codex_bootstrap.Upload.Request.{Codec}
use nova_codex_bootstrap.Herdr.Socket.{FileLib, Home, StatusEnvelope, normalize_herdr_hook}
use nova_codex_bootstrap.Ingress.Hook.{Reading, normalize_hook}
use nova_codex_bootstrap.Ingress.Connection.{
  Reply, accepted, refused, info, Messages, Service, Connection, is_type, to_host_event, event_id,
  enqueue_hook, receive_hook, receive, handle_message, handle_connection,
}
use nova_codex_bootstrap.Ingress.Safety.{normalize_hook-validate}

-- sendHookIPC by the reply, `none` if the socket cannot be dialled, written or read; true is a nil error.
unfoldable pub send_ipc : Option Reply → Bool
send_ipc none = false
send_ipc (some accepted) = true
send_ipc (some (refused message)) = false
send_ipc (some (info v capabilities depth state)) = false

-- verifyPeer: the peer's user, if the operating system tells it, against the daemon's.
unfoldable pub verify_peer : Option ℕ → ℕ → Bool
verify_peer none euid = false
verify_peer (some uid) euid = uid == euid

-- What stands at the socket's path.
pub data PathEntry : Type 0 where
  nothing socket other : PathEntry

-- Which steps of ListenIPC succeed: the directory is made and its mode is set, the entry is inspected,
-- an old socket is removed, the new one is bound, and its mode is set.
pub record Listening : Type 0 where
  pub has_directory : Bool
  pub is_inspected : Bool
  pub is_removed : Bool
  pub is_bound : Bool
  pub is_private : Bool

-- Whether there is a listener, and what stands at the path then; a listener that is closed takes its
-- socket away.
unfoldable pub bind_socket : Listening → PathEntry → Bool × PathEntry
bind_socket l entry =
    if l.is_bound
    then (if l.is_private then (true, socket) else (false, nothing))
    else (false, entry)

unfoldable pub listen_at : Listening → PathEntry → Bool × PathEntry
unfolding bind_socket
listen_at l nothing = bind_socket l nothing
listen_at l socket = if l.is_removed then bind_socket l nothing else (false, socket)
listen_at l other = (false, other)

-- ListenIPC
unfoldable pub listen_ipc : Listening → PathEntry → Bool × PathEntry
unfolding listen_at
listen_ipc l entry = if l.has_directory && l.is_inspected then listen_at l entry else (false, entry)

-- A run of the hook: whether the paths are found and the flags are read, the input, and the time.
pub record HookRun : Type 0 where
  pub has_paths : Bool
  pub valid_flags : Bool
  pub reading : Reading
  pub now : Time

-- WriteNeutralVerdict
abbrev pub neutral_verdict : String
neutral_verdict = "{}\n"

-- runHook: what it writes, and the event that it sends, if any
unfoldable pub run_hook : HookRun → String × Option HookEvent
run_hook h =
    (neutral_verdict, if h.has_paths && h.valid_flags then normalize_hook h.reading h.now else none)

-- A run of Herdr's hook, on the variables HERDR_PLUGIN_EVENT, HERDR_PLUGIN_EVENT_JSON and
-- HERDR_SOCKET_PATH.
pub record HerdrHookRun : Type 0 where
  pub has_paths : Bool
  pub valid_flags : Bool
  pub trigger : String
  pub payload : String
  pub socket_path : String

-- runHerdrHook
unfoldable pub run_herdr_hook :
    FileLib
    → Home
    → (String → Option StatusEnvelope)
    → HerdrHookRun
    → String × Option HerdrDirtyEvent
run_herdr_hook lib home unmarshal h = (
  neutral_verdict,
  if h.has_paths && h.valid_flags
      then normalize_herdr_hook lib home unmarshal h.trigger h.payload h.socket_path
      else none,
)

-- ListenIPC never removes what is no socket, and listens only at a socket.
listen_ipc-safe :
    (l : Listening) (entry : PathEntry)
    → (entry ≡ other → listen_ipc l entry ≡ (false, other))
      × ((listen_ipc l entry).0 ≡ true → (listen_ipc l entry).1 ≡ socket)
unfolding listen_ipc listen_at bind_socket
listen_ipc-safe l nothing = ground arith
listen_ipc-safe l socket = ground arith
listen_ipc-safe l other = ground arith

sent-normalized :
    (b : Bool) (o : Option HookEvent) (e : HookEvent)
    → (if b then o else none) ≡ some e
    → o ≡ some e
sent-normalized true o e h = h
sent-normalized false o e h = absurd (ground arith)

same_user : (uid : ℕ) → (uid == uid) ≡ true
same_user uid = ground arith

module _ (go : Encoding) (lib : FileLib) {Raw Body : Type 0} (codec : Codec Body)
    (messages : Messages Raw) where
  enqueue_hook-accepted :
      (s : Service Body) (e : HookEvent) (now : Time) (id : String)
      → enqueue_hook go lib codec messages s e now (some id) ≡ (
        accepted,
        record s {
          queue =
              enqueue go codec.unmarshal s.queue id (codec.marshal (to_host_event version e)) now;
          wake = true;
        },
      )
  unfolding enqueue_hook
  enqueue_hook-accepted s e now id = refl

  receive-hook :
      (s : Service Body) (c : Connection Raw) (raw : Raw) (e : HookEvent)
      (o : Option HerdrDirtyEvent)
      → messages.as_hook raw ≡ some e
      → ((d : HerdrDirtyEvent) → o ≡ some d → str_eq d.type "herdr-dirty" ≡ false)
      → receive go lib codec messages s c raw o ≡ receive_hook go lib codec messages s c (some e)
  unfolding receive
  receive-hook s c raw e none decoded apart = rw decoded
  receive-hook s c raw e (some d) decoded apart = rw (decoded, apart d refl)

  -- A hook event that the hook command sends to a daemon of the same user, and that the daemon
  -- decodes as the same hook event and as no other message, is accepted, queued in the form of a
  -- host event under the identifier that is made for it, and makes an upload due, if its thread
  -- and turn are valid identifiers, its request is one or is empty, and the hook's time is not
  -- zero.
  pub hook-delivered :
      (encode : HookEvent → Raw) (h : HookRun) (e : HookEvent) (s : Service Body) (uid : ℕ)
      (now : Time) (fresh : Option String) (id : String)
      → (run_hook h).1 ≡ some e
      → (h.now == 0) ≡ false
      → valid_id e.thread_id ≡ true
      → valid_id e.turn_id ≡ true
      → (is_empty e.request_id || valid_id e.request_id) ≡ true
      → is_type "daemon-info" (messages.as_info (encode e)) ≡ false
      → ((d : HerdrDirtyEvent)
          → messages.as_dirty (encode e) ≡ some d
          → str_eq d.type "herdr-dirty" ≡ false)
      → messages.as_hook (encode e) ≡ some e
      → event_id go lib codec messages s.config e fresh ≡ some id
      → handle_connection go lib codec messages s (record {
        is_peer = verify_peer (some uid) uid;
        message = some (encode e);
        now = now;
        fresh = fresh;
      })
        ≡ (
          accepted,
          record s {
            queue =
                enqueue go codec.unmarshal s.queue id (codec.marshal (to_host_event version e)) now;
            wake = true;
          },
        )
  unfolding run_hook handle_connection handle_message receive_hook verify_peer
  hook-delivered encode h e s uid now fresh id made time thread turn request no_info no_signal
        decoded named =
      let sent : normalize_hook h.reading h.now ≡ some e =
        sent-normalized (h.has_paths && h.valid_flags) (normalize_hook h.reading h.now) e made in
      let valid = normalize_hook-validate go h.reading h.now e sent time thread turn request in
      let c : Connection Raw = record {
        is_peer = uid == uid;
        message = some (encode e);
        now = now;
        fresh = fresh;
      } in
      let read = receive-hook s c (encode e) e (messages.as_dirty (encode e)) decoded no_signal in
      rw (same_user uid, no_info, read, valid, named) (enqueue_hook-accepted s e now id)
