-- ===== src/Ingress/Safety.antt =====
-- What a connection can do to the daemon (handleConnection of notifications/internal/agent/daemon.go),
-- and that it takes what the hook sends (NormalizeHook of hook.go).
use nova_codex_bootstrap.Prelude.{
  ◌≤◌, ◌<◌, ltb→lt, ◌≡◌, ◌⊎◌, refl, String, Bool, true, false, ◌||◌, [], ◌∷◌, ◌++◌, length,
  length-append, Option, none, some, arith, ltb, ◌==◌, str_eq, is_empty, eq_iff, if◌then◌else◌, inl,
  inr,
}
use nova_codex_bootstrap.Protocol.Metadata.{Encoding}
use nova_codex_bootstrap.Protocol.Event.{
  Time, version, HookEvent, HerdrDirtyEvent, is_valid, valid_id, is_codex_event, approval_required,
  turn_stopped,
}
use nova_codex_bootstrap.Queue.Rows.{depth, enqueue}
use nova_codex_bootstrap.Queue.Invariant.{IsSound, enqueue-IsSound}
use nova_codex_bootstrap.Upload.Request.{Codec}
use nova_codex_bootstrap.Herdr.Socket.{FileLib}
use nova_codex_bootstrap.Ingress.Hook.{
  Reading, CodexHookInput, event_type_of, hook_event, normalize_source, normalize_hook,
}
use nova_codex_bootstrap.Ingress.Connection.{
  Reply, accepted, refused, info, Messages, Service, Connection, event_id, capabilities, is_type,
  to_host_event, signal_error, admit_signal, receive_signal, enqueue_hook, receive_hook, receive,
  handle_message, handle_connection, validate_hook_event,
}

-- What holds of the daemon between connections.
pub record IsReady {Body : Type 0} (s : Service Body) : Type 0 where
  pub queue : IsSound s.queue.pending
  pub signals : length s.dirty ≤ 128

module _ (go : Encoding) (lib : FileLib) {Raw Body : Type 0} (codec : Codec Body)
    (messages : Messages Raw) where
  -- A reply and the daemon after it.
  pub data Answers (s : Service Body) : Reply × Service Body → Type 0 where
    unchanged : (r : Reply) → Answers s (r, s)
    signalled :
        (e : HerdrDirtyEvent)
        → signal_error go lib codec messages e ≡ none
        → length s.dirty < 128
        → Answers s (accepted, record s { dirty = s.dirty ++ e ∷ [] })
    queued :
        (e : HookEvent) (id : String) (now : Time)
        → validate_hook_event go e ≡ true
        → Answers s (
          accepted,
          record s {
            queue =
                enqueue go codec.unmarshal s.queue id (codec.marshal (to_host_event version e)) now;
            wake = true;
          },
        )

  if-Answers :
      (s : Service Body) (b : Bool) (x y : Reply × Service Body)
      → (b ≡ true → Answers s x)
      → (b ≡ false → Answers s y)
      → Answers s (if b then x else y)
  if-Answers s true x y hx hy = hx refl
  if-Answers s false x y hx hy = hy refl

  admit_signal-Answers :
      (s : Service Body) (e : HerdrDirtyEvent) (o : Option String)
      → signal_error go lib codec messages e ≡ o
      → Answers s (admit_signal go lib codec messages s e o)
  unfolding admit_signal
  admit_signal-Answers s e (some message) h = unchanged (refused message)
  admit_signal-Answers s e none h =
      if-Answers s (ltb (length s.dirty) 128) (accepted, record s { dirty = s.dirty ++ e ∷ [] })
        (refused "Herdr signal queue full", s)
        (λ room. signalled e h (ltb→lt (length s.dirty) 128 room))
        (λ _. unchanged (refused "Herdr signal queue full"))

  enqueue_hook-Answers :
      (s : Service Body) (e : HookEvent) (now : Time) (id : Option String)
      → validate_hook_event go e ≡ true
      → Answers s (enqueue_hook go lib codec messages s e now id)
  unfolding enqueue_hook
  enqueue_hook-Answers s e now none h = unchanged (refused "create event id")
  enqueue_hook-Answers s e now (some id) h = queued e id now h

  receive_hook-Answers :
      (s : Service Body) (c : Connection Raw) (o : Option HookEvent)
      → Answers s (receive_hook go lib codec messages s c o)
  unfolding receive_hook
  receive_hook-Answers s c none = unchanged (refused "invalid event")
  receive_hook-Answers s c (some e) =
      if-Answers s (validate_hook_event go e)
        (enqueue_hook go lib codec messages s e c.now
          (event_id go lib codec messages s.config e c.fresh))
        (refused "unsupported event", s)
        (λ valid.
          enqueue_hook-Answers s e c.now (event_id go lib codec messages s.config e c.fresh) valid)
        (λ _. unchanged (refused "unsupported event"))

  receive-Answers :
      (s : Service Body) (c : Connection Raw) (raw : Raw) (o : Option HerdrDirtyEvent)
      → Answers s (receive go lib codec messages s c raw o)
  unfolding receive
  receive-Answers s c raw none = receive_hook-Answers s c (messages.as_hook raw)
  receive-Answers s c raw (some e) =
      if-Answers s (str_eq e.type "herdr-dirty") (receive_signal go lib codec messages s e)
        (receive_hook go lib codec messages s c (messages.as_hook raw))
        (λ _.
          unfold receive_signal in
          admit_signal-Answers s e (signal_error go lib codec messages e) refl)
        (λ _. receive_hook-Answers s c (messages.as_hook raw))

  handle_message-Answers :
      (s : Service Body) (c : Connection Raw) (o : Option Raw)
      → Answers s (handle_message go lib codec messages s c o)
  unfolding handle_message
  handle_message-Answers s c none = unchanged (refused "invalid event")
  handle_message-Answers s c (some raw) =
      let reply = info s.version capabilities (depth s.queue) s.config.registration_state in
      if-Answers s (is_type "daemon-info" (messages.as_info raw)) (reply, s)
        (receive go lib codec messages s c raw (messages.as_dirty raw)) (λ _. unchanged reply)
        (λ _. receive-Answers s c raw (messages.as_dirty raw))

  -- A connection leaves the daemon as it is, or is accepted, and then either a signal with no
  -- error has been put behind fewer than 128 others, or a valid hook event has been queued and an
  -- upload made due.
  pub handle_connection-Answers :
      (s : Service Body) (c : Connection Raw)
      → Answers s (handle_connection go lib codec messages s c)
  unfolding handle_connection
  handle_connection-Answers s c =
      if-Answers s c.is_peer (handle_message go lib codec messages s c c.message)
        (refused "unauthorized peer", s) (λ _. handle_message-Answers s c c.message)
        (λ _. unchanged (refused "unauthorized peer"))

  -- What a connection leaves is ready for the next.
  pub Answers-IsReady :
      (s : Service Body) (r : Reply × Service Body) → Answers s r → IsReady s → IsReady r.1
  Answers-IsReady s r (unchanged reply) h = h
  Answers-IsReady s r (signalled e valid room) h = record {
    queue = h.queue;
    signals = omega (arith, length-append s.dirty (e ∷ []));
  }
  Answers-IsReady s r (queued e id now valid) h = record {
    queue = enqueue-IsSound go codec.unmarshal s.queue id _ now h.queue;
    signals = h.signals;
  }

type_of :
    (name type : String)
    → event_type_of name ≡ some type
    → (type ≡ approval_required) ⊎ (type ≡ turn_stopped)
type_of name type h = ground arith

made_of :
    (now : Time) (source : CodexHookInput) (o : Option String) (e : HookEvent)
    → hook_event now source o ≡ some e
    → (e.protocol_version ≡ version) × (e.occurred_at ≡ now) × (o ≡ some e.event_type)
made_of now source none e h = cc
made_of now source (some type) e h = (ground arith, ground arith, ground arith)

normalize_source-made :
    (r : Reading) (now : Time) (o : Option CodexHookInput) (e : HookEvent)
    → normalize_source r now o ≡ some e
    → (e.protocol_version ≡ version)
      × (e.occurred_at ≡ now)
      × ((e.event_type ≡ approval_required) ⊎ (e.event_type ≡ turn_stopped))
unfolding normalize_source
normalize_source-made r now none e h = cc
normalize_source-made r now (some source) e h =
    let made = made_of now source (event_type_of source.hook_event_name) e (ground arith) in
    (made.0, made.1, type_of source.hook_event_name e.event_type made.2)

codex_event :
    (type : String)
    → (type ≡ approval_required) ⊎ (type ≡ turn_stopped)
    → is_codex_event type ≡ true
unfolding is_codex_event
codex_event type (inl h) = ground (arith, eq_iff type approval_required)
codex_event type (inr h) = ground (arith, eq_iff type turn_stopped)

codex-validate :
    (go : Encoding) (e : HookEvent)
    → e.protocol_version ≡ version
    → (e.occurred_at == 0) ≡ false
    → is_codex_event e.event_type ≡ true
    → valid_id e.thread_id ≡ true
    → valid_id e.turn_id ≡ true
    → (is_empty e.request_id || valid_id e.request_id) ≡ true
    → validate_hook_event go e ≡ true
unfolding validate_hook_event is_valid
codex-validate go e v time type thread turn request = rw (v, time, type, thread, turn, request)

-- What the hook sends is accepted: an event that NormalizeHook makes passes validateHookEvent, if
-- its thread and turn are valid identifiers, its request is one or is empty, and the time is not
-- zero.
pub normalize_hook-validate :
    (go : Encoding) (r : Reading) (now : Time) (e : HookEvent)
    → normalize_hook r now ≡ some e
    → (now == 0) ≡ false
    → valid_id e.thread_id ≡ true
    → valid_id e.turn_id ≡ true
    → (is_empty e.request_id || valid_id e.request_id) ≡ true
    → validate_hook_event go e ≡ true
unfolding normalize_hook
normalize_hook-validate go r now e h time thread turn request =
    let (v, at, type) = normalize_source-made r now r.source e h in
    codex-validate go e v (rw at time) (codex_event e.event_type type) thread turn request
