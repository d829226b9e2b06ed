-- ===== src/Queue/Rows.antt =====
-- notifications/internal/agent/queue.go: the tables and the operations on pending events.
use nova_codex_bootstrap.Prelude.{
  ℕ, ◌+◌, ◌*◌, String, Bool, true, false, ◌&&◌, ◌||◌, List, [], ◌∷◌, ◌++◌, any, length, head?,
  select, map, Option, none, some, ltb, leb, str_eq, is_empty, if◌then◌else◌,
}
use nova_codex_bootstrap.Sql.{delete, update, order_by, delete_beyond}
use nova_codex_bootstrap.Protocol.Metadata.{Encoding}
use nova_codex_bootstrap.Protocol.Event.{
  Time, HostEvent, HerdrTarget, source_codex, source_herdr, event_source, is_valid,
}

-- pending_events
pub record Row (Body : Type 0) : Type 0 where
  pub event_id : String
  pub body : Body
  pub attempts : ℕ
  pub next_attempt_at : Time
  pub created_at : Time
  pub expires_at : Time
  pub source : String
  pub session_id : String
  pub pane_id : String
  pub backend : String

-- herdr_bindings
pub record Binding : Type 0 where
  pub binding_key : String
  pub session_id : String
  pub socket_path : String
  pub incarnation : String
  pub updated_at : Time
  pub enabled : Bool

-- herdr_panes
pub record Pane : Type 0 where
  pub binding_key : String
  pub pane_id : String
  pub terminal_id : String
  pub sequence : ℕ
  pub status : String
  pub observed_at : Time

-- The database with the queue's own field `lastSource`. `endpoint` is the row of queue_backend, and
-- `capture` the row of herdr_adapter.
pub record Queue (Body : Type 0) : Type 0 where
  pub pending : List (Row Body)
  pub endpoint : Option String
  pub bindings : List Binding
  pub panes : List Pane
  pub capture : Bool
  pub last_source : String

-- How a queued event is filed: source, session, pane and expiry.
pub record Filing : Type 0 where
  pub source : String
  pub session_id : String
  pub pane_id : String
  pub expires : Time

abbrev pub week : ℕ
week = 7 * 24 * 3600

abbrev pub half_hour : ℕ
half_hour = 30 * 60

-- COALESCE((SELECT endpoint FROM queue_backend WHERE singleton = 1), d)
abbrev pub backend_or : Option String → String → String
backend_or none d = d
backend_or (some e) d = e

-- A valid Herdr event has a target.
abbrev filing_of : HostEvent → Option HerdrTarget → Time → Filing
filing_of e none now = record {
  source = source_codex;
  session_id = "";
  pane_id = "";
  expires = now + week;
}
filing_of e (some t) now = record {
  source = source_herdr;
  session_id = t.session_id;
  pane_id = t.pane_id;
  expires = e.occurred_at + half_hour;
}

module _ {Body : Type 0} where
  abbrev pub is_herdr : Row Body → Bool
  is_herdr r = str_eq r.source source_herdr

  abbrev pub is_codex : Row Body → Bool
  is_codex r = str_eq r.source source_codex

  abbrev pub in_session : String → Row Body → Bool
  in_session session r = is_herdr r && str_eq r.session_id session

  abbrev pub has_id : String → Row Body → Bool
  has_id id r = str_eq r.event_id id

  -- ORDER BY created_at DESC
  abbrev pub newest_first : Row Body → Row Body → Bool
  newest_first a b = leb b.created_at a.created_at

  -- CASE source WHEN 'codex' THEN 0 ELSE 1 END, created_at DESC
  abbrev pub codex_first : Row Body → Row Body → Bool
  codex_first a b =
      if is_codex a
      then (if is_codex b then newest_first a b else true)
      else (if is_codex b then false else newest_first a b)

  -- INSERT OR IGNORE, on the primary key event_id
  abbrev pub insert_or_ignore : Row Body → List (Row Body) → List (Row Body)
  insert_or_ignore r rows = if any (has_id r.event_id) rows then rows else rows ++ r ∷ []

  -- The four deletions of enqueueEvent: the expired rows, then those beyond 50 in the session,
  -- beyond 200 of Herdr, and beyond 500 in all, Codex rows being the last to go.
  unfoldable pub enforce_limits : String → Time → List (Row Body) → List (Row Body)
  enforce_limits session now rows =
      let live = delete (λ r. leb r.expires_at now) rows in
      let by_session = delete_beyond (λ r. r.event_id) (in_session session) newest_first 50 live in
      let by_source = delete_beyond (λ r. r.event_id) is_herdr newest_first 200 by_session in
      delete_beyond (λ r. r.event_id) (λ _. true) codex_first 500 by_source

  -- Complete, Retry and Depth.
  unfoldable pub complete : Queue Body → String → Queue Body
  complete q id = record q { pending = delete (has_id id) q.pending }

  unfoldable pub retry : Queue Body → String → ℕ → Time → Queue Body
  retry q id attempts next = record q {
    pending =
        update (has_id id) (λ r. record r { attempts = attempts; next_attempt_at = next })
          q.pending;
  }

  unfoldable pub depth : Queue Body → ℕ
  depth q = length q.pending

  abbrev pub is_due : Time → String → Row Body → Bool
  is_due now backend r =
      leb r.next_attempt_at now
      && ltb now r.expires_at
      && (is_empty backend || str_eq r.backend backend)

  -- ORDER BY CASE WHEN source = ? THEN 1 ELSE 0 END, created_at
  abbrev pub other_source_first : String → Row Body → Row Body → Bool
  other_source_first last a b =
      if str_eq a.source last
      then (if str_eq b.source last then leb a.created_at b.created_at else false)
      else (if str_eq b.source last then true else leb a.created_at b.created_at)

  unfoldable pub note_source : Queue Body → Option (Row Body) → Queue Body
  note_source q none = q
  note_source q (some r) = record q { last_source = r.source }

  -- `next`: `none` is sql.ErrNoRows. The backend is given without its trailing slashes.
  unfoldable pub next : Queue Body → Time → String → Option (Row Body) × Queue Body
  unfolding note_source
  next q now backend =
      let live = delete (λ r. leb r.expires_at now) q.pending in
      let found =
        head? (order_by (other_source_first q.last_source) (select (is_due now backend) live)) in
      (found, note_source (record q { pending = live }) found)

  -- ConfigureBackend, after the endpoint was parsed and its trailing slashes removed.
  unfoldable pub configure_backend : Queue Body → String → Queue Body
  configure_backend q endpoint = record q {
    pending =
        update (λ r. is_empty r.backend)
          (λ r. record r { backend = backend_or q.endpoint endpoint }) q.pending;
    endpoint = some endpoint;
  }

  -- SetHerdrCaptureEnabled (herdr_capture.go): turning capture off disables every binding and drops
  -- the pending Herdr events and the observed panes.
  unfoldable pub set_herdr_capture_enabled : Queue Body → Bool → Queue Body
  set_herdr_capture_enabled q true = record q { capture = true }
  set_herdr_capture_enabled q false = record q {
    pending = delete is_herdr q.pending;
    bindings = map {A = Binding} (λ b. record b { enabled = false }) q.bindings;
    panes = [];
    capture = false;
  }

  -- ClearNotificationCapture
  unfoldable pub clear_notification_capture : Queue Body → Queue Body
  unfolding set_herdr_capture_enabled
  clear_notification_capture q = record (set_herdr_capture_enabled q false) { pending = [] }

-- json.Unmarshal of an event's body is a parameter; `none` is an error.
module _ (go : Encoding) {Body : Type 0} (unmarshal : Body → Option HostEvent) where
  file_event : Option HostEvent → Time → Filing
  file_event none now = record {
    source = source_codex;
    session_id = "";
    pane_id = "";
    expires = now + week;
  }
  file_event (some e) now =
      if str_eq (event_source e) source_herdr && is_valid go e
      then filing_of e e.target now
      else record { source = source_codex; session_id = ""; pane_id = ""; expires = now + week }

  unfoldable pub new_row : Queue Body → String → Body → Time → Row Body
  unfolding file_event
  new_row q id body now =
      let filing = file_event (unmarshal body) now in
      record {
        event_id = id;
        body = body;
        attempts = 0;
        next_attempt_at = now;
        created_at = now;
        expires_at = filing.expires;
        source = filing.source;
        session_id = filing.session_id;
        pane_id = filing.pane_id;
        backend = backend_or q.endpoint "";
      }

  -- enqueueEvent, and Enqueue, which runs it in a transaction of its own
  unfoldable pub enqueue : Queue Body → String → Body → Time → Queue Body
  unfolding new_row
  enqueue q id body now =
      let r = new_row q id body now in
      record q { pending = enforce_limits r.session_id now (insert_or_ignore r q.pending) }
