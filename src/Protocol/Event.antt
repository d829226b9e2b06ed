-- ===== src/Protocol/Event.antt =====
-- notifications/internal/protocol/types.go: events and the validity of identifiers.
use Prim.Native.Char.{code}
use nova_codex_bootstrap.Prelude.{
  ℕ, String, len, Bool, false, not, ◌&&◌, ◌||◌, Option, none, some, leb, ◌==◌, str_eq, is_empty,
  if◌then◌else◌,
}
use nova_codex_bootstrap.Protocol.Metadata.{HerdrMetadata, Encoding, normalized}

-- An instant, in seconds since Go's zero time.
abbrev pub Time : Type 0
Time = ℕ

abbrev pub version : ℕ
version = 1

abbrev pub herdr_version : ℕ
herdr_version = 2

abbrev pub source_codex : String
source_codex = "codex"

abbrev pub source_herdr : String
source_herdr = "herdr"

abbrev pub approval_required : String
approval_required = "approval_required"

abbrev pub turn_stopped : String
turn_stopped = "turn_stopped"

abbrev pub attention_required : String
attention_required = "attention_required"

abbrev pub progress_updated : String
progress_updated = "progress_updated"

abbrev pub test_notification : String
test_notification = "test_notification"

pub record HookEvent : Type 0 where
  pub protocol_version : ℕ
  pub event_type : String
  pub thread_id : String
  pub turn_id : String
  pub request_id : String
  pub occurred_at : Time

pub record HerdrTarget : Type 0 where
  pub session_id : String
  pub pane_id : String
  pub codex_thread_id : String
  pub test_installation_id : String

pub record HostEvent : Type 0 where
  pub schema_version : ℕ
  pub event_type : String
  pub thread_id : String
  pub turn_id : String
  pub request_id : String
  pub occurred_at : Time
  pub source : String
  pub target : Option HerdrTarget
  pub herdr_metadata : Option HerdrMetadata

pub record HerdrDirtyEvent : Type 0 where
  pub type : String
  pub binding_key : String
  pub pane_id : String
  pub socket_path : String
  pub baseline : Bool

-- EventType.Valid
unfoldable pub is_codex_event : String → Bool
is_codex_event e = str_eq e approval_required || str_eq e turn_stopped

-- strings.ContainsAny(value, "\r\n\x00")
unfoldable pub contains_break : String → Bool
contains_break String.[] = false
contains_break (String.◌∷◌ c s) = (code c == 13 || code c == 10 || code c == 0) || contains_break s

unfoldable pub valid_id : String → Bool
unfolding contains_break
valid_id value = not (is_empty value) && leb (len value) 256 && not (contains_break value)

unfoldable pub event_source : HostEvent → String
event_source e = if is_empty e.source && e.schema_version == version then source_codex else e.source

module _ (go : Encoding) where
  -- HerdrMetadata.ValidFor
  unfoldable pub valid_for : HerdrMetadata → String → Bool
  valid_for m event =
      let attention = str_eq event attention_required in
      let progress = str_eq event progress_updated in
      if (attention && not (str_eq m.agent_status "blocked"))
        || (progress && not (str_eq m.agent_status "idle") && not (str_eq m.agent_status "done"))
        || (not attention && not progress)
      then false
      else if not (is_empty m.workspace_id) && not (valid_id m.workspace_id)
      then false
      else str_eq (go.marshal_metadata m) (go.marshal_metadata (normalized go m))

  -- the first test of HostEvent.Valid
  metadata_rejected : HostEvent → Option HerdrMetadata → Bool
  metadata_rejected e none = false
  metadata_rejected e (some m) =
      not (str_eq (event_source e) source_herdr) || not (valid_for m e.event_type)

  codex_valid : HostEvent → Option HerdrTarget → Bool
  codex_valid e (some t) = false
  codex_valid e none =
      (is_empty e.source || str_eq e.source source_codex)
      && is_codex_event e.event_type
      && valid_id e.thread_id
      && valid_id e.turn_id
      && (is_empty e.request_id || valid_id e.request_id)

  herdr_valid : HostEvent → Option HerdrTarget → Bool
  herdr_valid e none = false
  herdr_valid e (some t) =
      if not (e.schema_version == herdr_version)
        || not (str_eq e.source source_herdr)
        || not (is_empty e.thread_id)
        || not (is_empty e.turn_id)
        || not (is_empty e.request_id)
        || not (valid_id t.session_id)
      then false
      else if str_eq e.event_type test_notification
      then is_empty t.pane_id && is_empty t.codex_thread_id && valid_id t.test_installation_id
      else valid_id t.pane_id
        && is_empty t.test_installation_id
        && (is_empty t.codex_thread_id || valid_id t.codex_thread_id)
        && (str_eq e.event_type attention_required || str_eq e.event_type progress_updated)

  -- HostEvent.Valid
  unfoldable pub is_valid : HostEvent → Bool
  unfolding event_source valid_for valid_id is_codex_event metadata_rejected codex_valid herdr_valid
  is_valid e =
      if e.occurred_at == 0 || metadata_rejected e e.herdr_metadata
      then false
      else if e.schema_version == version
      then codex_valid e e.target
      else herdr_valid e e.target
