-- ===== src/Ingress/Hook.antt =====
-- NormalizeHook of notifications/internal/agent/hook.go.
use nova_codex_bootstrap.Prelude.{
  ℕ, ◌+◌, String, Bool, not, ◌||◌, Option, none, some, leb, str_eq, is_empty, if◌then◌else◌,
}
use nova_codex_bootstrap.Protocol.Event.{Time, HookEvent, version, approval_required, turn_stopped}
use nova_codex_bootstrap.Herdr.Socket.{max_hook_input}

pub record CodexHookInput : Type 0 where
  pub session_id : String
  pub turn_id : String
  pub hook_event_name : String
  pub request_id : String
  pub tool_use_id : String

-- What the decoder gives on the input: the first value (`none` is an error), whether only the end
-- follows it, and how many bytes were read by then.
pub record Reading : Type 0 where
  pub source : Option CodexHookInput
  pub at_end : Bool
  pub bytes : ℕ

-- `event.EventType` for a hook's name; `none` is an unsupported event
abbrev pub event_type_of : String → Option String
event_type_of name =
    if str_eq name "PermissionRequest"
    then some approval_required
    else if str_eq name "Stop"
    then some turn_stopped
    else none

abbrev pub hook_event : Time → CodexHookInput → Option String → Option HookEvent
hook_event now source none = none
hook_event now source (some type) = some (record {
  protocol_version = version;
  event_type = type;
  thread_id = source.session_id;
  turn_id = source.turn_id;
  request_id = if is_empty source.request_id then source.tool_use_id else source.request_id;
  occurred_at = now;
})

unfoldable pub normalize_source : Reading → Time → Option CodexHookInput → Option HookEvent
normalize_source r now none = none
normalize_source r now (some source) =
    if not r.at_end
      || leb (max_hook_input + 1) r.bytes
      || is_empty source.session_id
      || is_empty source.turn_id
    then none
    else hook_event now source (event_type_of source.hook_event_name)

-- `none` is an error
unfoldable pub normalize_hook : Reading → Time → Option HookEvent
unfolding normalize_source
normalize_hook r now = normalize_source r now r.source
