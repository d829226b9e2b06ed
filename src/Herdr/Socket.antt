-- ===== src/Herdr/Socket.antt =====
-- Herdr's sockets: ResolveHerdrSocket and NormalizeHerdrHook of
-- notifications/internal/agent/herdr_api.go, and herdrBindingSessionName of herdr_bindings.go.
use nova_codex_bootstrap.Prelude.{
  ℕ, ◌*◌, String, len, Bool, true, false, not, ◌||◌, List, [], ◌∷◌, Option, none, some, ltb, str_eq,
  is_empty, if◌then◌else◌,
}
use nova_codex_bootstrap.Protocol.Metadata.{valid_herdr_session_name}
use nova_codex_bootstrap.Protocol.Event.{HerdrDirtyEvent, contains_break, valid_id}

-- Functions of path/filepath, and the two digests: Clean, IsAbs, Dir, Join, Rel (`none` is an error),
-- and the SHA-256 of a text in hexadecimal.
pub record FileLib : Type 0 where
  pub clean : String → String
  pub is_abs : String → Bool
  pub dir : String → String
  pub join : List String → String
  pub rel : String → String → Option String
  pub sha256_hex : String → String

-- The environment: XDG_CONFIG_HOME, and the home directory (`none` is an error).
pub record Home : Type 0 where
  pub xdg_config_home : String
  pub home_dir : Option String

-- json.Unmarshal of a status event's envelope; `none` is an error.
pub record StatusEnvelope : Type 0 where
  pub event : String
  pub type : String
  pub pane_id : String
  pub status : String

abbrev pub max_hook_input : ℕ
max_hook_input = 64 * 1024

-- strings.Split(text, "/"): the first part, and the others
split_slashes : String → String × List String
split_slashes String.[] = (String.[], [])
split_slashes (String.◌∷◌ c s) =
    let (first, rest) = split_slashes s in
    if str_eq (String.◌∷◌ c String.[]) "/"
    then (String.[], first ∷ rest)
    else (String.◌∷◌ c first, rest)

unfoldable pub valid_herdr_status : String → Bool
valid_herdr_status s =
    str_eq s "working"
    || str_eq s "blocked"
    || str_eq s "idle"
    || str_eq s "done"
    || str_eq s "unknown"

-- HerdrBindingKey
unfoldable pub herdr_binding_key : FileLib → String → String
herdr_binding_key lib socket = lib.sha256_hex (lib.clean socket)

module _ (lib : FileLib) (home : Home) where
  in_base : String → String → String
  in_base base session =
      if is_empty session
      then lib.join (base ∷ "herdr" ∷ "herdr.sock" ∷ [])
      else lib.join (base ∷ "herdr" ∷ "sessions" ∷ session ∷ "herdr.sock" ∷ [])

  config_base : Option String
  config_base =
      if not (is_empty home.xdg_config_home)
      then some home.xdg_config_home
      else elim home.home_dir [ none ↦ none | some dir ↦ some (lib.join (dir ∷ ".config" ∷ [])) ]

  resolve_session : String → Option String
  unfolding in_base config_base
  resolve_session session = elim config_base [
    | none ↦ none
    | some base ↦ some (in_base base session)
  ]

  -- ResolveHerdrSocket; `none` is an error. The tests on a session's name are those of
  -- ValidHerdrSessionName for a name that is not empty.
  unfoldable pub resolve_herdr_socket : String → String → Option String
  unfolding resolve_session
  resolve_herdr_socket session explicit =
      if not (is_empty explicit)
      then (if not (lib.is_abs explicit) || ltb 4096 (len explicit) || contains_break explicit
          then none
          else some (lib.clean explicit))
      else if is_empty session || str_eq session "default"
      then resolve_session ""
      else if valid_herdr_session_name session
      then resolve_session session
      else none

  canonical_or_empty : String → String → Option String → String
  canonical_or_empty socket name none = ""
  canonical_or_empty socket name (some canonical) =
      if str_eq canonical (lib.clean socket) then name else ""

  from_parts : String → String × List String → String
  unfolding canonical_or_empty
  from_parts socket (name, last ∷ []) =
      if not (str_eq last "herdr.sock") || not (valid_herdr_session_name name)
      then ""
      else canonical_or_empty socket name (resolve_herdr_socket name "")
  from_parts socket _ = ""

  from_relative : String → Option String → String
  unfolding split_slashes from_parts
  from_relative socket none = ""
  from_relative socket (some relative) = from_parts socket (split_slashes relative)

  from_default : String → Option String → String
  unfolding from_relative
  from_default socket none = ""
  from_default socket (some default_socket) =
      if str_eq (lib.clean socket) default_socket
      then "default"
      else from_relative socket
          (lib.rel (lib.join (lib.dir default_socket ∷ "sessions" ∷ [])) (lib.clean socket))

  -- herdrBindingSessionName; "" for a socket outside the managed layout
  unfoldable pub herdr_binding_session_name : String → String
  unfolding from_default
  herdr_binding_session_name socket = from_default socket (resolve_herdr_socket "default" "")

  status_event : String → Option StatusEnvelope → Option HerdrDirtyEvent
  status_event socket none = none
  status_event socket (some e) =
      if not (str_eq e.event "pane_agent_status_changed")
        || not (str_eq e.type "pane_agent_status_changed")
        || not (valid_id e.pane_id)
        || not (valid_herdr_status e.status)
        || not (lib.is_abs socket)
      then none
      else some (record {
        type = "herdr-dirty";
        binding_key = herdr_binding_key lib socket;
        pane_id = e.pane_id;
        socket_path = socket;
        baseline = false;
      })

  -- NormalizeHerdrHook; `none` is an error
  unfoldable pub normalize_herdr_hook :
      (String → Option StatusEnvelope) → String → String → String → Option HerdrDirtyEvent
  unfolding status_event
  normalize_herdr_hook unmarshal trigger payload socket_path =
      let socket = lib.clean socket_path in
      if ltb max_hook_input (len payload)
        || ltb 4096 (len socket_path)
        || not (lib.is_abs socket_path)
        || contains_break socket_path
      then none
      else if str_eq trigger "startup"
      then some (record {
        type = "herdr-dirty";
        binding_key = herdr_binding_key lib socket;
        pane_id = "";
        socket_path = socket;
        baseline = true;
      })
      else if not (str_eq trigger "pane.agent_status_changed")
      then none
      else status_event socket (unmarshal payload)
