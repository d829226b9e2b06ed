-- ===== src/Herdr/Agent.antt =====
-- HerdrAgent of notifications/internal/agent/herdr_api.go, and the thread id of a Codex session.
use Prim.Native.Char.{code}
use nova_codex_bootstrap.Prelude.{
  ℕ, ◌+◌, String, len, Bool, true, not, ◌&&◌, ◌||◌, Option, none, some, leb, ◌==◌, str_eq,
  if◌then◌else◌,
}
use nova_codex_bootstrap.Protocol.Metadata.{Labels, HerdrMetadata, Encoding, normalized}

pub record AgentSession : Type 0 where
  pub agent : String
  pub kind : String
  pub value : String

pub record HerdrAgent : Type 0 where
  pub terminal_id : String
  pub pane_id : String
  pub agent : String
  pub status : String
  pub sequence : ℕ
  pub completion_sequence : Option ℕ
  pub completion_supported : Bool
  pub workspace_id : String
  pub title : String
  pub display_agent : String
  pub state_labels : Labels
  pub agent_session : Option AgentSession

-- HerdrAgent.Metadata
unfoldable pub metadata : Encoding → HerdrAgent → HerdrMetadata
metadata go a = normalized go (record {
  session_name = "";
  workspace_id = a.workspace_id;
  agent_status = a.status;
  agent = a.agent;
  title = a.title;
  display_agent = a.display_agent;
  state_labels = a.state_labels;
})

unfoldable pub is_hex : ℕ → Bool
is_hex c = (leb b'0' c && leb c b'9') || (leb b'a' c && leb c b'f') || (leb b'A' c && leb c b'F')

-- The loop over the characters, from an index: dashes at 8, 13, 18 and 23, hex digits elsewhere.
unfoldable pub uuid_chars : ℕ → String → Bool
unfolding is_hex
uuid_chars index String.[] = true
uuid_chars index (String.◌∷◌ c s) =
    (if index == 8 || index == 13 || index == 18 || index == 23
      then code c == b'-'
      else is_hex (code c))
    && uuid_chars (index + 1) s

abbrev session_thread : Option AgentSession → String
session_thread none = ""
session_thread (some s) =
    if not (str_eq s.agent "codex") || not (str_eq s.kind "id")
    then ""
    else if not (len s.value == 36)
    then ""
    else if uuid_chars 0 s.value
    then s.value
    else ""

-- HerdrAgent.CodexThreadID
unfoldable pub codex_thread_id : HerdrAgent → String
unfolding uuid_chars
codex_thread_id a = if not (str_eq a.agent "codex") then "" else session_thread a.agent_session
