-- ===== src/Protocol/Metadata.antt =====
-- `HerdrMetadata` of notifications/internal/protocol/herdr_metadata.go: normalization within a
-- byte budget, session names, validity against an event type, and the notification text.
pub mod Budget
use Prim.Native.Char.{code}
use Prim.Native.String.{[] as end, ◌∷◌ as char_then}
use mathlib.Core.Option.{get_or}
use nova_codex_bootstrap.Prelude.{
  ℕ, zero, suc, ◌+◌, ◌≤◌, ◌/◌, String, len, Bool, true, false, not, ◌&&◌, ◌||◌, List, [], ◌∷◌, map,
  select, Option, none, some, ltb, leb, ◌==◌, str_eq, is_empty, if◌then◌else◌,
}
use nova_codex_bootstrap.Protocol.Text.{display_text, join}

abbrev pub Labels : Type 0
Labels = List (String × String)

pub record HerdrMetadata : Type 0 where
  pub session_name : String
  pub workspace_id : String
  pub agent_status : String
  pub agent : String
  pub title : String
  pub display_agent : String
  pub state_labels : Labels

-- What the normalization takes from Go's libraries: the table `unicode.Cf`, and `json.Marshal` of a
-- metadata record and of a string.
pub record Encoding : Type 0 where
  pub is_format : ℕ → Bool
  pub marshal_metadata : HerdrMetadata → String
  pub marshal_text : String → String

-- m[key] on a map, with "" for a missing key
unfoldable pub label : String → Labels → String
label key [] = ""
label key ((k, v) ∷ ls) = if str_eq k key then v else label key ls

-- the loop over the characters of a name
unfoldable pub name_chars : String → Bool
name_chars String.[] = true
name_chars (String.◌∷◌ c s) =
    let ch = code c in
    ((leb b'a' ch && leb ch b'z')
      || (leb b'A' ch && leb ch b'Z')
      || (leb b'0' ch && leb ch b'9')
      || ch == b'-'
      || ch == b'_'
      || ch == b'.')
    && name_chars s

unfoldable pub valid_herdr_session_name : String → Bool
unfolding name_chars
valid_herdr_session_name name =
    if is_empty name || ltb 64 (len name) || str_eq name "." || str_eq name ".."
    then false
    else name_chars name

abbrev pub herdr_statuses : List String
herdr_statuses = "working" ∷ "blocked" ∷ "idle" ∷ "done" ∷ "unknown" ∷ []

module _ (go : Encoding) where
  abbrev shown : String → ℕ → String
  shown = display_text go.is_format

  -- the labels of the known statuses, those that show something
  known_labels : Labels → List String → Labels
  known_labels labels [] = []
  known_labels labels (key ∷ keys) =
      let value = shown (label key labels) 96 in
      let rest = known_labels labels keys in if is_empty value then rest else (key, value) ∷ rest

  -- the assignments before the loop
  pub trimmed : HerdrMetadata → HerdrMetadata
  unfolding valid_herdr_session_name
  trimmed m = record {
    session_name = if valid_herdr_session_name m.session_name then m.session_name else "";
    workspace_id = shown m.workspace_id 256;
    agent_status = shown m.agent_status 32;
    agent = shown m.agent 64;
    title = shown m.title 256;
    display_agent = shown m.display_agent 64;
    state_labels = known_labels m.state_labels herdr_statuses;
  }

  -- half of each label, dropped where nothing is left
  shorter_labels : Labels → Labels
  shorter_labels [] = []
  shorter_labels ((k, v) ∷ ls) =
      let shorter = shown v (len v / 2) in
      let rest = shorter_labels ls in if is_empty shorter then rest else (k, shorter) ∷ rest

  -- one round of the loop, after its test failed
  shrink : HerdrMetadata → HerdrMetadata
  shrink m = record m {
    workspace_id = if ltb 600 (len (go.marshal_text m.workspace_id)) then "" else m.workspace_id;
    agent = shown m.agent (len m.agent / 2);
    display_agent = shown m.display_agent (len m.display_agent / 2);
    title = shown m.title (len m.title / 2);
    state_labels = shorter_labels m.state_labels;
  }

  -- the loop; `none` if the rounds run out
  pub shrink_until_fits : ℕ → HerdrMetadata → Option HerdrMetadata
  shrink_until_fits zero m = none
  shrink_until_fits (suc rounds) m =
      let rest = shrink_until_fits rounds (shrink m) in
      if leb (len (go.marshal_metadata m)) 1200 then some m else rest

  -- ten rounds are enough for fields of at most 256 bytes
  unfoldable pub normalized : HerdrMetadata → HerdrMetadata
  unfolding trimmed shrink_until_fits shrink known_labels shorter_labels label name_chars
  normalized m = get_or (shrink_until_fits 10 (trimmed m)) (trimmed m)

  -- the parts of the notification text that are not empty, joined by a middle dot
  unfoldable pub body : HerdrMetadata → String
  body m =
      let agent = if is_empty m.display_agent then m.agent else m.display_agent in
      let parts = agent ∷ m.title ∷ label m.agent_status m.state_labels ∷ [] in
      shown (join " · " (select (λ value. not (is_empty value)) parts)) 400
