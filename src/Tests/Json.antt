-- ===== src/Tests/Json.antt =====
-- An encoder of metadata as encoding/json documents it, with its sizes.
use Prim.Native.Char.{Char, code, len_utf8}
use Prim.Native.String.{◌++◌}
use Prim.Native.String.len
use text.Mathlib.TextPositions.{len-append, len_utf8-pos}
use text.Mathlib.TextLemmas.{cons-append, nil-append}
use nova_codex_bootstrap.Prelude.{
  ℕ, ◌+◌, ◌*◌, ◌≤◌, ◌≡◌, refl, String, len, Bool, true, ◌&&◌, ◌||◌, List, [], ◌∷◌, leb, ap, ltb,
  ◌==◌, is_empty, if◌then◌else◌, arith, inl, inr, Bool-cases,
}
use nova_codex_bootstrap.Protocol.Metadata.{
  Labels, HerdrMetadata, Encoding, label, name_chars, valid_herdr_session_name,
}
use nova_codex_bootstrap.Protocol.Metadata.Budget.{IsBare, IsJson}

-- The characters that are escaped: controls, and quotes, & < >, the backslash and two separators.
abbrev Escapes : Type 0
Escapes = List (ℕ × String)

abbrev controls : Escapes
controls =
    (0, "\\u0000")
    ∷ (1, "\\u0001")
    ∷ (2, "\\u0002")
    ∷ (3, "\\u0003")
    ∷ (4, "\\u0004")
    ∷ (5, "\\u0005")
    ∷ (6, "\\u0006")
    ∷ (7, "\\u0007")
    ∷ (8, "\\b")
    ∷ (9, "\\t")
    ∷ (10, "\\n")
    ∷ (11, "\\u000b")
    ∷ (12, "\\f")
    ∷ (13, "\\r")
    ∷ (14, "\\u000e")
    ∷ (15, "\\u000f")
    ∷ (16, "\\u0010")
    ∷ (17, "\\u0011")
    ∷ (18, "\\u0012")
    ∷ (19, "\\u0013")
    ∷ (20, "\\u0014")
    ∷ (21, "\\u0015")
    ∷ (22, "\\u0016")
    ∷ (23, "\\u0017")
    ∷ (24, "\\u0018")
    ∷ (25, "\\u0019")
    ∷ (26, "\\u001a")
    ∷ (27, "\\u001b")
    ∷ (28, "\\u001c")
    ∷ (29, "\\u001d")
    ∷ (30, "\\u001e")
    ∷ (31, "\\u001f")
    ∷ []

abbrev others : Escapes
others =
    (34, "\\\"")
    ∷ (38, "\\u0026")
    ∷ (60, "\\u003c")
    ∷ (62, "\\u003e")
    ∷ (92, "\\\\")
    ∷ (8232, "\\u2028")
    ∷ (8233, "\\u2029")
    ∷ []

pick : ℕ → Escapes → String → String
pick n [] plain = plain
pick n ((k, s) ∷ es) plain = let rest = pick n es plain in if n == k then s else rest

escape : Char → String
unfolding pick
escape c =
    let n = code c in if ltb n 32 then pick n controls "" else pick n others (String.◌∷◌ c "")

json_chars : String → String
json_chars String.[] = ""
json_chars (String.◌∷◌ c s) = escape c ++ json_chars s

pub json_text : String → String
json_text s = "\"" ++ (json_chars s ++ "\"")

-- A member in front of the status, and one behind it; an empty one is left out.
before_status : String → String → String
before_status key v = if is_empty v then "" else key ++ (json_text v ++ ",")

behind_status : String → String → String
behind_status key v = if is_empty v then "" else key ++ json_text v

-- The labels of the known statuses, sorted by key.
json_labels : Labels → String
json_labels [] = ""
json_labels (l ∷ ls) =
    let member = λ (key : String). behind_status (",\"" ++ (key ++ "\":")) (label key (l ∷ ls)) in
    let all =
      member "blocked"
      ++ (member "done" ++ (member "idle" ++ (member "unknown" ++ member "working"))) in
    if is_empty all then "" else ",\"stateLabels\":{" ++ (without_comma all ++ "}")
  where
    without_comma : String → String
    without_comma String.[] = ""
    without_comma (String.◌∷◌ c s) = s

pub json_metadata : HerdrMetadata → String
json_metadata m =
    "{"
    ++ (before_status "\"sessionName\":" m.session_name
        ++ (before_status "\"workspaceId\":" m.workspace_id
            ++ ("\"agentStatus\":"
                ++ (json_text m.agent_status
                    ++ (behind_status ",\"agent\":" m.agent
                        ++ (behind_status ",\"title\":" m.title
                            ++ (behind_status ",\"displayAgent\":" m.display_agent
                                ++ (json_labels m.state_labels ++ "}"))))))))

abbrev pub json : Encoding
json = record {
  is_format = λ c. c == 173 || c == 8203;
  marshal_metadata = json_metadata;
  marshal_text = json_text;
}

abbrev all_short : Escapes → Bool
all_short [] = true
all_short ((k, s) ∷ es) = leb (len s) 6 && all_short es

pick-le :
    (n m : ℕ) (es : Escapes) (plain : String)
    → all_short es ≡ true
    → len plain ≤ m
    → 6 ≤ m
    → len (pick n es plain) ≤ m
unfolding pick
pick-le n m [] plain h p s = p
pick-le n m ((k, e) ∷ es) plain h p s = elim (Bool-cases (n == k)) [
  | inl same ↦ rw same (ground (arith, h))
  | inr other ↦ rw other (pick-le n m es plain (ground (arith, h)) p s)
]

escape-le : (c : Char) → len (escape c) ≤ 6 * len_utf8 c
unfolding escape
escape-le c =
    let w = len_utf8-pos c in
    elim (Bool-cases (ltb (code c) 32)) [
      | inl low ↦ rw low (
          pick-le (code c) (6 * len_utf8 c) controls "" refl (omega (arith, len.nil))
            (omega (arith, w.1)))
      | inr high ↦ rw high (
          pick-le (code c) (6 * len_utf8 c) others (String.◌∷◌ c "") refl
            (omega (arith, len.cons c "", len.nil)) (omega (arith, w.1)))
    ]

json_chars-le : (s : String) → len (json_chars s) ≤ 6 * len s
unfolding json_chars
json_chars-le String.[] = omega (arith, len.nil)
json_chars-le (String.◌∷◌ c s) =
    omega (arith, len-append (escape c) (json_chars s), escape-le c, json_chars-le s, len.cons c s)

json_text-le : (s : String) → len (json_text s) ≤ 2 + len (json_chars s)
unfolding json_text
json_text-le s =
    omega (arith, len-append "\"" (json_chars s ++ "\""), len-append (json_chars s) "\"")

-- The characters of a session name are not escaped.
escape-name :
    (c : Char) (s : String) → name_chars (String.◌∷◌ c s) ≡ true → escape c ≡ String.◌∷◌ c ""
unfolding escape name_chars pick
escape-name c s h = ground (arith, h)

json_chars-name : (s : String) → name_chars s ≡ true → json_chars s ≡ s
unfolding json_chars name_chars
json_chars-name String.[] h = refl
json_chars-name (String.◌∷◌ c s) h =
    rw (escape-name c s h, cons-append, nil-append)
      (ap (String.◌∷◌ c) (json_chars-name s (ground (arith, h))))

before_status-le : (key v : String) → len (before_status key v) ≤ len key + (len (json_text v) + 1)
unfolding before_status
before_status-le key v = elim (Bool-cases (is_empty v)) [
  | inl e ↦ rw e (omega (arith, len.nil))
  | inr e ↦ rw e (omega (arith, len-append key (json_text v ++ ","), len-append (json_text v) ","))
]

valid-name_chars : (s : String) → valid_herdr_session_name s ≡ true → name_chars s ≡ true
unfolding valid_herdr_session_name
valid-name_chars s h = ground (arith, h)

bare_metadata :
    (m : HerdrMetadata)
    → IsBare json m
    → json_metadata m
      ≡ "{"
        ++ (before_status "\"sessionName\":" m.session_name
            ++ (before_status "\"workspaceId\":" m.workspace_id
                ++ ("\"agentStatus\":" ++ (json_text m.agent_status ++ "}"))))
unfolding json_metadata behind_status json_labels
bare_metadata m h = rw (h.agent, h.title, h.display_agent, h.labels) (rw (nil-append) refl)

pub json-IsJson : IsJson json
json-IsJson = record {
  text = λ s. omega (arith, json_text-le s, json_chars-le s);
  name = λ s valid. rw (json_chars-name s (valid-name_chars s valid)) at (json_text-le s);
  bare = λ m h. rw (bare_metadata m h) (
      let workspace = before_status "\"workspaceId\":" m.workspace_id in
      let rest = "\"agentStatus\":" ++ (json_text m.agent_status ++ "}") in
      let all = before_status "\"sessionName\":" m.session_name ++ (workspace ++ rest) in
      omega (
        arith,
        len-append "{" all,
        len-append (before_status "\"sessionName\":" m.session_name) (workspace ++ rest),
        len-append workspace rest,
        len-append "\"agentStatus\":" (json_text m.agent_status ++ "}"),
        len-append (json_text m.agent_status) "}",
        before_status-le "\"sessionName\":" m.session_name,
        before_status-le "\"workspaceId\":" m.workspace_id,
      ));
}
