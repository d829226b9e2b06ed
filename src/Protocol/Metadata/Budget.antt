-- ===== src/Protocol/Metadata/Budget.antt =====
-- The byte budget of `Normalized` in notifications/internal/protocol/herdr_metadata.go.
use Prim.Native.String.len
use mathlib.Core.Option.{get_or}
use native.Mathlib.Nat.{pow-suc}
use nova_codex_bootstrap.Prelude.{
  ℕ, zero, suc, ◌+◌, ◌*◌, ◌≤◌, ◌/◌, ◌⊎◌, ◌≡◌, refl, String, len, true, false, List, [], ◌∷◌, Option,
  none, some, ltb, leb, is_empty, arith, inl, inr, Bool-cases, eq_iff, leb→le, ◌^◌, ◌<◌,
}
use nova_codex_bootstrap.Protocol.Text.{display_text}
use nova_codex_bootstrap.Protocol.Text.Bounds.{len-eq-zero, display_text-le}
use nova_codex_bootstrap.Protocol.Metadata.{
  Labels, HerdrMetadata, Encoding, known_labels, trimmed, shorter_labels, shrink, shrink_until_fits,
  label, normalized, valid_herdr_session_name, herdr_statuses,
}

-- Every label shows something and takes at most `k` bytes.
abbrev LabelsWithin : ℕ → Labels → Type 0
LabelsWithin k [] = Unit
LabelsWithin k ((key, v) ∷ ls) = (len v ≤ k) × (is_empty v ≡ false) × LabelsWithin k ls

-- A session name that is valid, or left out.
abbrev pub NamesSession : String → Type 0
NamesSession name = (valid_herdr_session_name name ≡ true) ⊎ (name ≡ "")

-- The fields that the loop halves take at most `k` bytes each.
record IsWithin (k : ℕ) (m : HerdrMetadata) : Type 0 where
  agent : len m.agent ≤ k
  display_agent : len m.display_agent ≤ k
  title : len m.title ≤ k
  labels : LabelsWithin k m.state_labels
  status : len m.agent_status ≤ 32
  session : NamesSession m.session_name

-- Only the routing identity and the status are left.
pub record IsBare (go : Encoding) (m : HerdrMetadata) : Type 0 where
  pub agent : m.agent ≡ ""
  pub display_agent : m.display_agent ≡ ""
  pub title : m.title ≡ ""
  pub labels : m.state_labels ≡ []
  pub workspace : len (go.marshal_text m.workspace_id) ≤ 600
  pub status : len m.agent_status ≤ 32
  pub session : NamesSession m.session_name

-- What encoding/json documents of sizes. A string stands between two double quotes, and each byte of it
-- takes at most six, as \u003c for `<` does. Letters, digits, `-`, `_` and `.` stand for themselves.
-- A record with nothing but the session, the workspace and the status is their encodings with 46 bytes
-- of braces, commas and keys at most, since a field that is empty may be left out.
pub record IsJson (go : Encoding) : Type 0 where
  pub text : (s : String) → len (go.marshal_text s) ≤ 2 + 6 * len s
  pub name : (s : String) → valid_herdr_session_name s ≡ true → len (go.marshal_text s) ≤ 2 + len s
  pub bare :
      (m : HerdrMetadata)
      → IsBare go m
      → len (go.marshal_metadata m)
        ≤ 46
          + (len (go.marshal_text m.session_name)
              + (len (go.marshal_text m.workspace_id) + len (go.marshal_text m.agent_status)))

no_labels : (k : ℕ) (ls : Labels) → k ≤ 0 → LabelsWithin k ls → ls ≡ []
no_labels k [] z h = refl
no_labels k ((key, v) ∷ ls) z h = ground (arith, eq_iff v "", len-eq-zero v (omega arith))

session-le : (name : String) → valid_herdr_session_name name ≡ true → len name ≤ 64
unfolding valid_herdr_session_name
session-le name h = ground arith

module _ (go : Encoding) where
  known_labels-within :
      (ls : Labels) (keys : List String) → LabelsWithin 96 (known_labels go ls keys)
  unfolding known_labels
  known_labels-within ls [] = tt
  known_labels-within ls (key ∷ keys) =
      elim (Bool-cases (is_empty (display_text go.is_format (label key ls) 96))) [
        | inl e ↦ rw e (known_labels-within ls keys)
        | inr e ↦
            rw e (display_text-le go.is_format (label key ls) 96, e, known_labels-within ls keys)
      ]

  LabelsWithin-mono : (k : ℕ) (ls : Labels) → LabelsWithin 96 ls → LabelsWithin (96 + k) ls
  LabelsWithin-mono k [] h = tt
  LabelsWithin-mono k ((key, v) ∷ ls) h = (omega arith, h.1, LabelsWithin-mono k ls h.2)

  trimmed-IsWithin : (m : HerdrMetadata) → IsWithin 256 (trimmed go m)
  unfolding trimmed
  trimmed-IsWithin m = record {
    agent = omega (arith, display_text-le go.is_format m.agent 64);
    display_agent = omega (arith, display_text-le go.is_format m.display_agent 64);
    title = display_text-le go.is_format m.title 256;
    labels = LabelsWithin-mono 160 _ (known_labels-within m.state_labels herdr_statuses);
    status = display_text-le go.is_format m.agent_status 32;
    session = elim (Bool-cases (valid_herdr_session_name m.session_name)) [
      | inl e ↦ rw e (inl e)
      | inr e ↦ rw e (inr refl)
    ];
  }

  shorter_labels-within :
      (k : ℕ) (ls : Labels) → LabelsWithin k ls → LabelsWithin (k / 2) (shorter_labels go ls)
  unfolding shorter_labels
  shorter_labels-within k [] h = tt
  shorter_labels-within k ((key, v) ∷ ls) h =
      elim (Bool-cases (is_empty (display_text go.is_format v (len v / 2)))) [
        | inl e ↦ rw e (shorter_labels-within k ls h.2)
        | inr e ↦ rw e (
          omega (arith, display_text-le go.is_format v (len v / 2)),
          e,
          shorter_labels-within k ls h.2,
        )
      ]

  shrink-IsWithin : (k : ℕ) (m : HerdrMetadata) → IsWithin k m → IsWithin (k / 2) (shrink go m)
  unfolding shrink
  shrink-IsWithin k m h = record {
    agent = omega (arith, display_text-le go.is_format m.agent (len m.agent / 2));
    display_agent =
        omega (arith, display_text-le go.is_format m.display_agent (len m.display_agent / 2));
    title = omega (arith, display_text-le go.is_format m.title (len m.title / 2));
    labels = shorter_labels-within k m.state_labels h.labels;
    status = h.status;
    session = h.session;
  }

  normalized_lem :
      (m : HerdrMetadata)
      → normalized go m ≡ get_or (shrink_until_fits go 10 (trimmed go m)) (trimmed go m)
  unfolding normalized
  normalized_lem m = refl

  module _ (json : IsJson go) where
    empty_text : len (go.marshal_text "") ≤ 2
    empty_text = omega (arith, json.text "", len.nil)

    session-size : (name : String) → NamesSession name → len (go.marshal_text name) ≤ 66
    session-size name (inl valid) = omega (arith, json.name name valid, session-le name valid)
    session-size name (inr none_given) = rw none_given (omega (arith, empty_text))

    -- At most 46 + 66 + 600 + 194 bytes.
    bare_fits : (m : HerdrMetadata) → IsBare go m → len (go.marshal_metadata m) ≤ 1200
    bare_fits m h = omega (
      arith,
      json.bare m h,
      session-size m.session_name h.session,
      h.workspace,
      json.text m.agent_status,
      h.status,
    )

    shrink-workspace : (m : HerdrMetadata) → len (go.marshal_text (shrink go m).workspace_id) ≤ 600
    unfolding shrink
    shrink-workspace m = elim (Bool-cases (ltb 600 (len (go.marshal_text m.workspace_id)))) [
      | inl e ↦ rw e (omega (arith, empty_text))
      | inr e ↦ rw e (ground arith)
    ]

    abbrev Fits : Option HerdrMetadata → Type 0
    Fits none = ⊥
    Fits (some m) = len (go.marshal_metadata m) ≤ 1200

    IsWithin-IsBare :
        (k : ℕ) (m : HerdrMetadata)
        → k ≤ 0
        → IsWithin k m
        → len (go.marshal_text m.workspace_id) ≤ 600
        → IsBare go m
    IsWithin-IsBare k m z h w = record {
      agent = len-eq-zero m.agent (omega arith);
      display_agent = len-eq-zero m.display_agent (omega arith);
      title = len-eq-zero m.title (omega arith);
      labels = no_labels k m.state_labels z h.labels;
      workspace = w;
      status = h.status;
      session = h.session;
    }

    loop-Fits :
        (f k : ℕ) (m : HerdrMetadata)
        → IsWithin k m
        → k < 2 ^ f
        → len (go.marshal_text m.workspace_id) ≤ 600
        → Fits (shrink_until_fits go (suc f) m)
    unfolding shrink_until_fits
    loop-Fits zero k m h room w =
        ground (arith, bare_fits m (IsWithin-IsBare k m (omega arith) h w))
    loop-Fits (suc f) k m h room w = elim (Bool-cases (leb (len (go.marshal_metadata m)) 1200)) [
      | inl e ↦ rw e (leb→le _ _ e)
      | inr e ↦ rw e (
          loop-Fits f (k / 2) (shrink go m) (shrink-IsWithin k m h) (omega (arith, pow-suc 2 f))
            (shrink-workspace m))
    ]

    -- The first test comes before the workspace has been looked at.
    first-Fits :
        (f : ℕ) (m : HerdrMetadata)
        → IsWithin 256 m
        → 128 < 2 ^ f
        → Fits (shrink_until_fits go (suc (suc f)) m)
    unfolding shrink_until_fits
    first-Fits f m h room = elim (Bool-cases (leb (len (go.marshal_metadata m)) 1200)) [
      | inl e ↦ rw e (leb→le _ _ e)
      | inr e ↦
          rw e (loop-Fits f 128 (shrink go m) (shrink-IsWithin 256 m h) room (shrink-workspace m))
    ]

    outcome :
        (o : Option HerdrMetadata) (d : HerdrMetadata)
        → Fits o
        → (o ≡ some (get_or o d)) × (len (go.marshal_metadata (get_or o d)) ≤ 1200)
    outcome none d h = absurd h
    outcome (some r) d h = (refl, h)

    -- The loop of Normalized ends within ten rounds, and its result takes at most 1200 bytes of
    -- JSON, provided that a JSON string takes at most six bytes for each byte and two more, a
    -- valid session name no more than its own bytes and two, and a record with session, workspace
    -- and status alone at most 46 bytes more than the three of them.
    pub normalized_fits :
        (m : HerdrMetadata)
        → (shrink_until_fits go 10 (trimmed go m) ≡ some (normalized go m))
          × (len (go.marshal_metadata (normalized go m)) ≤ 1200)
    normalized_fits m = rw (normalized_lem m) (
        outcome (shrink_until_fits go 10 (trimmed go m)) (trimmed go m)
          (first-Fits 8 (trimmed go m) (trimmed-IsWithin m) (omega arith)))
