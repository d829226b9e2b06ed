-- ===== src/Protocol/Text/Bounds.antt =====
-- The length of presentation text, for notifications/internal/protocol/herdr_metadata.go.
use Prim.Native.Char.{code}
use Prim.Native.String.{[], ◌∷◌, ◌++◌}
use Prim.Native.String.len
use Prim.Native.Nat.{zero-le}
use text.Mathlib.TextPositions.{len-append, len_utf8-pos}
use nova_codex_bootstrap.Prelude.{
  ℕ, ◌≤◌, ◌≡◌, refl, String, len, Bool, arith, is_empty, ◌&&◌, inl, inr, Bool-cases,
}
use nova_codex_bootstrap.Protocol.Text.{
  fields, join, is_space, trim_left, trim_right, trim_space, write_runes, display_text,
}

pub len-eq-zero : (s : String) → len s ≤ 0 → s ≡ ""
len-eq-zero [] h = refl
len-eq-zero (c ∷ s) h = let w = len_utf8-pos c in absurd (omega (arith, len.cons c s, w.1))

trim_left-le : (s : String) → len (trim_left s) ≤ len s
unfolding trim_left
trim_left-le [] = omega arith
trim_left-le (c ∷ s) = ground (arith, trim_left-le s, len.cons c s)

trim_right-le : (s : String) → len (trim_right s) ≤ len s
unfolding trim_right
trim_right-le [] = omega arith
trim_right-le (c ∷ s) = elim (Bool-cases (is_empty (trim_right s) && is_space (code c))) [
  | inl blank ↦ rw blank zero-le
  | inr shown ↦ rw shown (omega (arith, trim_right-le s, len.cons c s, len.cons c (trim_right s)))
]

pub trim_space-le : (s : String) → len (trim_space s) ≤ len s
unfolding trim_space
trim_space-le s = omega (arith, trim_right-le (trim_left s), trim_left-le s)

module _ (is_format : ℕ → Bool) where
  write_runes-le :
      (limit : ℕ) (out s : String)
      → len out ≤ limit
      → len (write_runes is_format limit out s) ≤ limit
  unfolding write_runes
  write_runes-le limit out [] h = h
  write_runes-le limit out (c ∷ s) h = ground (
    arith,
    write_runes-le limit out s,
    write_runes-le limit (out ++ c ∷ []) s,
    len-append out (c ∷ []),
    len.cons c [],
    len.nil,
  )

  -- The text that DisplayText shows takes at most the bytes it is given.
  pub display_text-le :
      (value : String) (limit : ℕ) → len (display_text is_format value limit) ≤ limit
  unfolding display_text
  display_text-le value limit =
      let written = write_runes is_format limit "" (join " " (fields value)) in
      omega
        (arith, trim_space-le written, write_runes-le limit "" (join " " (fields value)) zero-le)
