-- ===== src/Protocol/Text.antt =====
-- `DisplayText` of notifications/internal/protocol/herdr_metadata.go, and the functions of Go's
-- strings and unicode packages that it calls. A Go string holds valid UTF-8, as a `String`.
pub mod Bounds
use Prim.Native.Char.{code, len_utf8}
use Prim.Native.String.{[], ◌∷◌, ◌++◌}
use mathlib.Core.List
use nova_codex_bootstrap.Prelude.{
  ℕ, zero, suc, ◌+◌, ◌≤◌, String, len, Bool, true, false, not, ◌&&◌, ◌||◌, List, ltb, leb, ◌==◌,
  is_empty, if◌then◌else◌,
}

-- unicode.IsSpace
unfoldable pub is_space : ℕ → Bool
is_space c =
    (leb 9 c && leb c 13)
    || c == 32
    || c == 0x85
    || c == 0xA0
    || c == 0x1680
    || (leb 0x2000 c && leb c 0x200A)
    || c == 0x2028
    || c == 0x2029
    || c == 0x202F
    || c == 0x205F
    || c == 0x3000

-- unicode.IsControl
unfoldable pub is_control : ℕ → Bool
is_control c = leb c 0x1F || (leb 0x7F c && leb c 0x9F)

-- strings.Fields, with the field that is being read
fields_from : String → String → List String
fields_from word [] = if is_empty word then List.[] else List.◌∷◌ word List.[]
fields_from word (c ∷ s) =
    let space = is_space (code c) in
    let rest = fields_from (if space then "" else word ++ c ∷ []) s in
    if space && not (is_empty word) then List.◌∷◌ word rest else rest

unfoldable pub fields : String → List String
unfolding fields_from
fields s = fields_from "" s

-- strings.Join
unfoldable pub join : String → List String → String
join sep List.[] = ""
join sep (List.◌∷◌ w List.[]) = w
join sep (List.◌∷◌ w (List.◌∷◌ v ws)) = w ++ (sep ++ join sep (List.◌∷◌ v ws))

trim_left : String → String
trim_left [] = []
trim_left (c ∷ s) = let rest = trim_left s in if is_space (code c) then rest else c ∷ s

trim_right : String → String
trim_right [] = []
trim_right (c ∷ s) =
    let rest = trim_right s in if is_empty rest && is_space (code c) then [] else c ∷ rest

-- strings.TrimSpace
unfoldable pub trim_space : String → String
unfolding trim_left trim_right
trim_space s = trim_right (trim_left s)

-- The parameter is `unicode.Is(unicode.Cf, r)`, a table of Go's unicode package.
module _ (is_format : ℕ → Bool) where
  -- the loop over the runes: it skips what is not shown, and breaks at the limit
  write_runes : ℕ → String → String → String
  unfolding is_control
  write_runes limit out [] = out
  write_runes limit out (c ∷ s) =
      let hidden = is_control (code c) || is_format (code c) in
      let rest = write_runes limit (if hidden then out else out ++ c ∷ []) s in
      if not hidden && ltb limit (len out + len_utf8 c) then out else rest

  unfoldable pub display_text : String → ℕ → String
  unfolding write_runes fields join trim_space is_space
  display_text value limit = trim_space (write_runes limit "" (join " " (fields value)))
