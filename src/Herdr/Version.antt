-- ===== src/Herdr/Version.antt =====
-- herdrSupportsCompletionEvidence of notifications/internal/agent/herdr_api.go.
use Prim.Native.Char.{code}
use nova_codex_bootstrap.Prelude.{
  ℕ, ◌+◌, ◌*◌, ◌-◌, ◌^◌, ◌≡◌, String, Bool, true, false, ◌&&◌, ◌||◌, List, [], ◌∷◌, Option, none,
  some, leb, ltb, ◌==◌, is_empty, if◌then◌else◌, refl,
}

-- strings.Cut(version, "+"), its first part
before_plus : String → String
before_plus String.[] = String.[]
before_plus (String.◌∷◌ c s) =
    let rest = before_plus s in if code c == b'+' then String.[] else String.◌∷◌ c rest

-- strings.Split(text, "."): the first part, and the others
split_dots : String → String × List String
split_dots String.[] = (String.[], [])
split_dots (String.◌∷◌ c s) =
    let (first, rest) = split_dots s in
    if code c == b'.' then (String.[], first ∷ rest) else (String.◌∷◌ c first, rest)

digits : ℕ → String → Option ℕ
digits n String.[] = some n
digits n (String.◌∷◌ c s) =
    let rest = digits (n * 10 + (code c - b'0')) s in
    if leb b'0' (code c) && leb (code c) b'9' then rest else none

abbrev in_32_bits : Option ℕ → Option ℕ
in_32_bits none = none
in_32_bits (some n) = if ltb n (2 ^ 32) then some n else none

-- one part: digits only, read by strconv.ParseUint(part, 10, 32)
part_number : String → Option ℕ
unfolding digits
part_number part = if is_empty part then none else in_32_bits (digits 0 part)

unfoldable pub is_recent : ℕ → ℕ → ℕ → Bool
is_recent major minor patch = ltb 0 major || ltb 9 minor || (minor == 9 && leb 2 patch)

abbrev compare_parts : Option ℕ → Option ℕ → Option ℕ → Bool
compare_parts (some a) (some b) (some c) = is_recent a b c
compare_parts _ _ _ = false

three_parts : String × List String → Bool
unfolding part_number is_recent
three_parts (a, b ∷ c ∷ []) = compare_parts (part_number a) (part_number b) (part_number c)
three_parts _ = false

unfoldable pub supports_completion_evidence : String → Bool
unfolding before_plus split_dots three_parts
supports_completion_evidence version = three_parts (split_dots (before_plus version))

recent : supports_completion_evidence "0.9.2+build.7" ≡ true
unfolding supports_completion_evidence
recent = refl

old : supports_completion_evidence "0.9.1" ≡ false
unfolding supports_completion_evidence
old = refl

pre_release : supports_completion_evidence "1.0.0-rc1" ≡ false
unfolding supports_completion_evidence
pre_release = refl
