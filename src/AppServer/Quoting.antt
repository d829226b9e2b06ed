-- ===== src/AppServer/Quoting.antt =====
-- Values in the app server's configuration (unquoteConfigValue of
-- notifications/internal/appservercontrol/update.go).
use Prim.Native.Char.{Char, code}
use Prim.Native.String.{◌++◌}
use text.Mathlib.TextLemmas.{cons-append, nil-append}
use nova_codex_bootstrap.Prelude.{
  Bool, ◌||◌, none, ◌⊎◌, ◌≡◌, refl, ap, ◌∙◌, String, false, some, arith, ◌==◌, is_empty,
  if◌then◌else◌, inl, inr, eq_iff, Bool-cases,
}
use nova_codex_bootstrap.AppServer.Update.{
  is_escapable, and_then, unescape, drop_quote, unescape_found, unquote_config_value,
}

-- Backslash, double quote, dollar sign and backquote.
abbrev pub special : Char → Bool
special c = code c == 92 || code c == 34 || code c == 36 || code c == 96

-- A text with a backslash before each backslash, double quote, dollar sign and backquote.
abbrev pub escaped : String → String
escaped String.[] = String.[]
escaped (String.◌∷◌ c s) =
    let rest = String.◌∷◌ c (escaped s) in if special c then String.◌∷◌ "\\" rest else rest

-- A text followed by a double quote.
abbrev pub closed : String → String
closed String.[] = "\""
closed (String.◌∷◌ c s) = String.◌∷◌ c (closed s)

abbrev pub quoted : String → String
quoted s = String.◌∷◌ "\"" (closed (escaped s))

unescape_plain :
    (c : Char) (r : String)
    → (code c == 92) ≡ false
    → unescape (String.◌∷◌ c r) ≡ and_then (unescape r) c
unfolding unescape
unescape_plain c String.[] h = rw h
unescape_plain c (String.◌∷◌ d r) h = rw h

special-is_escapable : (c : Char) → is_escapable (code c) ≡ special c
unfolding is_escapable
special-is_escapable c = refl

unescape-escaped : (s : String) → unescape (escaped s) ≡ some s
unfolding unescape
unescape-escaped String.[] = refl
unescape-escaped (String.◌∷◌ c s) = elim (Bool-cases (special c)) [
  | inl e ↦ rw (e, special-is_escapable c, unescape-escaped s, e)
  | inr e ↦
      rw e
        (unescape_plain c (escaped s) (ground arith) ∙ ap (λ o. and_then o c) (unescape-escaped s))
]

-- Behind a text, a backslash before a character that needs none is an error.
unescape-stray :
    (s rest : String) (c : Char)
    → special c ≡ false
    → unescape (escaped s ++ String.◌∷◌ "\\" (String.◌∷◌ c rest)) ≡ none
unfolding unescape
unescape-stray String.[] rest c h = rw (nil-append) (rw (special-is_escapable c, h) refl)
unescape-stray (String.◌∷◌ d s) rest c h = elim (Bool-cases (special d)) [
  | inl e ↦
      rw (e, cons-append, cons-append)
        (rw (special-is_escapable d, unescape-stray s rest c h, e) refl)
  | inr e ↦
      rw (e, cons-append)
        (unescape_plain d (escaped s ++ String.◌∷◌ "\\" (String.◌∷◌ c rest)) (ground arith)
          ∙ ap (λ o. and_then o d) (unescape-stray s rest c h))
]

cons_ne_empty : (c : Char) (s : String) → is_empty (String.◌∷◌ c s) ≡ false
cons_ne_empty c s = elim (Bool-cases (is_empty (String.◌∷◌ c s))) [
  | inr e ↦ e
  | inl e ↦ let equal : String.◌∷◌ c s ≡ "" = (eq_iff (String.◌∷◌ c s) "").0 e in absurd (cc equal)
]

closed_ne_empty : (s : String) → is_empty (closed s) ≡ false
closed_ne_empty String.[] = refl
closed_ne_empty (String.◌∷◌ c s) = cons_ne_empty c (closed s)

drop_quote-closed : (s : String) → drop_quote (closed s) ≡ some s
unfolding drop_quote
drop_quote-closed String.[] = refl
drop_quote-closed (String.◌∷◌ c s) =
    rw (closed_ne_empty s) (ap (λ o. and_then o c) (drop_quote-closed s))

-- A text that is quoted, with a backslash before each backslash, double quote, dollar sign and
-- backquote, is read back as the text, whatever characters it has, and a backslash before any
-- other character behind it makes the value invalid.
pub unquote-quoted :
    (s rest : String) (c : Char)
    → (unquote_config_value (quoted s) ≡ some s)
      × ((unquote_config_value
              (String.◌∷◌ "\"" (closed (escaped s ++ String.◌∷◌ "\\" (String.◌∷◌ c rest))))
            ≡ none)
          ⊎ ((code c ≡ 92) ⊎ ((code c ≡ 34) ⊎ ((code c ≡ 36) ⊎ (code c ≡ 96)))))
unfolding unquote_config_value
unquote-quoted s rest c = (
  ap unescape_found (drop_quote-closed (escaped s)) ∙ unescape-escaped s,
  elim (Bool-cases (special c)) [
    | inl e ↦ inr (ground (arith, e))
    | inr e ↦ inl (
        ap unescape_found (drop_quote-closed (escaped s ++ String.◌∷◌ "\\" (String.◌∷◌ c rest)))
        ∙ unescape-stray s rest c e)
  ],
)
