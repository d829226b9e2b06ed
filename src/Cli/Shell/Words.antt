-- ===== src/Cli/Shell/Words.antt =====
-- How a shell reads the hook's command line (shellCommand of
-- notifications/cmd/novascale-agent/main.go).
use Prim.Native.Char.{Char, code}
use Prim.Native.String.{◌++◌}
use text.Mathlib.TextLemmas.{cons-append, nil-append, append_assoc}
use text.Mathlib.TextEquality.{Char-path}
use nova_codex_bootstrap.Prelude.{
  ℕ, ◌≡◌, refl, ◌∙◌, String, Bool, true, false, ◌||◌, Option, none, some, arith, ◌==◌, is_empty,
  if◌then◌else◌, inl, inr, Bool-cases,
}
use nova_codex_bootstrap.Cli.Shell.{
  replace_quotes, shell_quote, is_plain, all_plain, shell_command, hook_command,
}

-- The characters other than single quotes and the backslash that a shell reads as more than themselves: those
-- that have to be quoted, | & ; < > ( ) $ ` " tab and newline, and those that may have to be,
-- * ? [ ] # ~ = % ! { } ^. The space, which separates words, is one where no word has begun.
unfoldable pub is_special : ℕ → Bool
is_special ch =
    ch == b'|'
    || ch == b'&'
    || ch == b';'
    || ch == b'<'
    || ch == b'>'
    || ch == b'('
    || ch == b')'
    || ch == b'$'
    || ch == b'`'
    || ch == 9
    || ch == 10
    || ch == 32
    || ch == b'*'
    || ch == b'?'
    || ch == b'['
    || ch == b']'
    || ch == b'#'
    || ch == b'~'
    || ch == b'='
    || ch == b'%'
    || ch == b'!'
    || ch == b'{'
    || ch == b'}'
    || ch == b'^'
    || ch == 34

-- A character that is left unquoted stands for itself.
plain-not_special :
    (ch : ℕ)
    → is_plain ch ≡ true
    → (is_special ch ≡ false) × ((ch == 39) ≡ false) × ((ch == 92) ≡ false) × ((ch == 32) ≡ false)
unfolding is_plain is_special
plain-not_special ch h = ground arith

-- Where a shell stands in a word: before it, in it, between single quotes, or behind a backslash.
pub data Mode : Type 0 where
  before inside quoted escaped : Mode

-- A character put in front of a word; the rest of the line follows the word.
abbrev put : Char → Option (String × String) → Option (String × String)
put c none = none
put c (some (word, rest)) = some (String.◌∷◌ c word, rest)

-- The next word of a line and what follows the space behind it, after the rules of the POSIX shell.
-- `none` is a line that is not closed, a word with an unquoted character
-- that may be special, or no word.
unfoldable pub read_word : Mode → String → Option (String × String)
read_word before String.[] = none
read_word inside String.[] = some ("", "")
read_word quoted String.[] = none
read_word escaped String.[] = none
read_word before (String.◌∷◌ c s) =
    let next = put c (read_word inside s) in
    let open_quote = read_word quoted s in
    let escape = read_word escaped s in
    if code c == 39
    then open_quote
    else if code c == 92
    then escape
    else if is_special (code c)
    then none
    else next
read_word inside (String.◌∷◌ c s) =
    let next = put c (read_word inside s) in
    let open_quote = read_word quoted s in
    let escape = read_word escaped s in
    if code c == 39
    then open_quote
    else if code c == 92
    then escape
    else if code c == 32
    then some ("", s)
    else if is_special (code c)
    then none
    else next
read_word quoted (String.◌∷◌ c s) =
    let next = put c (read_word quoted s) in
    let close_quote = read_word inside s in if code c == 39 then close_quote else next
read_word escaped (String.◌∷◌ c s) = put c (read_word inside s)

read_word-plain :
    (value rest : String)
    → all_plain value ≡ true
    → read_word inside (value ++ String.◌∷◌ " " rest) ≡ some (value, rest)
unfolding read_word all_plain
read_word-plain String.[] rest h = rw (nil-append) refl
read_word-plain (String.◌∷◌ c s) rest h =
    rw (cons-append) (ground (arith, read_word-plain s rest, plain-not_special (code c)))

quote_char : (c : Char) → (code c == 39) ≡ true → c ≡ "'"
quote_char c h = Char-path c "'" (ground arith)

quote-append :
    (r t : String)
    → String.◌∷◌ "'" (String.◌∷◌ "\\" (String.◌∷◌ "'" (String.◌∷◌ "'" r))) ++ t
      ≡ String.◌∷◌ "'" (String.◌∷◌ "\\" (String.◌∷◌ "'" (String.◌∷◌ "'" (r ++ t))))
quote-append r t = simp cons-append

read_word-replace_quotes :
    (value rest : String)
    → read_word quoted (replace_quotes value ++ String.◌∷◌ "'" (String.◌∷◌ " " rest))
      ≡ some (value, rest)
unfolding read_word replace_quotes
read_word-replace_quotes String.[] rest = rw (nil-append) refl
read_word-replace_quotes (String.◌∷◌ c s) rest = elim (Bool-cases (code c == 39)) [
  | inl e ↦
      rw (e, quote-append (replace_quotes s) (String.◌∷◌ "'" (String.◌∷◌ " " rest)))
        (rw (read_word-replace_quotes s rest, quote_char c e) refl)
  | inr e ↦ rw (e, cons-append) (rw (e, read_word-replace_quotes s rest) refl)
]

quoted_line :
    (value : String) → read_word before (shell_quote value ++ " hook") ≡ some (value, "hook")
unfolding read_word shell_quote
quoted_line value = rw (cons-append, append_assoc) (read_word-replace_quotes value "hook")

starts_word :
    (c : Char) (s : String)
    → is_plain (code c) ≡ true
    → read_word before (String.◌∷◌ c s) ≡ read_word inside (String.◌∷◌ c s)
unfolding read_word
starts_word c s h = ground (arith, plain-not_special (code c) h)

plain_line :
    (value : String)
    → is_empty value ≡ false
    → all_plain value ≡ true
    → read_word before (value ++ " hook") ≡ some (value, "hook")
unfolding all_plain
plain_line String.[] h p = cc
plain_line (String.◌∷◌ c s) h p = rw (cons-append) (
    starts_word c (s ++ " hook") (ground arith)
    ∙ rw (← cons-append c s " hook") (read_word-plain (String.◌∷◌ c s) "hook" p))

-- A shell that refuses a word with an unquoted character that is special to a POSIX shell reads
-- the hook's command line as two words, the agent's path as it is, whatever characters it has, and
-- `hook`, if the path is not empty.
pub read_word-hook_command :
    (agent : String)
    → is_empty agent ≡ false
    → read_word before (hook_command agent) ≡ some (agent, "hook")
unfolding shell_command
read_word-hook_command agent h = elim (Bool-cases (all_plain agent)) [
  | inl p ↦ rw p (plain_line agent h p)
  | inr q ↦ rw q (quoted_line agent)
]
