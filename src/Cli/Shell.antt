-- ===== src/Cli/Shell.antt =====
-- shellQuote and shellCommand of notifications/cmd/novascale-agent/main.go, which write the hook's
-- command line.
pub mod Words
use Prim.Native.Char.{code}
use Prim.Native.String.{◌++◌}
use nova_codex_bootstrap.Prelude.{
  ℕ, String, Bool, true, false, ◌&&◌, ◌||◌, leb, ◌==◌, if◌then◌else◌,
}

-- strings.ReplaceAll(value, "'", "'\\''")
unfoldable pub replace_quotes : String → String
replace_quotes String.[] = String.[]
replace_quotes (String.◌∷◌ c s) =
    let rest = replace_quotes s in
    if code c == 39
    then String.◌∷◌ "'" (String.◌∷◌ "\\" (String.◌∷◌ "'" (String.◌∷◌ "'" rest)))
    else String.◌∷◌ c rest

-- shellQuote
unfoldable pub shell_quote : String → String
shell_quote value = String.◌∷◌ "'" (replace_quotes value ++ "'")

-- the characters that need no quotes: letters, digits, and _./-
unfoldable pub is_plain : ℕ → Bool
is_plain ch =
    (leb b'a' ch && leb ch b'z')
    || (leb b'A' ch && leb ch b'Z')
    || (leb b'0' ch && leb ch b'9')
    || ch == b'_'
    || ch == b'.'
    || ch == b'/'
    || ch == b'-'

unfoldable pub all_plain : String → Bool
all_plain String.[] = true
all_plain (String.◌∷◌ c s) = is_plain (code c) && all_plain s

-- shellCommand
unfoldable pub shell_command : String → String
shell_command value = if all_plain value then value else shell_quote value

-- shellCommand(absoluteAgent) + " hook"
abbrev pub hook_command : String → String
hook_command agent = shell_command agent ++ " hook"
