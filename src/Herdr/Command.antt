-- ===== src/Herdr/Command.antt =====
-- herdrPluginCommand of notifications/internal/agent/herdr_capture.go: how Herdr's own command is run.
use Prim.Native.Char.{code}
use nova_codex_bootstrap.Prelude.{
  ℕ, ◌*◌, ◌≡◌, refl, String, Bool, false, not, ◌||◌, List, [], ◌∷◌, any, select, Option, none, some,
  ltb, ◌==◌, str_eq, is_empty, if◌then◌else◌, arith,
}
use nova_codex_bootstrap.Protocol.Event.{contains_break}
use nova_codex_bootstrap.Herdr.Socket.{FileLib}

-- What the command finds: HERDR_BIN_PATH, exec.LookPath of herdr, the home directory, and the
-- environment.
pub record Surroundings : Type 0 where
  pub bin_path : String
  pub looked_up : Option String
  pub home : Option String
  pub environment : List String

pub record Invocation : Type 0 where
  pub binary : String
  pub arguments : List String
  pub environment : List String

-- What a command that has started gives: its output, whether that is read to the end, and whether the
-- command succeeds.
pub record Finished (Text : Type 0) : Type 0 where
  pub output : Text
  pub is_read : Bool
  pub succeeds : Bool

-- the key of strings.Cut at the equals sign
unfoldable pub key_of : String → String
key_of String.[] = String.[]
key_of (String.◌∷◌ c s) =
    let rest = key_of s in if code c == b'=' then String.[] else String.◌∷◌ c rest

abbrev pub is_override : String → Bool
is_override entry =
    let key = key_of entry in
    str_eq key "HERDR_SOCKET_PATH" || str_eq key "HERDR_SESSION" || str_eq key "HERDR_SESSION_NAME"

module _ (lib : FileLib) where
  abbrev under_home : Option String → Option String
  under_home none = none
  under_home (some home) = some (lib.join (home ∷ ".local" ∷ "bin" ∷ "herdr" ∷ []))

  abbrev found_or_under : Option String → Option String → Option String
  found_or_under (some binary) home = some binary
  found_or_under none home = under_home home

  -- the executable; `none` is an error
  unfoldable pub plugin_binary : Surroundings → Option String
  plugin_binary s =
      if is_empty s.bin_path
      then found_or_under s.looked_up s.home
      else if not (lib.is_abs s.bin_path) || contains_break s.bin_path
      then none
      else some s.bin_path

  abbrev invoked : List String → List String → Option String → Option Invocation
  invoked arguments environment none = none
  invoked arguments environment (some binary) = some (record {
    binary = binary;
    arguments = "plugin" ∷ arguments;
    environment = select (λ entry. not (is_override entry)) environment;
  })

  unfoldable pub plugin_invocation : Surroundings → List String → Option Invocation
  plugin_invocation s arguments = invoked arguments s.environment (plugin_binary s)

  abbrev pub max_plugin_output : ℕ
  max_plugin_output = 1024 * 1024

  abbrev output_of : {Text : Type 0} → (Text → ℕ) → Option (Finished Text) → Option Text
  output_of size none = none
  output_of size (some f) =
      if not f.is_read || not f.succeeds || ltb max_plugin_output (size f.output)
      then none
      else some f.output

  -- herdrPluginCommand, with what starting an invocation gives (`none` if it does not start)
  unfoldable pub herdr_plugin_command :
      {Text : Type 0}
      → (Text → ℕ)
      → (Invocation → Option (Finished Text))
      → Surroundings
      → List String
      → Option Text
  herdr_plugin_command size start s arguments = elim (plugin_invocation s arguments) [
    | none ↦ none
    | some invocation ↦ output_of size (start invocation)
  ]

  overrides_out :
      (es : List String) → any is_override (select (λ e. not (is_override e)) es) ≡ false
  overrides_out [] = refl
  overrides_out (e ∷ es) = ground (arith, overrides_out es)

  -- The command runs with no override of the session or the socket in its environment.
  plugin_invocation-free :
      (s : Surroundings) (arguments : List String) (i : Invocation)
      → plugin_invocation s arguments ≡ some i
      → any is_override i.environment ≡ false
  unfolding plugin_invocation
  plugin_invocation-free s arguments i h = freed (plugin_binary s) h
    where
      freed :
          (o : Option String)
          → invoked arguments s.environment o ≡ some i
          → any is_override i.environment ≡ false
      freed none e = absurd (ground arith)
      freed (some binary) e = ground (arith, overrides_out s.environment)
