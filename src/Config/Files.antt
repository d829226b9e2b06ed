-- ===== src/Config/Files.antt =====
-- The configuration file and the host's key on disk: LoadConfig and SaveConfig of
-- notifications/internal/agent/config.go, LoadPrivateKey, GenerateIdentity and trimSpace of
-- identity.go. The key's encoding is a parameter; a failed write leaves the file as it was.
use Prim.Native.Char.{code}
use Prim.Native.String.{◌++◌}
use nova_codex_bootstrap.Prelude.{
  ℕ, String, Bool, true, ◌&&◌, ◌||◌, Option, none, some, ◌==◌, is_empty, if◌then◌else◌,
}
use nova_codex_bootstrap.Config.Endpoint.{NetLib}
use nova_codex_bootstrap.Config.Settings.{Config, validate_config}

-- What stands at the path: nothing, a file that json.Unmarshal refuses or that cannot be read, or one
-- that holds a configuration, valid or not.
pub data Stored : Type 0 where
  no_file unreadable : Stored
  file : Config → Stored

-- What LoadConfig gives; `missing` is the error os.IsNotExist.
pub data Loaded : Type 0 where
  missing broken : Loaded
  loaded : Config → Loaded

-- LoadConfig
unfoldable pub load_config : NetLib → Stored → Loaded
load_config net no_file = missing
load_config net unreadable = broken
load_config net (file c) = if validate_config net c then loaded c else broken

-- SaveConfig: the file after it; `none` is an error. The flag says that the write and the rename
-- succeed.
unfoldable pub save_config : NetLib → Config → Bool → Option Stored
save_config net c written = if validate_config net c && written then some (file c) else none

-- A key file: whether its mode keeps others out, and its text.
pub record KeyFile : Type 0 where
  pub is_private : Bool
  pub text : String

-- base64.RawURLEncoding on keys, and the length of a key; `none` is an error.
pub record KeyLib (Key : Type 0) : Type 0 where
  pub encode : Key → String
  pub decode : String → Option Key
  pub size : Key → ℕ

abbrev pub is_blank : ℕ → Bool
is_blank c = c == 32 || c == 10 || c == 13 || c == 9

unfoldable pub trim_start : String → String
trim_start String.[] = String.[]
trim_start (String.◌∷◌ c s) =
    let rest = trim_start s in if is_blank (code c) then rest else String.◌∷◌ c s

unfoldable pub trim_end : String → String
trim_end String.[] = String.[]
trim_end (String.◌∷◌ c s) =
    let rest = trim_end s in
    if is_empty rest && is_blank (code c) then String.[] else String.◌∷◌ c rest

-- trimSpace
unfoldable pub trim_key : String → String
unfolding trim_start trim_end
trim_key s = trim_end (trim_start s)

module _ {Key : Type 0} (keys : KeyLib Key) where
  abbrev pub of_size : Option Key → Option Key
  of_size none = none
  of_size (some k) = if keys.size k == 64 then some k else none

  -- LoadPrivateKey; `none` is an error
  unfoldable pub load_private_key : Option KeyFile → Option Key
  load_private_key none = none
  load_private_key (some f) = if f.is_private then of_size (keys.decode (trim_key f.text)) else none

  -- GenerateIdentity with the key that ed25519.GenerateKey gives: the file that it writes
  unfoldable pub key_file : Key → KeyFile
  key_file k = record { is_private = true; text = keys.encode k ++ "\n" }
