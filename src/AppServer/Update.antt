-- ===== src/AppServer/Update.antt =====
-- restartIfUpdated and what it calls, of notifications/internal/appservercontrol/update.go.
-- Times and durations are in nanoseconds. The age of the process, which ps prints, is
-- an input.
use Prim.Native.Char.{Char, code}
use nova_codex_bootstrap.Prelude.{
  ℕ, zero, suc, ◌+◌, ◌*◌, ◌^◌, String, Bool, true, false, not, ◌||◌, List, [], ◌∷◌, Option, none,
  some, ltb, ◌==◌, is_empty, if◌then◌else◌,
}
use nova_codex_bootstrap.Protocol.Text.{trim_space}
use nova_codex_bootstrap.Herdr.Socket.{FileLib}

-- strings.ContainsRune("\\\"$`", c)
unfoldable pub is_escapable : ℕ → Bool
is_escapable c = c == 92 || c == 34 || c == 36 || c == 96

abbrev pub and_then : Option String → Char → Option String
and_then none c = none
and_then (some s) c = some (String.◌∷◌ c s)

-- the loop of unquoteConfigValue
unfoldable pub unescape : String → Option String
unescape String.[] = some ""
unescape (String.◌∷◌ c String.[]) = if code c == 92 then none else some (String.◌∷◌ c String.[])
unescape (String.◌∷◌ c (String.◌∷◌ d s)) =
    let plain = unescape (String.◌∷◌ d s) in
    let escaped = unescape s in
    if not (code c == 92)
    then and_then plain c
    else if is_escapable (code d)
    then and_then escaped d
    else none

-- the value without its last character, a double quote
unfoldable pub drop_quote : String → Option String
drop_quote String.[] = none
drop_quote (String.◌∷◌ c s) =
    let rest = drop_quote s in
    if is_empty s then (if code c == 34 then some "" else none) else and_then rest c

abbrev pub unescape_found : Option String → Option String
unescape_found none = none
unescape_found (some s) = unescape s

-- unquoteConfigValue
unfoldable pub unquote_config_value : String → Option String
unfolding unescape drop_quote
unquote_config_value String.[] = none
unquote_config_value (String.◌∷◌ c s) = if code c == 34 then unescape_found (drop_quote s) else none

-- strings.HasPrefix and TrimPrefix: what follows the prefix
unfoldable pub after_prefix : String → String → Option String
after_prefix String.[] s = some s
after_prefix (String.◌∷◌ p ps) String.[] = none
after_prefix (String.◌∷◌ p ps) (String.◌∷◌ c s) =
    let rest = after_prefix ps s in if code p == code c then rest else none

-- What stands at a configuration path.
pub data ConfigFile : Type 0 where
  absent unreadable : ConfigFile
  file : (is_regular is_private : Bool) (size : ℕ) (lines : List String) → ConfigFile

-- What binaryFromConfig returns; `missing` is the error os.IsNotExist.
pub data Binary : Type 0 where
  missing invalid : Binary
  found : String → Binary

-- the values of the two keys
pub record Values : Type 0 where
  pub current : String
  pub legacy : String

abbrev set_current : Values → Option String → Option Values
set_current v none = none
set_current v (some s) = some (record v { current = s })

abbrev set_legacy : Values → Option String → Option Values
set_legacy v none = none
set_legacy v (some s) = some (record v { legacy = s })

abbrev read_legacy : Values → Option String → Option Values
read_legacy v none = some v
read_legacy v (some quoted) = set_legacy v (unquote_config_value quoted)

abbrev read_current : Values → Option String → Option Values
read_current v none = some v
read_current v (some quoted) = set_current v (unquote_config_value quoted)

-- A line begins with one of the keys at most, so that the order of the two tests does not matter.
unfoldable pub read_line : String → Option Values → Option Values
read_line line none = none
read_line line (some v) = elim (after_prefix "NOVASCALE_CODEX_BIN=" line) [
  | some quoted ↦ read_current v (some quoted)
  | none ↦ read_legacy v (after_prefix "NOVA_CODEX_BIN=" line)
]

unfoldable pub read_lines : List String → Option Values → Option Values
read_lines [] v = v
read_lines (line ∷ lines) v = read_lines lines (read_line line v)

abbrev pub max_config_bytes : ℕ
max_config_bytes = 65536

-- What os.Lstat says of a path.
pub record FileInfo : Type 0 where
  pub mod_time : ℕ
  pub is_symlink : Bool
  pub is_regular : Bool

pub record Disk : Type 0 where
  pub lstat : String → Option FileInfo
  pub readlink : String → Option String
  pub config : String → ConfigFile

module _ (lib : FileLib) (disk : Disk) where
  unfoldable pub chosen_binary : Option Values → Binary
  chosen_binary none = invalid
  chosen_binary (some v) =
      let binary = if is_empty v.current then v.legacy else v.current in
      if is_empty binary || not (lib.is_abs binary) then invalid else found (lib.clean binary)

  -- binaryFromConfig
  unfoldable pub binary_from_config : ConfigFile → Binary
  unfolding chosen_binary read_lines read_line after_prefix unquote_config_value
  binary_from_config absent = missing
  binary_from_config unreadable = invalid
  binary_from_config (file is_regular is_private size lines) =
      if not is_regular || not is_private || ltb max_config_bytes size
      then invalid
      else chosen_binary (read_lines lines (some (record { current = ""; legacy = "" })))

  abbrev pub or_legacy : Binary → Binary → Option String
  or_legacy (found b) other = some b
  or_legacy invalid other = none
  or_legacy missing (found b) = some b
  or_legacy missing _ = none

  -- configuredBinary; `none` is an error
  unfoldable pub configured_binary : String → Option String
  configured_binary home =
      let directory = lib.join (home ∷ ".codex" ∷ []) in
      or_legacy
        (binary_from_config (disk.config (lib.join (directory ∷ "novascale-codex-host.env" ∷ []))))
        (binary_from_config (disk.config (lib.join (directory ∷ "novaaccess-codex-host.env" ∷ []))))

  -- the path that a link's target stands for
  abbrev pub target_path : String → String → String
  target_path current target =
      lib.clean (if lib.is_abs target then target else lib.join (lib.dir current ∷ target ∷ []))

  abbrev pub later : ℕ → ℕ → ℕ
  later at time = if ltb at time then time else at

  -- the loop of resolvedBinaryChangedAt, with the links that may still be followed
  unfoldable pub follow : ℕ → String → ℕ → Option ℕ
  follow zero current at = none
  follow (suc links) current at = elim (disk.lstat current) [
    | none ↦ none
    | some info ↦
        if info.is_symlink
        then elim (disk.readlink current) [
          | none ↦ none
          | some target ↦ follow links (target_path current target) (later at info.mod_time)
        ]
        else (if info.is_regular then some (later at info.mod_time) else none)
  ]

  -- resolvedBinaryChangedAt; `none` is an error
  unfoldable pub resolved_binary_changed_at : String → Option ℕ
  resolved_binary_changed_at path = follow 32 (lib.clean path) 0

  abbrev changed_at : Option String → Option ℕ
  changed_at none = none
  changed_at (some path) = resolved_binary_changed_at path

  -- startedAt is now less the elapsed time; the tolerance is two seconds
  abbrev pub compare_times : ℕ → Option ℕ → Option ℕ → Option Bool
  compare_times now (some changed) (some elapsed) =
      some (ltb (now + 2 * 10 ^ 9) (changed + elapsed))
  compare_times now _ _ = none

  -- inspectUpdate; true is UpdateRestartRequired, `none` an error. The elapsed time is what the service
  -- manager and ps give.
  unfoldable pub inspect_update : String → ℕ → Option ℕ → Option Bool
  unfolding trim_space
  inspect_update home now elapsed =
      if is_empty (trim_space home)
      then none
      else compare_times now (changed_at (configured_binary home)) elapsed

-- restartIfUpdated with the outcome of the inspection and of the restart, which is requested only if
-- the second component says so.
unfoldable pub restart_if_updated : Option Bool → Bool → Option Bool × Bool
restart_if_updated none restarts = (none, false)
restart_if_updated (some false) restarts = (some false, false)
restart_if_updated (some true) restarts = (if restarts then some true else none, true)
