-- ===== src/Tests/AppServerRuns.antt =====
-- The theorems on the app server's configuration and executable at concrete inputs.
use Prim.Native.Char.{code}
use Prim.Native.String.{◌++◌}
use nova_codex_bootstrap.Prelude.{
  ◌≤◌, ◌≡◌, ◌⊎◌, String, refl, true, false, [], ◌∷◌, none, some, str_eq, if◌then◌else◌,
}
use nova_codex_bootstrap.Protocol.Text.{is_space}
use nova_codex_bootstrap.Tests.Data.{files}
use nova_codex_bootstrap.AppServer.Update.{
  unquote_config_value, FileInfo, Disk, file, follow, resolved_binary_changed_at, configured_binary,
  binary_from_config, inspect_update,
}
use nova_codex_bootstrap.AppServer.Quoting.{quoted, closed, escaped, unquote-quoted}
use nova_codex_bootstrap.AppServer.Links.{here, resolved_binary_changed_at-le}

unquote-quoted_example :
    (unquote_config_value (quoted "/opt/a $b\\c") ≡ some "/opt/a $b\\c")
    × ((unquote_config_value (
            String.◌∷◌ "\""
              (closed (escaped "/opt/a $b\\c" ++ String.◌∷◌ "\\" (String.◌∷◌ "n" "x"))))
          ≡ none)
        ⊎ ((code "n" ≡ 92) ⊎ ((code "n" ≡ 34) ⊎ ((code "n" ≡ 36) ⊎ (code "n" ≡ 96)))))
unquote-quoted_example = unquote-quoted "/opt/a $b\\c" "x" "n"

abbrev symlink_info : FileInfo
symlink_info = record { mod_time = 5; is_symlink = true; is_regular = false }

abbrev codex_info : FileInfo
codex_info = record { mod_time = 9; is_symlink = false; is_regular = true }

-- /bin/codex is a link to /opt/codex, and the configuration names the former.
abbrev disk : Disk
disk = record {
  lstat = λ path.
      if str_eq path "/bin/codex"
      then some symlink_info
      else if str_eq path "/opt/codex"
      then some codex_info
      else none;
  readlink = λ path. if str_eq path "/bin/codex" then some "/opt/codex" else none;
  config = λ path. file true true 100 ("A=1" ∷ "NOVASCALE_CODEX_BIN=\"/bin/codex\"" ∷ []);
}

resolves : resolved_binary_changed_at files disk "/bin/codex" ≡ some 9
unfolding resolved_binary_changed_at follow
resolves = refl

resolved_binary_changed_at-le_example : 5 ≤ 9
resolved_binary_changed_at-le_example =
    resolved_binary_changed_at-le files disk "/bin/codex" "/bin/codex" 9 symlink_info resolves here
      refl

-- The executable changed at 9, and the process started at 0 of a clock that is now at 3 seconds.
current : inspect_update files disk "/home" 3000000000 (some 3000000000) ≡ some false
unfolding inspect_update configured_binary binary_from_config resolved_binary_changed_at follow
    is_space
current = refl
