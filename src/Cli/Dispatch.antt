-- ===== src/Cli/Dispatch.antt =====
-- main of notifications/cmd/novascale-agent/main.go and runHerdr of herdr.go: which command runs, and how
-- the process ends.
use nova_codex_bootstrap.Prelude.{
  ℕ, ◌≡◌, refl, String, Bool, false, not, ◌||◌, List, [], ◌∷◌, Option, none, some, str_eq, is_empty,
  if◌then◌else◌,
}

pub data Command : Type 0 where
  hook herdr_hook herdr capabilities init uninstall switch_backend serve status : Command
  registration_state host_id endpoint daemon_version app_server hooks print_version : Command

unfoldable pub command_of : String → Option Command
command_of name =
    if str_eq name "hook"
    then some hook
    else if str_eq name "herdr-hook"
    then some herdr_hook
    else if str_eq name "herdr"
    then some herdr
    else if str_eq name "capabilities"
    then some capabilities
    else if str_eq name "init"
    then some init
    else if str_eq name "uninstall"
    then some uninstall
    else if str_eq name "switch-backend"
    then some switch_backend
    else if str_eq name "serve"
    then some serve
    else if str_eq name "status"
    then some status
    else if str_eq name "registration-state"
    then some registration_state
    else if str_eq name "host-id"
    then some host_id
    else if str_eq name "endpoint"
    then some endpoint
    else if str_eq name "daemon-version"
    then some daemon_version
    else if str_eq name "app-server"
    then some app_server
    else if str_eq name "hooks"
    then some hooks
    else if str_eq name "version" || str_eq name "--version"
    then some print_version
    else none

-- The code that the process exits with after a command whose error is nil or not; the hooks and the
-- version have no error.
unfoldable pub exit_of : Command → Bool → ℕ
exit_of hook succeeds = 0
exit_of herdr_hook succeeds = 0
exit_of print_version succeeds = 0
exit_of other succeeds = if succeeds then 0 else 1

abbrev exit_after : (Command → List String → Bool) → List String → Option Command → ℕ
exit_after run rest none = 2
exit_after run rest (some command) = exit_of command (run command rest)

-- main, on the arguments after the program's name; usage errors exit with 2
unfoldable pub run_main : (Command → List String → Bool) → List String → ℕ
run_main run [] = 2
run_main run (name ∷ rest) = exit_after run rest (command_of name)

pub data HerdrOperation : Type 0 where
  show_bindings send_test show_status install_plugin uninstall_plugin : HerdrOperation

abbrev operation_of : String → Option HerdrOperation
operation_of name =
    if str_eq name "bindings"
    then some show_bindings
    else if str_eq name "test"
    then some send_test
    else if str_eq name "status"
    then some show_status
    else if str_eq name "install"
    then some install_plugin
    else if str_eq name "uninstall"
    then some uninstall_plugin
    else none

-- The socket that the flags --session and --socket give; "" if neither is set, `none` for an error.
unfoldable pub herdr_socket_of : (String → String → Option String) → String → String → Option String
herdr_socket_of resolve session socket =
    if not (is_empty session) || not (is_empty socket) then resolve session socket else some ""

abbrev run_operation :
    (HerdrOperation → String → Bool) → Option HerdrOperation → Option String → Bool
run_operation run none socket = false
run_operation run (some operation) none = false
run_operation run (some operation) (some socket) = run operation socket

-- runHerdr on its flags and the arguments that they leave; true is a nil error
unfoldable pub run_herdr :
    (String → String → Option String)
    → (HerdrOperation → String → Bool)
    → String
    → List String
    → String
    → String
    → Bool
run_herdr resolve run name [] session socket =
    run_operation run (operation_of name) (herdr_socket_of resolve session socket)
run_herdr resolve run name (a ∷ rest) session socket = false

-- The hook never fails the program that runs it.
hooks_exit :
    (run : Command → List String → Bool) (rest : List String) → run_main run ("hook" ∷ rest) ≡ 0
unfolding run_main command_of exit_of
hooks_exit run rest = refl
