-- ===== src/Cli/Uninstall.antt =====
-- uninstallAgent, stopNotificationService, runningNotificationDaemon and removeIfPresent of
-- notifications/cmd/novascale-agent/uninstall.go, as steps that stop at the first error.
pub mod Runs
pub mod Parts
pub mod Order
use nova_codex_bootstrap.Prelude.{
  String, Bool, true, false, not, ◌&&◌, ◌||◌, List, [], ◌∷◌, ◌++◌, Option, none, some, str_eq,
  is_empty, if◌then◌else◌,
}
use nova_codex_bootstrap.Protocol.Text.{trim_space}
use nova_codex_bootstrap.Config.Paths.{Paths}
use nova_codex_bootstrap.Cli.Shell.{hook_command}
use nova_codex_bootstrap.Queue.Rows.{Queue, clear_notification_capture}
use nova_codex_bootstrap.Herdr.Setup.{Plant}
use nova_codex_bootstrap.Herdr.Setup.Install.{uninstall_herdr}
use nova_codex_bootstrap.HookConfig.Document.{
  Json, Loaded, unreadable, document, Outcome, failed, unchanged, panicked, saved, uninstall,
}

-- What os.Lstat says of a directory.
pub data Directory : Type 0 where
  gone plain redirected unknown : Directory

-- The host as far as the command changes it. The plugin's manifest is a file of `plugin_dir`.
pub record Machine (Raw Body : Type 0) : Type 0 where
  pub service_file : Bool
  pub hooks : Loaded Raw
  pub plant : Plant Body
  pub plugin_dir : Bool
  pub socket : Bool
  pub state_dir : Directory
  pub config_dir : Directory
  pub binary : Bool

pub record Options : Type 0 where
  pub paths : Paths
  pub platform : String
  pub binary : String
  pub purge : Bool

-- What the commands meet: filepath.Base and IsAbs; launchctl's print and bootout; the load state that
-- systemctl shows (`none` is an error) and whether it disables the service; whether the daemon answers on its socket, before and after;
-- and which of the other operations succeed.
pub record Circumstances : Type 0 where
  pub base : String → String
  pub is_abs : String → Bool
  pub printed : Bool
  pub booted_out : Bool
  pub load_state : Option String
  pub disabled : Bool
  pub answers_before : Bool
  pub answers_after : Bool
  pub removes_service : Bool
  pub hooks_written : Bool
  pub manifest_known : Bool
  pub herdr_opens : Bool
  pub herdr_removes : Bool
  pub database_known : Bool
  pub opened : Bool
  pub cleared : Bool
  pub closed : Bool
  pub removes_plugin : Bool
  pub removes_socket : Bool
  pub removes_state : Bool
  pub removes_config : Bool
  pub removes_binary : Bool

abbrev pub is_usable : Directory → Bool
is_usable gone = true
is_usable plain = true
is_usable redirected = false
is_usable unknown = false

abbrev pub expected : Circumstances → String → Directory → Bool
expected c path directory =
    str_eq (c.base path) "novascale-agent" && c.is_abs path && is_usable directory

abbrev is_loaded : Option String → Bool
is_loaded none = false
is_loaded (some output) =
    not (str_eq (trim_space output) "not-found") && not (is_empty (trim_space output))

-- removeIfPresent of a file that is there or not; a failure leaves it
abbrev pub remaining : Bool → Bool → Bool
remaining removes there = there && not removes

abbrev pub removed : Bool → Bool → Bool
removed removes there = not there || removes

abbrev has_manifest : Option String → Bool
has_manifest none = false
has_manifest (some s) = true

-- A step: whether it succeeds, and the host after it.
abbrev pub Action : Type 0 → Type 0 → Type 0
Action Raw Body = Machine Raw Body → Bool × Machine Raw Body

module _ {Raw Body : Type 0} where
  -- What follows a step is done if the step succeeds.
  abbrev pub then_do : Action Raw Body → Bool × Machine Raw Body → Bool × Machine Raw Body
  then_do next (true, m) = next m
  then_do next (false, m) = (false, m)

  unfoldable pub run_actions : List (Action Raw Body) → Action Raw Body
  run_actions [] m = (true, m)
  run_actions (a ∷ actions) m = then_do (run_actions actions) (a m)

  -- a step that changes nothing
  abbrev pub check : Bool → Action Raw Body
  check ok m = (ok, m)

  unfoldable pub check_directories : Circumstances → Options → Action Raw Body
  check_directories c o m =
      check (expected c o.paths.config_dir m.config_dir && expected c o.paths.state_dir m.state_dir)
        m

  -- runningNotificationDaemon
  abbrev pub is_running : Bool → Machine Raw Body → Bool
  is_running answers m = m.socket && answers

  -- the service manager stops the service, or no daemon runs
  abbrev pub stopped_by_manager : Circumstances → Options → Machine Raw Body → Bool
  stopped_by_manager c o m =
      if str_eq o.platform "darwin"
      then (if c.printed then c.booted_out else not (is_running c.answers_before m))
      else if is_loaded c.load_state
      then c.disabled
      else not (is_running c.answers_before m)

  -- stopNotificationService
  unfoldable pub stop_service : Circumstances → Options → Action Raw Body
  stop_service c o m =
      if not (stopped_by_manager c o m) || is_running c.answers_after m then (false, m) else (
        removed c.removes_service m.service_file,
        record m { service_file = remaining c.removes_service m.service_file },
      )

  abbrev hooks_after : Bool → Machine Raw Body → Outcome Raw → Bool × Machine Raw Body
  hooks_after written m failed = (false, m)
  hooks_after written m unchanged = (true, m)
  hooks_after written m panicked = (false, m)
  hooks_after written m (saved d) =
      if written then (true, record m { hooks = document (some d) }) else (false, m)

  unfoldable pub remove_hooks : Json Raw → Circumstances → Options → Action Raw Body
  remove_hooks json c o m =
      hooks_after c.hooks_written m (uninstall json (hook_command o.binary) m.hooks)

  abbrev with_plant : Machine Raw Body → Bool × Plant Body → Bool × Machine Raw Body
  with_plant m (ok, plant) = (ok, record m { plant = plant })

  -- the plugin is removed from Herdr if its manifest is there
  unfoldable pub remove_plugin : Circumstances → Action Raw Body
  remove_plugin c m =
      if not c.manifest_known
      then (false, m)
      else if has_manifest m.plant.manifest
      then with_plant m (uninstall_herdr c.herdr_opens c.herdr_removes m.plant)
      else (true, m)

  abbrev cleared_queue :
      Circumstances → Machine Raw Body → Option (Queue Body) → Bool × Machine Raw Body
  cleared_queue c m none = (true, m)
  cleared_queue c m (some q) =
      let plant = m.plant in
      let cleared : Plant Body = record plant { database = some (clear_notification_capture q) } in
      if not c.opened || not c.cleared then (false, m) else (c.closed, record m { plant = cleared })

  unfoldable pub clear_queue : Circumstances → Action Raw Body
  clear_queue c m = if c.database_known then cleared_queue c m m.plant.database else (false, m)

  unfoldable pub remove_plugin_dir : Circumstances → Action Raw Body
  remove_plugin_dir c m =
      let plant = m.plant in
      let left : Plant Body = record plant { manifest = none } in
      if c.removes_plugin then (true, record m { plugin_dir = false; plant = left }) else (false, m)

  unfoldable pub remove_socket : Circumstances → Action Raw Body
  remove_socket c m =
      (removed c.removes_socket m.socket, record m { socket = remaining c.removes_socket m.socket })

  -- os.RemoveAll of the two directories, the state first; the socket is gone by then
  unfoldable pub purge_state : Circumstances → Options → Action Raw Body
  purge_state c o m =
      let plant = m.plant in
      let left : Plant Body = record plant { database = none } in
      if not o.purge
      then (true, m)
      else if c.removes_state
      then (true, record m { state_dir = gone; plant = left })
      else (false, m)

  unfoldable pub purge_config : Circumstances → Options → Action Raw Body
  purge_config c o m =
      if not o.purge
      then (true, m)
      else if c.removes_config
      then (true, record m { config_dir = gone })
      else (false, m)

  unfoldable pub remove_binary : Circumstances → Action Raw Body
  remove_binary c m =
      (removed c.removes_binary m.binary, record m { binary = remaining c.removes_binary m.binary })

  -- what comes before the executable is removed
  unfoldable pub cleanup : Json Raw → Circumstances → Options → List (Action Raw Body)
  cleanup json c o =
      check_directories c o
      ∷ stop_service c o
      ∷ remove_hooks json c o
      ∷ remove_plugin c
      ∷ clear_queue c
      ∷ remove_plugin_dir c
      ∷ remove_socket c
      ∷ purge_state c o
      ∷ purge_config c o
      ∷ []

  -- uninstallAgent: true is a nil error
  unfoldable pub uninstall_agent : Json Raw → Circumstances → Options → Action Raw Body
  unfolding run_actions
  uninstall_agent json c o m =
      if not (str_eq o.platform "darwin") && not (str_eq o.platform "linux")
      then (false, m)
      else run_actions (cleanup json c o ++ remove_binary c ∷ []) m
