-- ===== src/Cli/Inspect.antt =====
-- The commands of notifications/cmd/novascale-agent/main.go that change no configuration: runStatus,
-- runDaemonVersion, runRegistrationState, runHostID, runEndpoint, runHooks and runAppServer, and
-- runUninstall of uninstall.go with its plan. A command gives what it prints, or `none` for an error.
use nova_codex_bootstrap.Prelude.{
  ℕ, String, Bool, true, false, List, [], ◌∷◌, Option, none, some, str_eq, if◌then◌else◌,
}
use nova_codex_bootstrap.Prelude.Decimal.{decimal}
use nova_codex_bootstrap.Config.Endpoint.{NetLib}
use nova_codex_bootstrap.Config.Settings.{Config}
use nova_codex_bootstrap.Config.Files.{
  Stored, Loaded, missing, broken, loaded, load_config, KeyFile, KeyLib, load_private_key,
}
use nova_codex_bootstrap.Queue.Rows.{Queue, depth}
use nova_codex_bootstrap.Ingress.Connection.{Reply, info}
use nova_codex_bootstrap.Herdr.Plugin.{Info, read_daemon_info}
use nova_codex_bootstrap.HookConfig.Document.{Json, installed}
use nova_codex_bootstrap.HookConfig.File.{
  Files, HooksDisk, Faults, load, install_file, uninstall_file,
}
use nova_codex_bootstrap.Cli.Shell.{hook_command}

module _ (net : NetLib) where
  abbrev shown_field : (Config → String) → Loaded → Option String
  shown_field field missing = none
  shown_field field broken = none
  shown_field field (loaded config) = some (field config)

  abbrev without_arguments : List String → Option String → Option String
  without_arguments [] printed = printed
  without_arguments (a ∷ rest) printed = none

  -- runRegistrationState, runHostID and runEndpoint
  unfoldable pub run_registration_state : List String → Stored → Option String
  run_registration_state arguments stored =
      without_arguments arguments (shown_field (λ c. c.registration_state) (load_config net stored))

  unfoldable pub run_host_id : List String → Stored → Option String
  run_host_id arguments stored =
      without_arguments arguments (shown_field (λ c. c.host_id) (load_config net stored))

  unfoldable pub run_endpoint : List String → Stored → Option String
  run_endpoint arguments stored =
      without_arguments arguments (shown_field (λ c. c.endpoint) (load_config net stored))

  abbrev version_of : Option Info → Option String
  version_of none = none
  version_of (some i) = some i.version

  -- runDaemonVersion, on the arguments that its flags leave and the daemon's reply
  unfoldable pub run_daemon_version : List String → Option Reply → Option String
  run_daemon_version rest reply = without_arguments rest (version_of (read_daemon_info reply))

  -- What runStatus prints.
  pub record Status : Type 0 where
    pub host_id : String
    pub registration : String
    pub endpoint : String
    pub queue_depth : String
    pub public_key : String
    pub live : Option (String × ℕ × String)
    pub update : String

  abbrev depth_of : {Body : Type 0} → Option (Queue Body) → String
  depth_of none = "unavailable"
  depth_of (some q) = decimal (depth q)

  abbrev public_of : {Key : Type 0} → (Key → String) → Option Key → String
  public_of public none = "unavailable"
  public_of public (some key) = public key

  -- ReadDaemonInfo with the depth that the status prints
  abbrev live_of : Option Reply → Option Info → Option (String × ℕ × String)
  live_of (some (info version capabilities depth state)) (some i) =
      some (i.version, depth, i.registration_state)
  live_of _ _ = none

  abbrev update_of : Option String → String
  update_of none = "unavailable"
  update_of (some state) = state

  module _ {Body Key : Type 0} (keys : KeyLib Key) (public : Key → String) where
    abbrev status_of :
        Option (Queue Body) → Option KeyFile → Option Reply → Option String → Loaded → Option Status
    status_of q key reply update missing = none
    status_of q key reply update broken = none
    status_of q key reply update (loaded config) = some (record {
      host_id = config.host_id;
      registration = config.registration_state;
      endpoint = config.endpoint;
      queue_depth = depth_of q;
      public_key = public_of public (load_private_key keys key);
      live = live_of reply (read_daemon_info reply);
      update = update_of update;
    })

    -- runStatus, with the queue if it opens, the key's file, the daemon's reply, and the state that
    -- InspectUpdate gives
    unfoldable pub run_status :
        List String
        → Stored
        → Option (Queue Body)
        → Option KeyFile
        → Option Reply
        → Option String
        → Option Status
    run_status [] stored q key reply update = status_of q key reply update (load_config net stored)
    run_status (a ∷ rest) stored q key reply update = none

-- The first argument of `hooks`.
pub data HooksAction : Type 0 where
  hooks_install hooks_uninstall hooks_status hooks_other : HooksAction

module _ {Raw Text : Type 0} (json : Json Raw) (files : Files Raw Text) where
  abbrev is_installed : Option Bool → Bool
  is_installed none = false
  is_installed (some b) = b

  -- runHooks on the absolute path of the agent; true is a nil error
  unfoldable pub run_hooks :
      HooksAction → String → Faults Text → HooksDisk Text → Bool × HooksDisk Text
  run_hooks hooks_install agent faults disk =
      install_file json files faults (hook_command agent) disk
  run_hooks hooks_uninstall agent faults disk =
      uninstall_file json files faults (hook_command agent) disk
  run_hooks hooks_status agent faults disk = (
    is_installed
        (installed json (hook_command agent) (load json files faults.is_readable disk.file)),
    disk,
  )
  run_hooks hooks_other agent faults disk = (false, disk)

-- What runAppServer is asked for, by its one argument.
pub data AppServerAction : Type 0 where
  update_status restart_when_updated restart_now : AppServerAction

abbrev action_of : String → Option AppServerAction
action_of name =
    if str_eq name "update-status"
    then some update_status
    else if str_eq name "restart-if-updated"
    then some restart_when_updated
    else if str_eq name "restart"
    then some restart_now
    else none

-- What runAppServer meets: the home directory, whether InspectUpdate finds that a restart is required
-- (`none` is an error), what RestartIfUpdated gives, and whether Restart succeeds.
pub record AppServerRun : Type 0 where
  pub home : Option String
  pub inspect : String → Option Bool
  pub restart_if_updated : String → Option Bool
  pub restarts : Bool

abbrev state_text : Option Bool → Option String
state_text none = none
state_text (some required) = some (if required then "restart_required" else "current")

abbrev restarted_text : Option Bool → Option String
restarted_text none = none
restarted_text (some restarted) = some (
    if restarted
    then "NovaScale Codex App Server restart requested for the updated Codex executable."
    else "NovaScale Codex App Server is already using the configured Codex executable.")

abbrev at_home : (String → Option String) → Option String → Option String
at_home f none = none
at_home f (some home) = f home

abbrev act : AppServerRun → Option AppServerAction → Option String
act r none = none
act r (some update_status) = at_home (λ home. state_text (r.inspect home)) r.home
act r (some restart_when_updated) =
    at_home (λ home. restarted_text (r.restart_if_updated home)) r.home
act r (some restart_now) =
    if r.restarts then some "NovaScale Codex App Server restart requested." else none

-- runAppServer
unfoldable pub run_app_server : AppServerRun → List String → Option String
run_app_server r [] = none
run_app_server r (name ∷ []) = act r (action_of name)
run_app_server r (name ∷ other ∷ rest) = none

-- runUninstall after its flags: with --dry-run nothing is done
unfoldable pub run_uninstall :
    {World : Type 0} → Bool → (World → Bool × World) → World → Bool × World
run_uninstall dry_run uninstall world = if dry_run then (true, world) else uninstall world
