-- ===== src/Herdr/Setup.antt =====
-- InspectHerdr of notifications/internal/agent/herdr_setup.go, and what it reads.
pub mod Install
pub mod Outcome
use Prim.Native.String.{◌++◌}
use nova_codex_bootstrap.Prelude.{
  ℕ, String, Bool, true, false, not, ◌&&◌, ◌||◌, List, [], ◌∷◌, any, Option, none, some, ◌==◌,
  str_eq, is_empty, if◌then◌else◌,
}
use nova_codex_bootstrap.Config.Endpoint.{Url, NetLib, trim_slashes, parse_notification_endpoint}
use nova_codex_bootstrap.Config.Settings.{Config, registration_active}
use nova_codex_bootstrap.Config.Files.{Loaded, missing, broken, loaded}
use nova_codex_bootstrap.Queue.Rows.{Queue, Binding, set_herdr_capture_enabled}
use nova_codex_bootstrap.Ingress.Connection.{Reply, accepted, refused, info}
use nova_codex_bootstrap.Herdr.Agent.{HerdrAgent}
use nova_codex_bootstrap.Herdr.Socket.{FileLib, herdr_binding_key}
use nova_codex_bootstrap.Herdr.Bindings.{herdr_binding, bind_herdr}
use nova_codex_bootstrap.Herdr.Reconcile.{Setting, reconcile_herdr}
use nova_codex_bootstrap.Herdr.Watch.{Visit, needs_binding}
use nova_codex_bootstrap.Herdr.Plugin.{
  Backend, Info, Plugin, PluginState, absent, first_plugin, herdr_backend_supported, herdr_manifest,
  is_capable, last_plugin, plugin_id, plugin_of, read_daemon_info, read_global_herdr_plugin,
  state_of,
}

pub record HerdrStatus : Type 0 where
  pub host_id : String
  pub endpoint : String
  pub registration_state : String
  pub agent_version : String
  pub daemon_version : String
  pub daemon_capabilities : List String
  pub session_id : String
  pub socket_ready : Bool
  pub plugin_installed : Bool
  pub plugin_enabled : Bool
  pub ready : Bool
  pub host_ready : Bool

-- What InspectHerdr meets: the configuration, the daemon, whether the database opens, the plugins that
-- the registry and the socket list, and one visit of the socket.
pub record Meeting : Type 0 where
  pub config : Loaded
  pub daemon : Option Info
  pub opened : Bool
  pub registry : Option (List Plugin)
  pub listed : Option (List Plugin)
  pub visit : Visit

-- A database that is made by OpenQueue.
abbrev pub new_queue : {Body : Type 0} → Queue Body
new_queue = record {
  pending = [];
  endpoint = none;
  bindings = [];
  panes = [];
  capture = false;
  last_source = "";
}

abbrev pub opened_queue : {Body : Type 0} → Option (Queue Body) → Queue Body
opened_queue none = new_queue
opened_queue (some q) = q

-- The plugin's manifest, whether Herdr has it linked, and the queue.
pub record Plant (Body : Type 0) : Type 0 where
  pub manifest : Option String
  pub linked : Bool
  pub database : Option (Queue Body)

abbrev pub is_capturing : {Body : Type 0} → Option (Queue Body) → Bool
is_capturing none = false
is_capturing (some q) = q.capture

module _ {Body : Type 0} (env : Setting Body) (lib : FileLib) where
  abbrev pub daemon_version_of : Option Info → String
  daemon_version_of none = ""
  daemon_version_of (some i) = i.version

  abbrev pub capabilities_of : Option Info → List String
  capabilities_of none = []
  capabilities_of (some i) = i.capabilities

  abbrev pub state_or : String → Option Info → String
  state_or state none = state
  state_or state (some i) = i.registration_state

  -- The session and whether its binding is enabled; `none` is an error.
  abbrev pub session_of : Option Binding → Option (String × Bool)
  session_of none = none
  session_of (some b) = some (b.session_id, b.enabled)

  abbrev pub baselined :
      Binding → Queue Body → Option (Queue Body) → Option (String × Bool) × Queue Body
  baselined b q none = (none, q)
  baselined b q (some r) = (some (b.session_id, b.enabled), r)

  abbrev pub bound_and_baselined :
      Visit
      → List HerdrAgent
      → String
      → Queue Body
      → Option (Binding × Queue Body)
      → Option (String × Bool) × Queue Body
  bound_and_baselined v agents marker q none = (none, q)
  bound_and_baselined v agents marker q (some (b, r)) =
      baselined b r (reconcile_herdr (record env { uuid = v.uuid }) b v.now agents marker true r)

  unfoldable pub inspect_binding :
      Visit
      → String
      → Bool
      → Queue Body
      → Option (List HerdrAgent × String)
      → Option (String × Bool) × Queue Body
  inspect_binding v socket may_bind q none =
      (session_of (herdr_binding q (herdr_binding_key lib socket)), q)
  inspect_binding v socket may_bind q (some (agents, marker)) =
      let key = herdr_binding_key lib socket in
      let found = herdr_binding q key in
      if q.capture && may_bind && needs_binding found
      then bound_and_baselined v agents marker q (bind_herdr q key socket v.now v.fresh)
      else (session_of found, q)

  abbrev pub inspect_database :
      Visit
      → String
      → Bool
      → Option (Queue Body)
      → Option (List HerdrAgent × String)
      → Option (String × Bool) × Option (Queue Body)
  inspect_database v socket may_bind none agents = (none, none)
  inspect_database v socket may_bind (some q) agents =
      let (session, r) = inspect_binding v socket may_bind q agents in (session, some r)

  abbrev is_there : Option (List HerdrAgent × String) → Bool
  is_there none = false
  is_there (some a) = true

  abbrev session_name_of : Option (String × Bool) → String
  session_name_of none = ""
  session_name_of (some (id, enabled)) = id

  abbrev session_enabled : Option (String × Bool) → Bool
  session_enabled none = false
  session_enabled (some (id, enabled)) = enabled

  -- the status, with the plugin, whether capture is on, and what was found of the socket
  unfoldable pub status_from :
      Meeting
      → Config
      → String
      → Bool
      → PluginState
      → Bool
      → Bool
      → Option (String × Bool)
      → HerdrStatus
  status_from m config version capturing plugin with_socket socket_ready session =
      let state = state_or config.registration_state m.daemon in
      let host_ready =
        is_capable "herdr-v2" m.daemon
        && is_capable "herdr-host-capture-v1" m.daemon
        && capturing
        && plugin.enabled
        && str_eq state registration_active in
      let id = session_name_of session in
      record {
        host_id = config.host_id;
        endpoint = config.endpoint;
        registration_state = state;
        agent_version = version;
        daemon_version = daemon_version_of m.daemon;
        daemon_capabilities = capabilities_of m.daemon;
        session_id = id;
        socket_ready = socket_ready;
        plugin_installed = plugin.installed;
        plugin_enabled = plugin.enabled;
        ready =
            if with_socket
            then host_ready && socket_ready && session_enabled session && not (is_empty id)
            else host_ready;
        host_ready = host_ready;
      }

  abbrev pub inspect_socket :
      Meeting
      → Config
      → String
      → String
      → Option (Queue Body)
      → Option (List HerdrAgent × String)
      → Option HerdrStatus × Option (Queue Body)
  inspect_socket m config socket version database agents =
      let plugin = plugin_of m.listed in
      let may_bind = is_capable "herdr-host-capture-v1" m.daemon && plugin.enabled in
      let (session, r) = inspect_database m.visit socket may_bind database agents in
      (
        some (
            status_from m config version (is_capturing database) plugin true (is_there agents)
              session),
        r,
      )

  abbrev pub cannot_open : Bool → Option (Queue Body) → Bool
  cannot_open opened none = false
  cannot_open opened (some q) = not opened

  abbrev pub inspect_configured :
      Meeting
      → String
      → String
      → Option (Queue Body)
      → Loaded
      → Option HerdrStatus × Option (Queue Body)
  inspect_configured m socket version database (loaded config) =
      if cannot_open m.opened database
      then (none, database)
      else if is_empty socket
      then (
        some (
            status_from m config version (is_capturing database)
              (read_global_herdr_plugin m.registry) false false none),
        database,
      )
      else inspect_socket m config socket version database (m.visit.read socket)
  inspect_configured m socket version database _ = (none, database)

  -- InspectHerdr: the status, `none` on an error, and the queue after it
  unfoldable pub inspect_herdr :
      Meeting → String → String → Option (Queue Body) → Option HerdrStatus × Option (Queue Body)
  unfolding inspect_binding status_from
  inspect_herdr m socket version database = inspect_configured m socket version database m.config
