-- ===== src/Herdr/Plugin.antt =====
-- The Herdr plugin as the daemon, Herdr and the backend know it: HerdrManifest of
-- notifications/internal/agent/herdr_setup.go, readGlobalHerdrPlugin of herdr_capture.go,
-- HerdrBackendSupported of herdr_api.go, and what ReadDaemonInfo of ipc.go makes of the reply.
use Prim.Native.String.{◌++◌}
use nova_codex_bootstrap.Prelude.{
  ℕ, String, Bool, true, false, not, ◌&&◌, List, [], ◌∷◌, any, Option, none, some, ◌==◌, str_eq,
  is_empty, if◌then◌else◌,
}
use nova_codex_bootstrap.Config.Endpoint.{NetLib, trim_slashes, parse_notification_endpoint}
use nova_codex_bootstrap.Ingress.Connection.{Reply, accepted, refused, info}
use nova_codex_bootstrap.Herdr.Socket.{FileLib}

abbrev pub plugin_id : String
plugin_id = "novascale.notifications"

-- What the daemon says of itself.
pub record Info : Type 0 where
  pub version : String
  pub capabilities : List String
  pub registration_state : String

-- ReadDaemonInfo, from the daemon's reply; `none` is an error
unfoldable pub read_daemon_info : Option Reply → Option Info
read_daemon_info none = none
read_daemon_info (some accepted) = none
read_daemon_info (some (refused message)) = none
read_daemon_info (some (info version capabilities depth state)) =
    if is_empty version
    then none
    else some
        (record { version = version; capabilities = capabilities; registration_state = state })

unfoldable pub is_capable : String → Option Info → Bool
is_capable capability none = false
is_capable capability (some i) = any (str_eq capability) i.capabilities

pub record Plugin : Type 0 where
  pub id : String
  pub enabled : Bool
  pub has_warnings : Bool

pub record PluginState : Type 0 where
  pub installed : Bool
  pub enabled : Bool

abbrev pub state_of : Plugin → PluginState
state_of p = record { installed = true; enabled = p.enabled && not p.has_warnings }

abbrev pub absent : PluginState
absent = record { installed = false; enabled = false }

-- the loop of readGlobalHerdrPlugin stops at the first plugin of the name
unfoldable pub first_plugin : List Plugin → PluginState
first_plugin [] = absent
first_plugin (p ∷ ps) =
    let rest = first_plugin ps in if str_eq p.id plugin_id then state_of p else rest

-- readGlobalHerdrPlugin; `none` is a command that fails or whose output is no JSON
unfoldable pub read_global_herdr_plugin : Option (List Plugin) → PluginState
unfolding first_plugin
read_global_herdr_plugin none = absent
read_global_herdr_plugin (some ps) = first_plugin ps

-- the loop of InspectHerdr runs to the end
unfoldable pub last_plugin : PluginState → List Plugin → PluginState
last_plugin s [] = s
last_plugin s (p ∷ ps) = last_plugin (if str_eq p.id plugin_id then state_of p else s) ps

abbrev pub plugin_of : Option (List Plugin) → PluginState
plugin_of none = absent
plugin_of (some ps) = last_plugin absent ps

-- A reply of the backend: its status, and `herdr` and `sharedPushAllowance` of its body, if that decodes.
pub record Backend : Type 0 where
  pub status : ℕ
  pub body : Option (Bool × Bool)

abbrev offers : Option (Bool × Bool) → Bool
offers none = false
offers (some (herdr, shared)) = herdr && shared

abbrev supports : Option Backend → Bool
supports none = false
supports (some r) = r.status == 200 && offers r.body

-- HerdrBackendSupported; true is a nil error. `get` is the request.
unfoldable pub herdr_backend_supported : NetLib → (String → Option Backend) → String → Bool
herdr_backend_supported net get endpoint = elim (parse_notification_endpoint net endpoint) [
  | none ↦ false
  | some url ↦
      supports
        (get (net.to_string (record url { path = trim_slashes url.path ++ "/v2/capabilities" })))
]

-- HerdrManifest, with strconv.Quote; `none` is an error
unfoldable pub herdr_manifest : FileLib → (String → String) → String → Option String
herdr_manifest lib quote binary =
    let command = "command = [" ++ quote binary ++ ", \"herdr-hook\"]\n" in
    if not (lib.is_abs binary)
    then none
    else some (
        "id = \"" ++ plugin_id
        ++ "\"\nname = \"NovaScale Notifications\"\nversion = \"1.1.0\"\nmin_herdr_version = \"0.9.1\"\nplatforms = [\"linux\", \"macos\"]\n\n[[startup]]\n"
        ++ command ++ "\n[[events]]\non = \"pane.agent_status_changed\"\n" ++ command)
