-- ===== src/Herdr/Setup/Install.antt =====
-- InstallHerdr and UninstallHerdr of notifications/internal/agent/herdr_setup.go.

use nova_codex_bootstrap.Prelude.{
  String, Bool, true, false, not, ◌&&◌, List, [], ◌∷◌, Option, none, some, if◌then◌else◌,
}
use nova_codex_bootstrap.Config.Endpoint.{NetLib}
use nova_codex_bootstrap.Config.Settings.{Config}
use nova_codex_bootstrap.Config.Files.{Loaded, loaded}
use nova_codex_bootstrap.Queue.Rows.{Queue, Binding, set_herdr_capture_enabled}
use nova_codex_bootstrap.Herdr.Agent.{HerdrAgent}
use nova_codex_bootstrap.Herdr.Socket.{FileLib, herdr_binding_key}
use nova_codex_bootstrap.Herdr.Bindings.{bind_herdr}
use nova_codex_bootstrap.Herdr.Reconcile.{Setting, reconcile_herdr}
use nova_codex_bootstrap.Herdr.Watch.{Visit}
use nova_codex_bootstrap.Herdr.Plugin.{Backend, is_capable, herdr_backend_supported, herdr_manifest}
use nova_codex_bootstrap.Herdr.Setup.{Meeting, Plant, HerdrStatus, opened_queue, inspect_herdr}

-- What InstallHerdr meets: the backend, whether the manifest can be written, whether Herdr links the
-- plugin, the sockets to be baselined with their visits, and what the inspection at its end meets.
pub record Site : Type 0 where
  pub get : String → Option Backend
  pub placed : Bool
  pub links : Bool
  pub sockets : List (String × Visit)
  pub meeting : Meeting

-- the backend and the daemon are asked before anything is changed
abbrev pub may_install : NetLib → Site → Config → Bool
may_install net site config =
    herdr_backend_supported net site.get config.endpoint
    && is_capable "herdr-v2" site.meeting.daemon
    && is_capable "herdr-host-capture-v1" site.meeting.daemon

module _ {Body : Type 0} (env : Setting Body) (lib : FileLib) where
  abbrev pub baselined_as : Queue Body → Option (Queue Body) → Bool × Queue Body
  baselined_as q none = (false, q)
  baselined_as q (some r) = (true, r)

  abbrev pub baseline_bound :
      Visit
      → List HerdrAgent
      → String
      → Queue Body
      → Option (Binding × Queue Body)
      → Bool × Queue Body
  baseline_bound v agents marker q none = (false, q)
  baseline_bound v agents marker q (some (b, r)) =
      baselined_as r (reconcile_herdr (record env { uuid = v.uuid }) b v.now agents marker true r)

  abbrev pub baseline_read :
      String → Visit → Queue Body → Option (List HerdrAgent × String) → Bool × Queue Body
  baseline_read socket v q none = (true, q)
  baseline_read socket v q (some (agents, marker)) =
      baseline_bound v agents marker q
        (bind_herdr q (herdr_binding_key lib socket) socket v.now v.fresh)

  -- A socket that cannot be read is passed over; the Boolean is false if binding or baselining fails.
  unfoldable pub baseline_one : String → Visit → Queue Body → Bool × Queue Body
  baseline_one socket v q = baseline_read socket v q (v.read socket)

  -- The loop stops at the first failure.
  unfoldable pub baseline_all : List (String × Visit) → Bool × Queue Body → Bool × Queue Body
  baseline_all sockets (false, q) = (false, q)
  baseline_all [] (true, q) = (true, q)
  baseline_all ((socket, v) ∷ sockets) (true, q) = baseline_all sockets (baseline_one socket v q)

  abbrev pub with_database :
      Plant Body → Option HerdrStatus × Option (Queue Body) → Option HerdrStatus × Plant Body
  with_database p (status, database) = (status, record p { database = database })

  abbrev pub install_baselined :
      Site → String → String → Plant Body → Bool × Queue Body → Option HerdrStatus × Plant Body
  install_baselined site socket version p (false, q) = (none, record p { database = some q })
  install_baselined site socket version p (true, q) =
      with_database p (inspect_herdr env lib site.meeting socket version (some q))

  -- the plugin is linked
  unfoldable pub install_linked :
      Site → String → String → Plant Body → Queue Body → Option HerdrStatus × Plant Body
  unfolding baseline_all
  install_linked site socket version p q =
      install_baselined site socket version p
        (baseline_all site.sockets (true, set_herdr_capture_enabled q true))

  -- the manifest is in place
  unfoldable pub install_placed :
      Site → String → String → Plant Body → Option HerdrStatus × Plant Body
  unfolding install_linked
  install_placed site socket version p =
      let q = opened_queue p.database in
      let opened : Plant Body = record p { database = some q } in
      if not site.meeting.opened
      then (none, p)
      else if not site.links
      then (none, opened)
      else install_linked site socket version (record opened { linked = true }) q

  abbrev pub install_manifest :
      Site → String → String → Plant Body → Option String → Option HerdrStatus × Plant Body
  install_manifest site socket version p none = (none, p)
  install_manifest site socket version p (some manifest) =
      if site.placed
      then install_placed site socket version (record p { manifest = some manifest })
      else (none, p)

module _ {Body : Type 0} (env : Setting Body) (lib : FileLib) (net : NetLib)
    (quote : String → String) where
  abbrev pub install_configured :
      Site → String → String → String → Plant Body → Loaded → Option HerdrStatus × Plant Body
  install_configured site socket binary version p (loaded config) =
      if may_install net site config
      then install_manifest env lib site socket version p (herdr_manifest lib quote binary)
      else (none, p)
  install_configured site socket binary version p _ = (none, p)

  -- InstallHerdr: the status, `none` on an error, and what is left
  unfoldable pub install_herdr :
      Site → String → String → String → Plant Body → Option HerdrStatus × Plant Body
  unfolding install_placed
  install_herdr site socket binary version p =
      install_configured site socket binary version p site.meeting.config

-- UninstallHerdr: true is a nil error. The flags say that the database opens and that Herdr removes
-- the plugin.
unfoldable pub uninstall_herdr : {Body : Type 0} → Bool → Bool → Plant Body → Bool × Plant Body
uninstall_herdr opens removes p =
    let q = set_herdr_capture_enabled (opened_queue p.database) false in
    if opens
    then (removes, record p { linked = p.linked && not removes; database = some q })
    else (false, p)
