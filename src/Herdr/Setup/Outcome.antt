-- ===== src/Herdr/Setup/Outcome.antt =====
-- How InstallHerdr ends (notifications/internal/agent/herdr_setup.go).
use mathlib.Core.Path.{subst}
use nova_codex_bootstrap.Prelude.{
  ◌≡◌, refl, ◌∙◌, inl, inr, String, Bool, true, false, not, ◌&&◌, List, [], ◌∷◌, Option, none, some,
  if◌then◌else◌, if_both, is_empty, Bool-cases,
}
use nova_codex_bootstrap.Config.Endpoint.{NetLib}
use nova_codex_bootstrap.Config.Settings.{Config}
use nova_codex_bootstrap.Config.Files.{Loaded, missing, broken, loaded}
use nova_codex_bootstrap.Queue.Rows.{Queue, Binding, set_herdr_capture_enabled}
use nova_codex_bootstrap.Herdr.Agent.{HerdrAgent}
use nova_codex_bootstrap.Herdr.Socket.{FileLib, herdr_binding_key}
use nova_codex_bootstrap.Herdr.Bindings.{herdr_binding, bind_herdr, bind_herdr_keeps}
use nova_codex_bootstrap.Herdr.Reconcile.{Setting, reconcile_herdr}
use nova_codex_bootstrap.Herdr.Watch.{Visit, needs_binding}
use nova_codex_bootstrap.Herdr.Histories.Rounds.{reconcile_herdr-kept}
use nova_codex_bootstrap.Herdr.Plugin.{
  is_capable, herdr_manifest, plugin_of, read_global_herdr_plugin,
}
use nova_codex_bootstrap.Herdr.Setup.{
  Meeting, Plant, HerdrStatus, is_capturing, opened_queue, session_of, baselined,
  bound_and_baselined, inspect_binding, inspect_socket, inspect_configured, inspect_herdr,
  status_from,
}
use nova_codex_bootstrap.Herdr.Setup.Install.{
  Site, baselined_as, baseline_bound, baseline_read, baseline_one, baseline_all, install_baselined,
  install_linked, install_placed, install_manifest, may_install, install_configured, install_herdr,
}

module _ {Body : Type 0} (env : Setting Body) (lib : FileLib) where
  -- Binding and reconciliation leave capture on.
  reconciled-captures :
      (v : Visit) (b : Binding) (agents : List HerdrAgent) (marker : String) (q r : Queue Body)
      → q.capture ≡ true
      → reconcile_herdr (record env { uuid = v.uuid }) b v.now agents marker true q ≡ some r
      → r.capture ≡ true
  reconciled-captures v b agents marker q r on h =
      elim (reconcile_herdr-kept (record env { uuid = v.uuid }) b v.now agents marker true q r h) [
        | inl same ↦ subst (λ (s : Queue Body). s.capture ≡ true) same on
        | inr (many, still) ↦ still
      ]

  bound-captures :
      (v : Visit) (q r : Queue Body) (key socket : String) (b : Binding)
      → q.capture ≡ true
      → bind_herdr q key socket v.now v.fresh ≡ some (b, r)
      → r.capture ≡ true
  bound-captures v q r key socket b on h =
      (bind_herdr_keeps q key socket v.now v.fresh b r h).1 ∙ on

  baselined_as-captures :
      (v : Visit) (b : Binding) (agents : List HerdrAgent) (marker : String) (q : Queue Body)
      (o : Option (Queue Body))
      → q.capture ≡ true
      → reconcile_herdr (record env { uuid = v.uuid }) b v.now agents marker true q ≡ o
      → (baselined_as env lib q o).1.capture ≡ true
  baselined_as-captures v b agents marker q none on h = on
  baselined_as-captures v b agents marker q (some r) on h =
      reconciled-captures v b agents marker q r on h

  baseline_bound-captures :
      (v : Visit) (agents : List HerdrAgent) (marker : String) (q : Queue Body)
      (key socket : String) (o : Option (Binding × Queue Body))
      → q.capture ≡ true
      → bind_herdr q key socket v.now v.fresh ≡ o
      → (baseline_bound env lib v agents marker q o).1.capture ≡ true
  baseline_bound-captures v agents marker q key socket none on h = on
  baseline_bound-captures v agents marker q key socket (some (b, r)) on h =
      baselined_as-captures v b agents marker r
        (reconcile_herdr (record env { uuid = v.uuid }) b v.now agents marker true r)
        (bound-captures v q r key socket b on h) refl

  baseline_read-captures :
      (socket : String) (v : Visit) (q : Queue Body) (o : Option (List HerdrAgent × String))
      → q.capture ≡ true
      → (baseline_read env lib socket v q o).1.capture ≡ true
  baseline_read-captures socket v q none on = on
  baseline_read-captures socket v q (some (agents, marker)) on =
      baseline_bound-captures v agents marker q (herdr_binding_key lib socket) socket
        (bind_herdr q (herdr_binding_key lib socket) socket v.now v.fresh) on refl

  baseline_all-captures :
      (sockets : List (String × Visit)) (s : Bool × Queue Body)
      → s.1.capture ≡ true
      → (baseline_all env lib sockets s).1.capture ≡ true
  unfolding baseline_all baseline_one
  baseline_all-captures [] (true, q) on = on
  baseline_all-captures (v ∷ sockets) (false, q) on = on
  baseline_all-captures [] (false, q) on = on
  baseline_all-captures ((socket, v) ∷ sockets) (true, q) on =
      baseline_all-captures sockets (baseline_read env lib socket v q (v.read socket))
        (baseline_read-captures socket v q (v.read socket) on)

  baselined-captures :
      (v : Visit) (b : Binding) (agents : List HerdrAgent) (marker : String) (q : Queue Body)
      (o : Option (Queue Body))
      → q.capture ≡ true
      → reconcile_herdr (record env { uuid = v.uuid }) b v.now agents marker true q ≡ o
      → (baselined env lib b q o).1.capture ≡ true
  baselined-captures v b agents marker q none on h = on
  baselined-captures v b agents marker q (some r) on h =
      reconciled-captures v b agents marker q r on h

  bound_and_baselined-captures :
      (v : Visit) (agents : List HerdrAgent) (marker : String) (q : Queue Body)
      (key socket : String) (o : Option (Binding × Queue Body))
      → q.capture ≡ true
      → bind_herdr q key socket v.now v.fresh ≡ o
      → (bound_and_baselined env lib v agents marker q o).1.capture ≡ true
  bound_and_baselined-captures v agents marker q key socket none on h = on
  bound_and_baselined-captures v agents marker q key socket (some (b, r)) on h =
      baselined-captures v b agents marker r
        (reconcile_herdr (record env { uuid = v.uuid }) b v.now agents marker true r)
        (bound-captures v q r key socket b on h) refl

  inspect_binding-captures :
      (v : Visit) (socket : String) (may_bind : Bool) (q : Queue Body)
      (o : Option (List HerdrAgent × String))
      → q.capture ≡ true
      → (inspect_binding env lib v socket may_bind q o).1.capture ≡ true
  unfolding inspect_binding
  inspect_binding-captures v socket may_bind q none on = on
  inspect_binding-captures v socket may_bind q (some (agents, marker)) on =
      let key = herdr_binding_key lib socket in
      let found = herdr_binding q key in
      let fresh = bind_herdr q key socket v.now v.fresh in
      if_both (λ (s : Option (String × Bool) × Queue Body). s.1.capture ≡ true)
        (q.capture && may_bind && needs_binding found)
        (bound_and_baselined env lib v agents marker q fresh) (session_of env lib found, q)
        (bound_and_baselined-captures v agents marker q key socket fresh on refl) on

  inspect_herdr-captures :
      (m : Meeting) (socket version : String) (q : Queue Body) (o : Loaded)
      → q.capture ≡ true
      → is_capturing (inspect_configured env lib m socket version (some q) o).1 ≡ true
  inspect_herdr-captures m socket version q missing on = on
  inspect_herdr-captures m socket version q broken on = on
  inspect_herdr-captures m socket version q (loaded config) on =
      let P = λ (r : Option HerdrStatus × Option (Queue Body)). is_capturing r.1 ≡ true in
      let plain : Option HerdrStatus × Option (Queue Body) = (
        some (
            status_from env lib m config version q.capture (read_global_herdr_plugin m.registry)
              false false none),
        some q,
      ) in
      let told = inspect_socket env lib m config socket version (some q) (m.visit.read socket) in
      let may_bind = is_capable "herdr-host-capture-v1" m.daemon && (plugin_of m.listed).enabled in
      if_both P (not m.opened) (none, some q) (if is_empty socket then plain else told) on
        (if_both P (is_empty socket) plain told on
          (inspect_binding-captures m.visit socket may_bind q (m.visit.read socket) on))

-- How an installation ends, from what there was.
pub data Installs {Body : Type 0} (net : NetLib) (site : Site) (p : Plant Body)
    : Option HerdrStatus × Plant Body → Type 0 where
  stopped :
      (r : Plant Body)
      → r.linked ≡ p.linked
      → is_capturing r.database ≡ is_capturing p.database
      → Installs net site p (none, r)
  installed :
      (config : Config) (o : Option HerdrStatus × Plant Body)
      → site.meeting.config ≡ loaded config
      → may_install net site config ≡ true
      → o.1.linked ≡ true
      → is_capturing o.1.database ≡ true
      → Installs net site p o

module _ {Body : Type 0} (env : Setting Body) (lib : FileLib) (net : NetLib)
    (quote : String → String) where
  install_baselined-captures :
      (site : Site) (socket version : String) (p : Plant Body) (s : Bool × Queue Body)
      → p.linked ≡ true
      → s.1.capture ≡ true
      → ((install_baselined env lib site socket version p s).1.linked ≡ true)
        × (is_capturing (install_baselined env lib site socket version p s).1.database ≡ true)
  unfolding inspect_herdr
  install_baselined-captures site socket version p (false, q) l on = (l, on)
  install_baselined-captures site socket version p (true, q) l on =
      (l, inspect_herdr-captures env lib site.meeting socket version q site.meeting.config on)

  install_linked-captures :
      (site : Site) (socket version : String) (p : Plant Body) (q : Queue Body)
      → p.linked ≡ true
      → ((install_linked env lib site socket version p q).1.linked ≡ true)
        × (is_capturing (install_linked env lib site socket version p q).1.database ≡ true)
  unfolding install_linked set_herdr_capture_enabled
  install_linked-captures site socket version p q l =
      let on : Queue Body = record q { capture = true } in
      install_baselined-captures site socket version p
        (baseline_all env lib site.sockets (true, on)) l
        (baseline_all-captures env lib site.sockets (true, on) refl)

  same_capture : (o : Option (Queue Body)) → (opened_queue o).capture ≡ is_capturing o
  same_capture none = refl
  same_capture (some q) = refl

  install_placed-Installs :
      (site : Site) (config : Config) (socket version : String) (p : Plant Body) (manifest : String)
      → site.meeting.config ≡ loaded config
      → may_install net site config ≡ true
      → Installs net site p
          (install_placed env lib site socket version (record p { manifest = some manifest }))
  unfolding install_placed
  install_placed-Installs site config socket version p manifest given allowed =
      let q = opened_queue p.database in
      let placed : Plant Body = record p { manifest = some manifest } in
      let opened : Plant Body = record placed { database = some q } in
      let linked : Plant Body = record opened { linked = true } in
      let done = install_linked env lib site socket version linked q in
      let (l, on) = install_linked-captures site socket version linked q refl in
      if_both (Installs net site p) (not site.meeting.opened) (none, placed)
        (if not site.links then (none, opened) else done) (stopped placed refl refl)
        (if_both (Installs net site p) (not site.links) (none, opened) done
          (stopped opened refl (same_capture p.database))
          (installed config done given allowed l on))

  install_manifest-Installs :
      (site : Site) (config : Config) (socket version : String) (p : Plant Body) (o : Option String)
      → site.meeting.config ≡ loaded config
      → may_install net site config ≡ true
      → Installs net site p (install_manifest env lib site socket version p o)
  install_manifest-Installs site config socket version p none given allowed = stopped p refl refl
  install_manifest-Installs site config socket version p (some manifest) given allowed =
      if_both (Installs net site p) site.placed
        (install_placed env lib site socket version (record p { manifest = some manifest }))
        (none, p) (install_placed-Installs site config socket version p manifest given allowed)
        (stopped p refl refl)

  install_configured-Installs :
      (site : Site) (socket binary version : String) (p : Plant Body) (o : Loaded)
      → site.meeting.config ≡ o
      → Installs net site p (install_configured env lib net quote site socket binary version p o)
  install_configured-Installs site socket binary version p missing given = stopped p refl refl
  install_configured-Installs site socket binary version p broken given = stopped p refl refl
  install_configured-Installs site socket binary version p (loaded config) given =
      let manifest = herdr_manifest lib quote binary in
      elim (Bool-cases (may_install net site config)) [
        | inl allowed ↦
            rw allowed
              (install_manifest-Installs site config socket version p manifest given allowed)
        | inr denied ↦ rw denied (stopped p refl refl)
      ]

  -- An installation of the Herdr plugin either fails before the plugin is linked, and then leaves
  -- whether it is linked and whether capture is on, or was allowed by the backend and by the
  -- daemon's capabilities, and then leaves the plugin linked and capture on, even if it fails.
  pub install_herdr-Installs :
      (site : Site) (socket binary version : String) (p : Plant Body)
      → Installs net site p (install_herdr env lib net quote site socket binary version p)
  unfolding install_herdr
  install_herdr-Installs site socket binary version p =
      install_configured-Installs site socket binary version p site.meeting.config refl
