-- ===== src/Cli/Uninstall/Parts.antt =====
-- Which parts of the host the removal of the hooks, the plugin and the queue leaves
-- (notifications/cmd/novascale-agent/uninstall.go).
use nova_codex_bootstrap.Prelude.{
  ◌≡◌, refl, Bool, true, false, not, ◌||◌, Option, none, some, if◌then◌else◌, if_both,
}
use nova_codex_bootstrap.HookConfig.Document.{Json, Loaded, document, Outcome, uninstall}
use nova_codex_bootstrap.Queue.Rows.{Queue, clear_notification_capture}
use nova_codex_bootstrap.Herdr.Setup.{Plant}
use nova_codex_bootstrap.Herdr.Setup.Install.{uninstall_herdr}
use nova_codex_bootstrap.Cli.Shell.{hook_command}
use nova_codex_bootstrap.Cli.Uninstall.{
  Machine, Options, Circumstances, remove_hooks, hooks_after, remove_plugin, clear_queue,
  cleared_queue, with_plant, has_manifest,
}
use nova_codex_bootstrap.Cli.Uninstall.Runs.{Keeps}

module _ {Raw Body : Type 0} where
  hooks_after-keeps :
      {A : Type 0} (f : Machine Raw Body → A) (written : Bool) (m : Machine Raw Body)
      (o : Outcome Raw)
      → ((d : Loaded Raw) → f (record m { hooks = d }) ≡ f m)
      → f (hooks_after written m o).1 ≡ f m
  hooks_after-keeps f written m Outcome.failed h = refl
  hooks_after-keeps f written m Outcome.unchanged h = refl
  hooks_after-keeps f written m Outcome.panicked h = refl
  hooks_after-keeps f true m (Outcome.saved d) h = h (document (some d))
  hooks_after-keeps f false m (Outcome.saved d) h = refl

  -- The parts that only the last steps or a purge change.
  pub record Frame {A : Type 0} (f : Machine Raw Body → A) : Type 0 where
    pub hooks : (m : Machine Raw Body) (d : Loaded Raw) → f (record m { hooks = d }) ≡ f m
    pub plant : (m : Machine Raw Body) (p : Plant Body) → f (record m { plant = p }) ≡ f m

  with_plant-keeps :
      {A : Type 0} (f : Machine Raw Body → A)
      → Frame f
      → (m : Machine Raw Body) (s : Bool × Plant Body) → f (with_plant m s).1 ≡ f m
  with_plant-keeps f h m (ok, p) = h.plant m p

  cleared_queue-keeps :
      {A : Type 0} (f : Machine Raw Body → A) (c : Circumstances)
      → Frame f
      → (m : Machine Raw Body) (o : Option (Queue Body)) → f (cleared_queue c m o).1 ≡ f m
  cleared_queue-keeps f c h m none = refl
  cleared_queue-keeps f c h m (some q) =
      let plant = m.plant in
      let cleared : Plant Body = record plant { database = some (clear_notification_capture q) } in
      if_both (λ (s : Bool × Machine Raw Body). f s.1 ≡ f m) (not c.opened || not c.cleared)
        (false, m) (c.closed, record m { plant = cleared }) refl (h.plant m cleared)

  pub remove_hooks-Keeps :
      {A : Type 0} (f : Machine Raw Body → A) (json : Json Raw) (c : Circumstances) (o : Options)
      → Frame f
      → Keeps f (remove_hooks json c o)
  unfolding remove_hooks
  remove_hooks-Keeps f json c o h m =
      hooks_after-keeps f c.hooks_written m (uninstall json (hook_command o.binary) m.hooks)
        (h.hooks m)

  pub remove_plugin-Keeps :
      {A : Type 0} (f : Machine Raw Body → A) (c : Circumstances)
      → Frame f
      → Keeps f (remove_plugin c)
  unfolding remove_plugin
  remove_plugin-Keeps f c h m =
      let P = λ (s : Bool × Machine Raw Body). f s.1 ≡ f m in
      let done = with_plant m (uninstall_herdr c.herdr_opens c.herdr_removes m.plant) in
      if_both P (not c.manifest_known) (false, m)
        (if has_manifest m.plant.manifest then done else (true, m)) refl
        (if_both P (has_manifest m.plant.manifest) done (true, m)
          (with_plant-keeps f h m (uninstall_herdr c.herdr_opens c.herdr_removes m.plant)) refl)

  pub clear_queue-Keeps :
      {A : Type 0} (f : Machine Raw Body → A) (c : Circumstances)
      → Frame f
      → Keeps f (clear_queue c)
  unfolding clear_queue
  clear_queue-Keeps f c h m =
      if_both (λ (s : Bool × Machine Raw Body). f s.1 ≡ f m) c.database_known
        (cleared_queue c m m.plant.database) (false, m)
        (cleared_queue-keeps f c h m m.plant.database) refl
