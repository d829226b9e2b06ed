-- ===== src/Herdr/Watch/Signals.antt =====
-- What the daemon's Herdr loop leaves of the rest of the daemon (notifications/internal/agent/herdr_state.go
-- and herdr_capture.go).
use nova_codex_bootstrap.Prelude.{
  ◌≡◌, refl, ◌∙◌, String, Bool, not, List, [], ◌∷◌, Option, none, some, is_empty, if◌then◌else◌,
  if_both,
}
use nova_codex_bootstrap.Protocol.Event.{HerdrDirtyEvent}
use nova_codex_bootstrap.Queue.Rows.{Queue, Binding}
use nova_codex_bootstrap.Ingress.Connection.{Service}
use nova_codex_bootstrap.Herdr.Agent.{HerdrAgent}
use nova_codex_bootstrap.Herdr.Socket.{FileLib, herdr_binding_key}
use nova_codex_bootstrap.Herdr.Bindings.{herdr_binding, bind_herdr}
use nova_codex_bootstrap.Herdr.Reconcile.{Setting, reconcile_herdr}
use nova_codex_bootstrap.Herdr.Watch.{
  Visit, is_unknown, found_signal, settled, observed_by, after_binding, with_binding, with_agents,
  socket_of, reconcile_dirty, discover_each, discover,
}

module _ {Body : Type 0} where
  -- A service whose queue and whether an upload is due have changed at most.
  pub record SameSignals (s t : Service Body) : Type 0 where
    pub config : t.config ≡ s.config
    pub dirty : t.dirty ≡ s.dirty

module _ {Body : Type 0} (setting : Setting Body) (files : FileLib) where
  settled-SameSignals :
      (s : Service Body) (o : Option (Queue Body)) → SameSignals s (settled setting files s o)
  settled-SameSignals s none = record { config = refl; dirty = refl }
  settled-SameSignals s (some q) = record { config = refl; dirty = refl }

  after_binding-SameSignals :
      (v : Visit) (baseline : Bool) (agents : List HerdrAgent) (marker : String) (s : Service Body)
      (o : Option (Binding × Queue Body))
      → SameSignals s (after_binding setting files v baseline agents marker s o)
  after_binding-SameSignals v baseline agents marker s none = record { config = refl; dirty = refl }
  after_binding-SameSignals v baseline agents marker s (some (b, q)) =
      let t : Service Body = record s { queue = q } in
      let same =
        settled-SameSignals t
          (reconcile_herdr (record setting { uuid = v.uuid }) b v.now agents marker baseline q) in
      record { config = same.config; dirty = same.dirty }

  with_binding-SameSignals :
      (v : Visit) (e : HerdrDirtyEvent) (agents : List HerdrAgent) (marker : String)
      (s : Service Body) (socket : String) (o : Option Binding)
      → SameSignals s (with_binding setting files v e agents marker s socket o)
  with_binding-SameSignals v e agents marker s socket none =
      after_binding-SameSignals v e.baseline agents marker s
        (bind_herdr s.queue (herdr_binding_key files socket) socket v.now v.fresh)
  with_binding-SameSignals v e agents marker s socket (some b) =
      let fresh = bind_herdr s.queue (herdr_binding_key files socket) socket v.now v.fresh in
      if_both (SameSignals s) b.enabled (observed_by setting files v e.baseline agents marker s b)
        (after_binding setting files v e.baseline agents marker s fresh)
        (settled-SameSignals s (
          reconcile_herdr (record setting { uuid = v.uuid }) b v.now agents marker e.baseline
            s.queue))
        (after_binding-SameSignals v e.baseline agents marker s fresh)

  with_agents-SameSignals :
      (v : Visit) (e : HerdrDirtyEvent) (s : Service Body) (o : Option Binding) (socket : String)
      (found : Option (List HerdrAgent × String))
      → SameSignals s (with_agents setting files v e s o socket found)
  with_agents-SameSignals v e s o socket none = record { config = refl; dirty = refl }
  with_agents-SameSignals v e s o socket (some (agents, marker)) =
      with_binding-SameSignals v e agents marker s socket o

  pub reconcile_dirty-SameSignals :
      (v : Visit) (e : HerdrDirtyEvent) (s : Service Body)
      → SameSignals s (reconcile_dirty setting files v e s)
  unfolding reconcile_dirty
  reconcile_dirty-SameSignals v e s =
      let o = herdr_binding s.queue e.binding_key in
      let socket = socket_of o e in
      let told = with_agents setting files v e s o socket (v.read socket) in
      let same : SameSignals s s = record { config = refl; dirty = refl } in
      if_both (SameSignals s) (not s.queue.capture) s (if is_empty socket then s else told) same (
        if_both (SameSignals s) (is_empty socket) s told same
          (with_agents-SameSignals v e s o socket (v.read socket)))

  discover_each-SameSignals :
      (sockets : List (String × Visit)) (s : Service Body)
      → SameSignals s (discover_each setting files sockets s)
  unfolding discover_each
  discover_each-SameSignals [] s = record { config = refl; dirty = refl }
  discover_each-SameSignals ((socket, v) ∷ sockets) s =
      let unknown =
        is_unknown setting files (herdr_binding s.queue (herdr_binding_key files socket)) in
      let told = reconcile_dirty setting files v (found_signal setting files socket) s in
      let t = if unknown then told else s in
      let first =
        if_both (SameSignals s) unknown told s
          (reconcile_dirty-SameSignals v (found_signal setting files socket) s)
          (record { config = refl; dirty = refl }) in
      let rest = discover_each-SameSignals sockets t in
      record { config = rest.config ∙ first.config; dirty = rest.dirty ∙ first.dirty }

  pub discover-SameSignals :
      (sockets : List (String × Visit)) (s : Service Body)
      → SameSignals s (discover setting files sockets s)
  unfolding discover
  discover-SameSignals sockets s =
      if_both (SameSignals s) s.queue.capture (discover_each setting files sockets s) s
        (discover_each-SameSignals sockets s) (record { config = refl; dirty = refl })
