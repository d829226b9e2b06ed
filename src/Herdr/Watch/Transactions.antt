-- ===== src/Herdr/Watch/Transactions.antt =====
-- The daemon's Herdr loop as transactions on the queue (notifications/internal/agent/herdr_state.go and
-- herdr_capture.go).
use nova_codex_bootstrap.Prelude.{
  ◌≡◌, refl, String, Bool, not, List, [], ◌∷◌, Option, none, some, if◌then◌else◌, if_both, is_empty,
}
use nova_codex_bootstrap.Protocol.Event.{HerdrDirtyEvent}
use nova_codex_bootstrap.Queue.Rows.{Queue, Binding}
use nova_codex_bootstrap.Ingress.Connection.{Service}
use nova_codex_bootstrap.Herdr.Agent.{HerdrAgent}
use nova_codex_bootstrap.Herdr.Socket.{FileLib, herdr_binding_key}
use nova_codex_bootstrap.Herdr.Bindings.{herdr_binding, bind_herdr}
use nova_codex_bootstrap.Herdr.Reconcile.{Setting, reconcile_herdr}
use nova_codex_bootstrap.Herdr.Histories.{bound, reconciled, Reachable, start, after}
use nova_codex_bootstrap.Herdr.Watch.{
  Visit, is_unknown, found_signal, settled, observed_by, after_binding, with_binding, with_agents,
  socket_of, reconcile_dirty, handle_signals, discover_each, discover,
}

module _ {Body : Type 0} (env : Setting Body) (lib : FileLib) where
  trans : (q r s : Queue Body) → Reachable env q r → Reachable env r s → Reachable env q s
  trans q r s first start = first
  trans q r s first (after t u before last) = after t u (trans q r t first before) last

  settled-Reachable :
      (v : Visit) (baseline : Bool) (agents : List HerdrAgent) (marker : String) (s : Service Body)
      (b : Binding) (o : Option (Queue Body))
      → reconcile_herdr (record env { uuid = v.uuid }) b v.now agents marker baseline s.queue ≡ o
      → Reachable env s.queue (settled env lib s o).queue
  settled-Reachable v baseline agents marker s b none h = start
  settled-Reachable v baseline agents marker s b (some q) h =
      after s.queue q start (reconciled v.uuid b v.now agents marker baseline q h)

  after_binding-Reachable :
      (v : Visit) (baseline : Bool) (agents : List HerdrAgent) (marker : String) (s : Service Body)
      (socket : String) (o : Option (Binding × Queue Body))
      → bind_herdr s.queue (herdr_binding_key lib socket) socket v.now v.fresh ≡ o
      → Reachable env s.queue (after_binding env lib v baseline agents marker s o).queue
  after_binding-Reachable v baseline agents marker s socket none h = start
  after_binding-Reachable v baseline agents marker s socket (some (b, q)) h =
      let bound_service : Service Body = record s { queue = q } in
      trans s.queue q (observed_by env lib v baseline agents marker bound_service b).queue
        (after s.queue q start (bound (herdr_binding_key lib socket) socket v.now v.fresh b q h))
        (settled-Reachable v baseline agents marker bound_service b
          (reconcile_herdr (record env { uuid = v.uuid }) b v.now agents marker baseline q) refl)

  with_binding-Reachable :
      (v : Visit) (e : HerdrDirtyEvent) (agents : List HerdrAgent) (marker : String)
      (s : Service Body) (socket : String) (o : Option Binding)
      → Reachable env s.queue (with_binding env lib v e agents marker s socket o).queue
  with_binding-Reachable v e agents marker s socket none =
      after_binding-Reachable v e.baseline agents marker s socket
        (bind_herdr s.queue (herdr_binding_key lib socket) socket v.now v.fresh) refl
  with_binding-Reachable v e agents marker s socket (some b) =
      let fresh = bind_herdr s.queue (herdr_binding_key lib socket) socket v.now v.fresh in
      if_both (λ (t : Service Body). Reachable env s.queue t.queue) b.enabled
        (observed_by env lib v e.baseline agents marker s b)
        (after_binding env lib v e.baseline agents marker s fresh)
        (settled-Reachable v e.baseline agents marker s b
          (reconcile_herdr (record env { uuid = v.uuid }) b v.now agents marker e.baseline s.queue)
          refl)
        (after_binding-Reachable v e.baseline agents marker s socket fresh refl)

  with_agents-Reachable :
      (v : Visit) (e : HerdrDirtyEvent) (s : Service Body) (o : Option Binding) (socket : String)
      (found : Option (List HerdrAgent × String))
      → Reachable env s.queue (with_agents env lib v e s o socket found).queue
  with_agents-Reachable v e s o socket none = start
  with_agents-Reachable v e s o socket (some (agents, marker)) =
      with_binding-Reachable v e agents marker s socket o

  pub reconcile_dirty-Reachable :
      (v : Visit) (e : HerdrDirtyEvent) (s : Service Body)
      → Reachable env s.queue (reconcile_dirty env lib v e s).queue
  unfolding reconcile_dirty
  reconcile_dirty-Reachable v e s =
      let o = herdr_binding s.queue e.binding_key in
      let socket = socket_of o e in
      let told = with_agents env lib v e s o socket (v.read socket) in
      if_both (λ (t : Service Body). Reachable env s.queue t.queue) (not s.queue.capture) s
        (if is_empty socket then s else told) start
        (if_both (λ (t : Service Body). Reachable env s.queue t.queue) (is_empty socket) s told
          start (with_agents-Reachable v e s o socket (v.read socket)))

  pub handle_signals-Reachable :
      (es : List (HerdrDirtyEvent × Visit)) (s : Service Body)
      → Reachable env s.queue (handle_signals env lib es s).queue
  unfolding handle_signals
  handle_signals-Reachable [] s = start
  handle_signals-Reachable ((e, v) ∷ es) s =
      let t = reconcile_dirty env lib v e s in
      trans s.queue t.queue (handle_signals env lib es t).queue (reconcile_dirty-Reachable v e s)
        (handle_signals-Reachable es t)

  discover_each-Reachable :
      (sockets : List (String × Visit)) (s : Service Body)
      → Reachable env s.queue (discover_each env lib sockets s).queue
  unfolding discover_each
  discover_each-Reachable [] s = start
  discover_each-Reachable ((socket, v) ∷ sockets) s =
      let unknown = is_unknown env lib (herdr_binding s.queue (herdr_binding_key lib socket)) in
      let told = reconcile_dirty env lib v (found_signal env lib socket) s in
      let t = if unknown then told else s in
      trans s.queue t.queue (discover_each env lib sockets t).queue
        (if_both (λ (u : Service Body). Reachable env s.queue u.queue) unknown told s
          (reconcile_dirty-Reachable v (found_signal env lib socket) s) start)
        (discover_each-Reachable sockets t)

  pub discover-Reachable :
      (sockets : List (String × Visit)) (s : Service Body)
      → Reachable env s.queue (discover env lib sockets s).queue
  unfolding discover
  discover-Reachable sockets s =
      if_both (λ (t : Service Body). Reachable env s.queue t.queue) s.queue.capture
        (discover_each env lib sockets s) s (discover_each-Reachable sockets s) start
