-- ===== src/Herdr/Watch.antt =====
-- The daemon's Herdr loop: reconcileHerdr and herdrLoop of notifications/internal/agent/herdr_state.go,
-- HerdrSockets and discoverHerdr of herdr_capture.go, and ReadHerdrBindingRoutes of herdr_bindings.go.
pub mod Coalesce
pub mod Transactions
pub mod Signals
use nova_codex_bootstrap.Prelude.{
  ℕ, String, Bool, true, false, not, ◌||◌, List, [], ◌∷◌, ◌++◌, map, take, length, Option, none,
  some, ltb, str_eq, is_empty, if◌then◌else◌,
}
use nova_codex_bootstrap.Protocol.Event.{Time, HerdrDirtyEvent}
use nova_codex_bootstrap.Config.Endpoint.{NetLib}
use nova_codex_bootstrap.Config.Files.{Stored, Loaded, missing, broken, loaded, load_config}
use nova_codex_bootstrap.Queue.Rows.{Queue, Binding}
use nova_codex_bootstrap.Ingress.Connection.{Service}
use nova_codex_bootstrap.Herdr.Agent.{HerdrAgent}
use nova_codex_bootstrap.Herdr.Socket.{
  FileLib, Home, herdr_binding_key, resolve_herdr_socket, herdr_binding_session_name,
}
use nova_codex_bootstrap.Herdr.Bindings.{herdr_binding, herdr_bindings, bind_herdr}
use nova_codex_bootstrap.Herdr.Reconcile.{Setting, reconcile_herdr}

-- The signals that herdrLoop has taken and not handled: the map `dirty`, whose keys are the binding
-- keys.
unfoldable pub find_signal : String → List HerdrDirtyEvent → Option HerdrDirtyEvent
find_signal key [] = none
find_signal key (e ∷ es) =
    let rest = find_signal key es in if str_eq e.binding_key key then some e else rest

abbrev pub wants_baseline : Option HerdrDirtyEvent → Bool
wants_baseline none = false
wants_baseline (some e) = e.baseline

-- dirty[event.BindingKey] = event
unfoldable pub put_signal : HerdrDirtyEvent → List HerdrDirtyEvent → List HerdrDirtyEvent
put_signal e [] = e ∷ []
put_signal e (o ∷ es) =
    let rest = put_signal e es in if str_eq o.binding_key e.binding_key then e ∷ es else o ∷ rest

-- A signal is taken: a baseline that was asked for stays asked for.
unfoldable pub take_signal : HerdrDirtyEvent → List HerdrDirtyEvent → List HerdrDirtyEvent
take_signal e dirty =
    if ltb (length dirty) 128
    then put_signal
        (record e { baseline = e.baseline || wants_baseline (find_signal e.binding_key dirty) })
        dirty
    else dirty

-- What one call of reconcileHerdr meets: ReadHerdrAgents on a path, the time, and the identifiers that
-- NewUUID gives to BindHerdr and to ReconcileHerdr.
pub record Visit : Type 0 where
  pub read : String → Option (List HerdrAgent × String)
  pub now : Time
  pub fresh : Option String
  pub uuid : ℕ → Option String

abbrev pub needs_binding : Option Binding → Bool
needs_binding none = true
needs_binding (some b) = not b.enabled

abbrev pub socket_of : Option Binding → HerdrDirtyEvent → String
socket_of none e = e.socket_path
socket_of (some b) e = if b.enabled then b.socket_path else e.socket_path

-- What an entry of the sessions directory is.
pub record Entry : Type 0 where
  pub name : String
  pub is_dir : Bool
  pub is_symlink : Bool

module _ (lib : FileLib) (home : Home) where
  abbrev pub add_socket : Option String → List String → List String
  add_socket none paths = paths
  add_socket (some path) paths = path ∷ paths

  unfoldable pub session_sockets : List Entry → List String
  session_sockets [] = []
  session_sockets (e ∷ es) =
      let rest = session_sockets es in
      if not e.is_dir || e.is_symlink
      then rest
      else add_socket (resolve_herdr_socket lib home e.name "") rest

  unfoldable pub only_sockets : (String → Bool) → List String → List String
  only_sockets is_socket [] = []
  only_sockets is_socket (p ∷ ps) =
      let rest = only_sockets is_socket ps in if is_socket p then p ∷ rest else rest

  herdr_sockets_from : Option String → List Entry → (String → Bool) → List String
  unfolding only_sockets session_sockets
  herdr_sockets_from none entries is_socket = []
  herdr_sockets_from (some path) entries is_socket =
      only_sockets is_socket (path ∷ session_sockets (take 128 entries))

  -- HerdrSockets; the entries are those of the sessions directory, none if it cannot be opened
  unfoldable pub herdr_sockets : List Entry → (String → Bool) → List String
  unfolding herdr_sockets_from
  herdr_sockets entries is_socket =
      herdr_sockets_from (resolve_herdr_socket lib home "default" "") entries is_socket

  pub record Route : Type 0 where
    pub session_id : String
    pub session_name : String

  -- the bindings whose session has a name, the others being left out
  unfoldable pub binding_routes : List Binding → List Route
  binding_routes [] = []
  binding_routes (b ∷ bs) =
      let name = herdr_binding_session_name lib home b.socket_path in
      let rest = binding_routes bs in
      if is_empty name
      then rest
      else record { session_id = b.session_id; session_name = name } ∷ rest

  pub record Routes : Type 0 where
    pub host_id : String
    pub endpoint : String
    pub bindings : List Route

  routes_of : Loaded → Option (List Binding) → Option Routes
  unfolding binding_routes
  routes_of (loaded c) (some bs) =
      some (record { host_id = c.host_id; endpoint = c.endpoint; bindings = binding_routes bs })
  routes_of _ _ = none

  abbrev stored_bindings : {Body : Type 0} → Option (Queue Body) → Option (List Binding)
  stored_bindings none = none
  stored_bindings (some q) = some (herdr_bindings q)

  -- ReadHerdrBindingRoutes; the queue is `none` if the database is not there or does not open, and
  -- the result is `none` on an error
  unfoldable pub read_herdr_binding_routes :
      NetLib → Stored → {Body : Type 0} → Option (Queue Body) → Option Routes
  unfolding routes_of
  read_herdr_binding_routes net config database =
      routes_of (load_config net config) (stored_bindings database)

module _ {Body : Type 0} (env : Setting Body) (lib : FileLib) where
  abbrev pub settled : Service Body → Option (Queue Body) → Service Body
  settled s none = s
  settled s (some q) = record s { queue = q; wake = true }

  abbrev pub observed_by :
      Visit → Bool → List HerdrAgent → String → Service Body → Binding → Service Body
  observed_by v baseline agents marker s b =
      settled s
        (reconcile_herdr (record env { uuid = v.uuid }) b v.now agents marker baseline s.queue)

  -- the binding is made where there is none that is enabled
  abbrev pub after_binding :
      Visit
      → Bool
      → List HerdrAgent
      → String
      → Service Body
      → Option (Binding × Queue Body)
      → Service Body
  after_binding v baseline agents marker s none = s
  after_binding v baseline agents marker s (some (b, q)) =
      observed_by v baseline agents marker (record s { queue = q }) b

  abbrev pub with_binding :
      Visit
      → HerdrDirtyEvent
      → List HerdrAgent
      → String
      → Service Body
      → String
      → Option Binding
      → Service Body
  with_binding v e agents marker s socket none =
      after_binding v e.baseline agents marker s
        (bind_herdr s.queue (herdr_binding_key lib socket) socket v.now v.fresh)
  with_binding v e agents marker s socket (some b) =
      if b.enabled
      then observed_by v e.baseline agents marker s b
      else after_binding v e.baseline agents marker s
          (bind_herdr s.queue (herdr_binding_key lib socket) socket v.now v.fresh)

  abbrev pub with_agents :
      Visit
      → HerdrDirtyEvent
      → Service Body
      → Option Binding
      → String
      → Option (List HerdrAgent × String)
      → Service Body
  with_agents v e s o socket none = s
  with_agents v e s o socket (some (agents, marker)) = with_binding v e agents marker s socket o

  -- reconcileHerdr
  unfoldable pub reconcile_dirty : Visit → HerdrDirtyEvent → Service Body → Service Body
  reconcile_dirty v e s =
      let bound = herdr_binding s.queue e.binding_key in
      let socket = socket_of bound e in
      if not s.queue.capture
      then s
      else if is_empty socket
      then s
      else with_agents v e s bound socket (v.read socket)

  -- the rounds of a tick, over the signals in the order that the map gives them, as many as are handled
  -- before the daemon stops
  unfoldable pub handle_signals : List (HerdrDirtyEvent × Visit) → Service Body → Service Body
  handle_signals [] s = s
  handle_signals ((e, v) ∷ es) s = handle_signals es (reconcile_dirty v e s)

  abbrev pub start_signal : String → HerdrDirtyEvent
  start_signal key = record {
    type = "";
    binding_key = key;
    pane_id = "";
    socket_path = "";
    baseline = true;
  }

  -- the enabled bindings are reconciled when the loop starts
  unfoldable pub start_watch : (Binding → Visit) → Service Body → Service Body
  unfolding handle_signals
  start_watch visit s =
      handle_signals (map (λ b. (start_signal b.binding_key, visit b)) (herdr_bindings s.queue)) s

  abbrev pub is_unknown : Option Binding → Bool
  is_unknown none = true
  is_unknown (some b) = not b.enabled || is_empty b.incarnation

  abbrev pub found_signal : String → HerdrDirtyEvent
  found_signal socket = record {
    type = "herdr-dirty";
    binding_key = herdr_binding_key lib socket;
    pane_id = "";
    socket_path = socket;
    baseline = true;
  }

  unfoldable pub discover_each : List (String × Visit) → Service Body → Service Body
  discover_each [] s = s
  discover_each ((socket, v) ∷ sockets) s =
      let unknown = is_unknown (herdr_binding s.queue (herdr_binding_key lib socket)) in
      discover_each sockets (if unknown then reconcile_dirty v (found_signal socket) s else s)

  -- discoverHerdr, over what HerdrSockets gives
  unfoldable pub discover : List (String × Visit) → Service Body → Service Body
  discover sockets s = let found = discover_each sockets s in if s.queue.capture then found else s
