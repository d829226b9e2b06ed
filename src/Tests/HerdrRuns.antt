-- ===== src/Tests/HerdrRuns.antt =====
-- The theorems on the Herdr side of the agent at concrete observations.
use nova_codex_bootstrap.Prelude.{
  inl, inr, List, ◌∷◌, ◌≡◌, ◌≢◌, ◌↔◌, ◌⊎◌, refl, String, true, false, [], ◌∷◌, none, some, arith,
}
use nova_codex_bootstrap.Protocol.Event.{
  HostEvent, HerdrDirtyEvent, valid_id, attention_required, progress_updated,
}
use nova_codex_bootstrap.Queue.Rows.{Queue, Binding, Pane}
use nova_codex_bootstrap.Herdr.Agent.{HerdrAgent}
use nova_codex_bootstrap.Herdr.Bindings.{find_binding, bind_herdr}
use nova_codex_bootstrap.Herdr.Reconcile.{Setting, pane_of, decide}
use nova_codex_bootstrap.Herdr.Decision.{IsLater, HasCompleted, decide_attention, decide_progress}
use nova_codex_bootstrap.Queue.Invariant.{IsSound, step, captures}
use nova_codex_bootstrap.Herdr.Reconcile.{
  reconcile_herdr, reconcile_stored, renew, observe_all, observe, finish, forget_removed,
  drop_events_of, upsert_pane, find_pane, decide_known, is_initial,
}
use nova_codex_bootstrap.Herdr.Snapshot.{observed_at_pane}
use nova_codex_bootstrap.Herdr.Snapshot.Known.{OnePaneEach}
use nova_codex_bootstrap.Herdr.Snapshot.Again.{reconcile_herdr_again}
use nova_codex_bootstrap.Herdr.Snapshot.Reconciled.{IsSnapshot, reconcile_herdr-IsSnapshot}
use nova_codex_bootstrap.Herdr.Histories.{Reachable, start, after, called, reconciled, IsConsistent}
use nova_codex_bootstrap.Herdr.Histories.Consistency.{Reachable-IsConsistent}
use nova_codex_bootstrap.Herdr.Watch.{find_signal}
use nova_codex_bootstrap.Herdr.Watch.Coalesce.{take_signals, merged, take_signals-merged}
use nova_codex_bootstrap.Herdr.Version.{supports_completion_evidence}
use nova_codex_bootstrap.Herdr.Socket.{valid_herdr_status}
use nova_codex_bootstrap.Herdr.Reply.{
  SocketStat, Server, result, herdr_request, read_herdr_agents, check_agents, valid_agents,
  valid_agent, incarnation_of, IsReadable, read_herdr_agents-IsReadable,
}
use nova_codex_bootstrap.Prelude.Decimal.{decimal}
use nova_codex_bootstrap.Tests.Data.{go, codec, empty_queue, two_events}

abbrev pane : Pane
pane = record {
  binding_key = "key";
  pane_id = "pane";
  terminal_id = "terminal";
  sequence = 4;
  status = "working";
  observed_at = 900;
}

-- The agent of the pane, one step later, with a status.
abbrev agent_with : String → HerdrAgent
agent_with status = record {
  terminal_id = "terminal";
  pane_id = "pane";
  agent = "codex";
  status = status;
  sequence = 5;
  completion_sequence = none;
  completion_supported = false;
  workspace_id = "";
  title = "";
  display_agent = "";
  state_labels = [];
  agent_session = none;
}

abbrev pub setting : Setting HostEvent
setting = record { go = go; codec = codec; session_name = λ path. "default"; uuid = λ n. some "h9" }

abbrev binding : Binding
binding = record {
  binding_key = "key";
  session_id = "session";
  socket_path = "/tmp/herdr.sock";
  incarnation = "1";
  updated_at = 900;
  enabled = false;
}

abbrev bound_queue : Queue HostEvent
bound_queue = record empty_queue { bindings = binding ∷ [] }

decide_attention_example :
    (decide false (some pane) (agent_with "blocked") ≡ attention_required) ↔ (
      IsLater false pane (agent_with "blocked")
      × ((agent_with "blocked").status ≡ "blocked")
      × (pane.status ≢ "blocked"))
decide_attention_example = decide_attention false pane (agent_with "blocked")

decide_progress_example : (decide false (some pane) (agent_with "done") ≡ progress_updated) ↔ (
    IsLater false pane (agent_with "done")
    × HasCompleted pane (agent_with "done")
    × (((agent_with "done").status ≡ "idle") ⊎ ((agent_with "done").status ≡ "done")))
decide_progress_example = decide_progress false pane (agent_with "done")

abbrev enabled_binding : Binding
enabled_binding = record binding { enabled = true }

abbrev rebound_queue : Queue HostEvent
rebound_queue = record empty_queue {
  bindings = record binding { updated_at = 1000; enabled = true } ∷ [];
}

binds :
    bind_herdr bound_queue "key" "/tmp/herdr.sock" 1000 (some "s2")
    ≡ some (enabled_binding, rebound_queue)
unfolding bind_herdr find_binding
binds = refl

finds : find_binding "key" bound_queue.bindings ≡ some binding
unfolding find_binding
finds = refl

abbrev agents : List HerdrAgent
agents = agent_with "blocked" ∷ []

abbrev enabled_queue : Queue HostEvent
enabled_queue = record empty_queue { bindings = enabled_binding ∷ [] }

abbrev reconciled_queue : Queue HostEvent
reconciled_queue = record enabled_queue {
  bindings = record enabled_binding { updated_at = 1000 } ∷ [];
  panes = pane_of setting enabled_binding 1000 (agent_with "blocked") ∷ [];
}

reconciles :
    reconcile_herdr setting enabled_binding 1000 agents "1" true enabled_queue
    ≡ some reconciled_queue
unfolding reconcile_herdr reconcile_stored renew observe_all observe finish forget_removed
    drop_events_of find_binding find_pane upsert_pane decide decide_known pane_of is_initial
reconciles = refl

nothing-IsSound : IsSound enabled_queue.pending
nothing-IsSound = record {
  unique = λ key. omega arith;
  in_all = omega arith;
  of_herdr = omega arith;
  of_session = λ s. omega arith;
}

finds_enabled : find_binding "key" enabled_queue.bindings ≡ some enabled_binding
unfolding find_binding
finds_enabled = refl

reconcile_herdr-IsSnapshot_example :
    IsSnapshot setting enabled_binding 1000 agents enabled_queue reconciled_queue
reconcile_herdr-IsSnapshot_example =
    reconcile_herdr-IsSnapshot setting enabled_binding 1000 agents "1" true enabled_queue
      reconciled_queue enabled_binding finds_enabled refl refl reconciles

-- The binding is reconciled, and then capture is turned off.
abbrev off_queue : Queue HostEvent
off_queue = step go codec.unmarshal reconciled_queue (captures false)

reaches_off : Reachable setting enabled_queue off_queue
reaches_off =
    after reconciled_queue off_queue
      (after enabled_queue reconciled_queue start
        (reconciled setting.uuid enabled_binding 1000 agents "1" true reconciled_queue reconciles))
      (called (captures false))

enabled-IsConsistent : IsConsistent enabled_queue
enabled-IsConsistent = record {
  sound = nothing-IsSound;
  few = omega arith;
  off = λ c. absurd (ground arith);
}

Reachable-IsConsistent_example : IsConsistent off_queue
Reachable-IsConsistent_example =
    Reachable-IsConsistent setting enabled_queue off_queue reaches_off enabled-IsConsistent

-- A baseline that is asked for, and then a change of a pane.
abbrev signals : List HerdrDirtyEvent
signals =
    record {
      type = "herdr-dirty";
      binding_key = "key";
      pane_id = "";
      socket_path = "/tmp/herdr.sock";
      baseline = true;
    }
    ∷ record {
      type = "herdr-dirty";
      binding_key = "key";
      pane_id = "pane";
      socket_path = "";
      baseline = false;
    }
    ∷ []

take_signals-merged_example :
    find_signal "key" (take_signals signals []) ≡ merged "key" (find_signal "key" []) signals
take_signals-merged_example = take_signals-merged "key" signals [] (omega arith)

abbrev socket : SocketStat
socket = record { is_socket = true; uid = 1000; dev = 1; ino = 22; mod_time = 333 }

abbrev herdr_server : Server
herdr_server = record {
  user = 1000;
  before = some socket;
  ping = some (record { id = "novascale-notifications"; has_error = false; body = result "0.9.2" });
  list = some (record { id = "novascale-notifications"; has_error = false; body = result agents });
  after = some socket;
}

abbrev told_agents : List HerdrAgent
told_agents = record (agent_with "blocked") { completion_supported = true } ∷ []

reads : read_herdr_agents herdr_server ≡ some (told_agents, "1:22:333")
unfolding read_herdr_agents herdr_request check_agents valid_agents valid_agent incarnation_of
    decimal supports_completion_evidence valid_id valid_herdr_status
reads = refl

read_herdr_agents-IsReadable_example : IsReadable herdr_server told_agents "1:22:333"
read_herdr_agents-IsReadable_example =
    read_herdr_agents-IsReadable herdr_server told_agents "1:22:333" reads

-- Two events have been queued meanwhile.
abbrev busy_queue : Queue HostEvent
busy_queue = record reconciled_queue { pending = two_events.pending }

finds_again :
    find_binding "key" busy_queue.bindings ≡ some (record enabled_binding { updated_at = 1000 })
unfolding find_binding
finds_again = refl

one_pane_each : OnePaneEach agents
unfolding observed_at_pane
one_pane_each a (inl same) = rw (← same) refl
one_pane_each a (inr none_left) = absurd none_left

reconcile_herdr_again_example :
    (s : Queue HostEvent) × (reconcile_herdr setting enabled_binding 2000 agents "1" false
        busy_queue
      ≡ some s)
    × (s.pending ≡ busy_queue.pending)
reconcile_herdr_again_example =
    reconcile_herdr_again setting enabled_binding agents "1" true false 1000 2000 enabled_queue
      reconciled_queue busy_queue enabled_binding (record enabled_binding { updated_at = 1000 })
      finds_enabled refl refl reconciles one_pane_each refl finds_again refl refl refl
