-- ===== src/Herdr/Reconcile.antt =====
-- ReconcileHerdr of notifications/internal/agent/herdr_state.go: one transaction that compares the
-- observed agents of a socket with the stored panes and queues the events that are due.
use nova_codex_bootstrap.Prelude.{
  ℕ, suc, String, Bool, true, false, not, ◌&&◌, ◌||◌, List, [], ◌∷◌, any, select, Option, none,
  some, ltb, ◌==◌, str_eq, is_empty, if◌then◌else◌,
}
use nova_codex_bootstrap.Sql.{delete, update}
use nova_codex_bootstrap.Protocol.Metadata.{Encoding, normalized}
use nova_codex_bootstrap.Protocol.Event.{
  Time, HostEvent, herdr_version, source_herdr, attention_required, progress_updated,
}
use nova_codex_bootstrap.Queue.Rows.{Row, Queue, Binding, Pane, in_session, enqueue}
use nova_codex_bootstrap.Upload.Request.{Codec}
use nova_codex_bootstrap.Herdr.Agent.{HerdrAgent, metadata, codex_thread_id}
use nova_codex_bootstrap.Herdr.Bindings.{has_key, find_binding}

abbrev pub is_pane : String → String → Pane → Bool
is_pane key id p = str_eq p.binding_key key && str_eq p.pane_id id

abbrev pub of_binding : String → Pane → Bool
of_binding key p = str_eq p.binding_key key

-- SELECT terminal_id, sequence, status ... WHERE binding_key = ? AND pane_id = ?
unfoldable pub find_pane : String → String → List Pane → Option Pane
find_pane key id [] = none
find_pane key id (p ∷ ps) =
    let rest = find_pane key id ps in if is_pane key id p then some p else rest

-- INSERT ... ON CONFLICT(binding_key, pane_id) DO UPDATE
unfoldable pub upsert_pane : Pane → List Pane → List Pane
upsert_pane p [] = p ∷ []
upsert_pane p (o ∷ ps) =
    let rest = upsert_pane p ps in if is_pane p.binding_key p.pane_id o then p ∷ ps else o ∷ rest

-- `newPane || terminal != agent.TerminalID || agent.Sequence < sequence`
unfoldable pub is_initial : Option Pane → HerdrAgent → Bool
is_initial none a = true
is_initial (some p) a = not (str_eq p.terminal_id a.terminal_id) || ltb a.sequence p.sequence

abbrev pub is_number : Option ℕ → ℕ → Bool
is_number none n = false
is_number (some m) n = m == n

abbrev pub is_finished : HerdrAgent → Bool
is_finished a = str_eq a.status "idle" || str_eq a.status "done"

-- Whether the agent's work counts as completed: by its own evidence on a server that gives it, else
-- by the working state that was stored.
unfoldable pub is_completed : Pane → HerdrAgent → Bool
is_completed p a =
    if a.completion_supported
    then is_number a.completion_sequence a.sequence
    else str_eq p.status "working"

-- the event of a later observation; the second assignment overwrites the first
unfoldable pub transition : Pane → HerdrAgent → String
transition p a =
    if is_completed p a && is_finished a
    then progress_updated
    else if str_eq a.status "blocked" && not (str_eq p.status "blocked")
    then attention_required
    else ""

unfoldable pub decide_known : Bool → Option Pane → HerdrAgent → String
decide_known baseline none a = ""
decide_known baseline (some p) a =
    if not baseline
      && not (is_initial (some p) a)
      && not (is_empty a.agent)
      && ltb p.sequence a.sequence
    then transition p a
    else ""

-- `typeToSend`; "" is no event
unfoldable pub decide : Bool → Option Pane → HerdrAgent → String
decide baseline known a = decide_known baseline known a

abbrev pub terminal_of : Option Pane → String
terminal_of none = ""
terminal_of (some p) = p.terminal_id

-- DELETE FROM pending_events WHERE source = 'herdr' AND session_id = ? AND pane_id = ?
unfoldable pub drop_pane_events :
    {Body : Type 0} → String → String → List (Row Body) → List (Row Body)
drop_pane_events session id rows = delete (λ r. in_session session r && str_eq r.pane_id id) rows

-- What the transaction takes from outside: the encoding, the codec, the session name of a socket
-- path, and the identifiers that NewUUID gives in turn (`none` is an error).
pub record Setting (Body : Type 0) : Type 0 where
  pub go : Encoding
  pub codec : Codec Body
  pub session_name : String → String
  pub uuid : ℕ → Option String

module _ {Body : Type 0} (env : Setting Body) (binding : Binding) (now : Time) where
  unfoldable pub pane_of : HerdrAgent → Pane
  pane_of a = record {
    binding_key = binding.binding_key;
    pane_id = a.pane_id;
    terminal_id = a.terminal_id;
    sequence = a.sequence;
    status = a.status;
    observed_at = now;
  }

  unfoldable pub host_event : String → HerdrAgent → HostEvent
  host_event type a = record {
    schema_version = herdr_version;
    event_type = type;
    thread_id = "";
    turn_id = "";
    request_id = "";
    occurred_at = now;
    source = source_herdr;
    target = some (record {
      session_id = binding.session_id;
      pane_id = a.pane_id;
      codex_thread_id = codex_thread_id a;
      test_installation_id = "";
    });
    herdr_metadata = some (
        normalized env.go
          (record (metadata env.go a) { session_name = env.session_name binding.socket_path }));
  }

  -- the event is queued under a fresh identifier
  unfoldable pub queue_event :
      Queue Body → ℕ → String → HerdrAgent → Option String → Option (Queue Body × ℕ)
  queue_event q n type a none = none
  queue_event q n type a (some id) =
      some
        (enqueue env.go env.codec.unmarshal q id (env.codec.marshal (host_event type a)) now, suc n)

  -- one round of the loop over the agents; `n` counts the identifiers taken
  unfoldable pub observe : Bool → HerdrAgent → Queue Body × ℕ → Option (Queue Body × ℕ)
  observe baseline a (q, n) =
      let known = find_pane binding.binding_key a.pane_id q.panes in
      let type = decide baseline known a in
      let stale = is_initial known a && not (is_empty (terminal_of known)) in
      let q' : Queue Body = record q {
        pending =
            if stale then drop_pane_events binding.session_id a.pane_id q.pending else q.pending;
        panes = upsert_pane (pane_of a) q.panes;
      } in
      if is_empty type then some (q', n) else queue_event q' n type a (env.uuid n)

  unfoldable pub observe_all :
      Bool → List HerdrAgent → Option (Queue Body × ℕ) → Option (Queue Body × ℕ)
  observe_all baseline agents none = none
  observe_all baseline [] (some s) = some s
  observe_all baseline (a ∷ agents) (some s) = observe_all baseline agents (observe baseline a s)

  -- `keep[pane]`
  abbrev pub is_observed : List HerdrAgent → String → Bool
  is_observed agents id = any (λ a. str_eq a.pane_id id) agents

  unfoldable pub drop_events_of : List Pane → List (Row Body) → List (Row Body)
  drop_events_of [] rows = rows
  drop_events_of (p ∷ ps) rows =
      drop_events_of ps (drop_pane_events binding.session_id p.pane_id rows)

  -- the panes of the binding that are not observed any more, and their pending events, are removed
  unfoldable pub forget_removed : List HerdrAgent → Queue Body → Queue Body
  forget_removed agents q =
      let removed =
        λ (p : Pane). of_binding binding.binding_key p && not (is_observed agents p.pane_id) in
      record q {
        panes = delete removed q.panes;
        pending = drop_events_of (select removed q.panes) q.pending;
      }

  unfoldable pub finish : List HerdrAgent → Option (Queue Body × ℕ) → Option (Queue Body)
  finish agents none = none
  finish agents (some (q, n)) = some (forget_removed agents q)

  -- a new incarnation of the socket drops its panes, and the session's events if there was another
  unfoldable pub renew : String → Binding → Queue Body → Queue Body
  renew incarnation stored q =
      let changed = not (str_eq incarnation stored.incarnation) in
      record q {
        panes = if changed then delete (of_binding binding.binding_key) q.panes else q.panes;
        pending =
            if changed && not (is_empty stored.incarnation)
            then delete (in_session binding.session_id) q.pending
            else q.pending;
        bindings =
            update (has_key binding.binding_key)
              (λ b. record b { incarnation = incarnation; updated_at = now }) q.bindings;
      }

  unfoldable pub reconcile_stored :
      List HerdrAgent → String → Bool → Queue Body → Option Binding → Option (Queue Body)
  reconcile_stored agents incarnation baseline q none = none
  reconcile_stored agents incarnation baseline q (some stored) =
      if not (stored.enabled && q.capture)
      then some q
      else (let changed = not (str_eq incarnation stored.incarnation) in
          finish agents
            (observe_all (baseline || changed) agents (some (renew incarnation stored q, 0))))

  -- `none` is an error, and then the transaction is rolled back
  unfoldable pub reconcile_herdr :
      List HerdrAgent → String → Bool → Queue Body → Option (Queue Body)
  reconcile_herdr agents incarnation baseline q =
      reconcile_stored agents incarnation baseline q (find_binding binding.binding_key q.bindings)
