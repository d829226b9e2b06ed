-- ===== src/Herdr/Histories.antt =====
-- The queue under every interleaving of its calls: those of the daemon and the commands, BindHerdr and
-- ReconcileHerdr (notifications/internal/agent/queue.go, herdr_capture.go and herdr_state.go), each of
-- which is one transaction of the database.
pub mod Rounds
pub mod Consistency
use mathlib.Core.Path.{subst}
use nova_codex_bootstrap.Prelude.{
  ℕ, ◌≤◌, ◌≡◌, refl, sym, ap, ◌∙◌, String, Bool, true, false, not, ◌&&◌, ◌||◌, ◌⊎◌, List, [], ◌∷◌,
  map, count, length, Option, none, some, arith, if_both, is_empty, if◌then◌else◌, str_eq, leb,
  head?, select, inl, inr, Bool-cases, Option-cases, ltb→lt,
}
use nova_codex_bootstrap.Sql.{delete, update, order_by}
use nova_codex_bootstrap.Protocol.Event.{Time}
use nova_codex_bootstrap.Queue.Rows.{
  Row, Queue, Binding, Pane, enqueue, next, note_source, other_source_first, is_due, complete,
  retry, configure_backend, set_herdr_capture_enabled, clear_notification_capture,
}
use nova_codex_bootstrap.Queue.Invariant.{Call, IsSound, step, step-IsSound}
use nova_codex_bootstrap.Herdr.Agent.{HerdrAgent}
use nova_codex_bootstrap.Herdr.Bindings.{
  find_binding, bind_herdr, bind_herdr-le, bind_herdr_keeps, has_key,
}
use nova_codex_bootstrap.Herdr.Reconcile.{
  Setting, find_pane, decide, is_initial, terminal_of, upsert_pane, pane_of, queue_event,
  drop_pane_events, observe, observe_all, finish, forget_removed, renew, reconcile_stored,
  reconcile_herdr,
}
use nova_codex_bootstrap.Herdr.Panes.{reconcile_herdr-IsSound}

module _ {Body : Type 0} where
  abbrev pub enabled_bindings : Queue Body → ℕ
  enabled_bindings q = count (λ (b : Binding). b.enabled) q.bindings

  -- The limits of the tables, and what capture that is off has left.
  pub record IsConsistent (q : Queue Body) : Type 0 where
    pub sound : IsSound q.pending
    pub few : length q.bindings ≤ 128
    pub off : q.capture ≡ false → (q.panes ≡ []) × (enabled_bindings q ≡ 0)

module _ {Body : Type 0} (env : Setting Body) where
  -- One transaction that succeeds, with identifiers of its own; one that fails leaves the queue as it is.
  pub data Step (q : Queue Body) : Queue Body → Type 0 where
    called : (c : Call Body) → Step q (step env.go env.codec.unmarshal q c)
    bound :
        (key socket : String) (now : Time) (fresh : Option String) (b : Binding) (r : Queue Body)
        → bind_herdr q key socket now fresh ≡ some (b, r)
        → Step q r
    reconciled :
        (uuid : ℕ → Option String) (b : Binding) (now : Time) (agents : List HerdrAgent)
        (incarnation : String) (baseline : Bool) (r : Queue Body)
        → reconcile_herdr (record env { uuid = uuid }) b now agents incarnation baseline q ≡ some r
        → Step q r

  -- What some interleaving of transactions reaches.
  pub data Reachable (q : Queue Body) : Queue Body → Type 0 where
    start : Reachable q q
    after : (r s : Queue Body) → Reachable q r → Step r s → Reachable q s
