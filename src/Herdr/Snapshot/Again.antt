-- ===== src/Herdr/Snapshot/Again.antt =====
-- A snapshot that ReconcileHerdr (notifications/internal/agent/herdr_state.go) is given twice.
use mathlib.Core.Path.{subst}
use nova_codex_bootstrap.Prelude.{
  ℕ, ◌≡◌, refl, sym, ap, ◌∙◌, String, Bool, true, false, not, ◌&&◌, ◌||◌, List, Option, none, some,
  arith, str_eq, eq_iff, if◌then◌else◌,
}
use nova_codex_bootstrap.Protocol.Event.{Time}
use nova_codex_bootstrap.Queue.Rows.{Queue, Binding, Pane}
use nova_codex_bootstrap.Herdr.Agent.{HerdrAgent}
use nova_codex_bootstrap.Herdr.Bindings.{find_binding}
use nova_codex_bootstrap.Herdr.Reconcile.{
  Setting, find_pane, is_observed, pane_of, observe_all, finish, forget_removed, drop_events_of,
  renew, reconcile_stored, reconcile_herdr,
}
use nova_codex_bootstrap.Herdr.Snapshot.{observed_at_pane, snapshot_row, observed_none}
use nova_codex_bootstrap.Herdr.Snapshot.Reconciled.{reconcile_herdr-IsSnapshot}
use nova_codex_bootstrap.Herdr.Snapshot.Known.{
  OnePaneEach, AllKnown, observe_all-silent, nothing_removed,
}

unless : {A : Type 0} → (b : Bool) (x y z : A) → b ≡ false → y ≡ z → (if b then x else y) ≡ z
unless b x y z h e = rw h e

module _ {Body : Type 0} (env : Setting Body) (binding : Binding) (now : Time) where
  finish-silent :
      (agents : List HerdrAgent) (q : Queue Body) (n : ℕ) (o : Option (Queue Body × ℕ))
      → o ≡ some (q, n)
      → ((id : String)
          → is_observed env binding now agents id ≡ false
          → find_pane binding.binding_key id q.panes ≡ none)
      → (r : Queue Body) × (finish env binding now agents o ≡ some r) × (r.pending ≡ q.pending)
  unfolding finish forget_removed drop_events_of
  finish-silent agents q n o e h = (
    forget_removed env binding now agents q,
    ap (finish env binding now agents) e,
    rw (nothing_removed env binding now agents q.panes h) refl,
  )

  -- A reconciliation of agents that are all known, where no other row is stored.
  known_silent :
      (agents : List HerdrAgent) (incarnation : String) (baseline : Bool) (q : Queue Body)
      (stored : Binding)
      → find_binding binding.binding_key q.bindings ≡ some stored
      → stored.enabled ≡ true
      → stored.incarnation ≡ incarnation
      → q.capture ≡ true
      → OnePaneEach agents
      → AllKnown env binding now q.panes agents
      → ((id : String)
          → observed_at_pane id agents ≡ none
          → find_pane binding.binding_key id q.panes ≡ none)
      → (r : Queue Body) × (reconcile_herdr env binding now agents incarnation baseline q ≡ some r)
        × (r.pending ≡ q.pending)
  unfolding reconcile_herdr reconcile_stored renew
  known_silent agents incarnation baseline q stored found enabled current capture one known gone =
      let start = renew env binding now incarnation stored q in
      let same : str_eq incarnation stored.incarnation ≡ true =
        (eq_iff incarnation stored.incarnation).1 (sym current) in
      let panes : start.panes ≡ q.panes = rw same refl in
      let pending : start.pending ≡ q.pending = rw same refl in
      let base = baseline || not (str_eq incarnation stored.incarnation) in
      let (ps, looped, elsewhere) =
        observe_all-silent env binding now base agents agents start 0 one (λ a m. m)
          (subst (λ (rows : List Pane). AllKnown env binding now rows agents) (sym panes) known) in
      let (r, finished, kept) =
        finish-silent agents (record start { panes = ps }) 0
          (observe_all env binding now base agents (some (start, 0))) looped
          (λ (id : String) (e : is_observed env binding now agents id ≡ false).
            let none_at = observed_none env binding now id agents e in
            elsewhere id none_at
            ∙ (ap (find_pane binding.binding_key id) panes ∙ gone id none_at)) in
      (
        r,
        ap (reconcile_stored env binding now agents incarnation baseline q) found
            ∙ unless (not (stored.enabled && q.capture)) (some q) _ _ (ground arith) finished,
        kept ∙ pending,
      )

module _ {Body : Type 0} (env : Setting Body) (binding : Binding) where
  -- Agents that have been reconciled, no two of them at one pane, notify nothing when they are
  -- reconciled again under the same incarnation: whatever happened in between, if the stored panes
  -- are still those of the first reconciliation, the binding is enabled and capture is on, the
  -- second one succeeds and leaves the pending events as they are.
  pub reconcile_herdr_again :
      (agents : List HerdrAgent) (incarnation : String) (first again : Bool) (now later : Time)
      (q r w : Queue Body) (stored kept : Binding)
      → find_binding binding.binding_key q.bindings ≡ some stored
      → stored.enabled ≡ true
      → q.capture ≡ true
      → reconcile_herdr env binding now agents incarnation first q ≡ some r
      → OnePaneEach agents
      → w.panes ≡ r.panes
      → find_binding binding.binding_key w.bindings ≡ some kept
      → kept.enabled ≡ true
      → kept.incarnation ≡ incarnation
      → w.capture ≡ true
      → (s : Queue Body) × (reconcile_herdr env binding later agents incarnation again w ≡ some s)
        × (s.pending ≡ w.pending)
  unfolding pane_of
  reconcile_herdr_again agents incarnation first again now later q r w stored kept found enabled
        capture done one panes found_again enabled_again current capture_again =
      let snapshot =
        reconcile_herdr-IsSnapshot env binding now agents incarnation first q r stored found enabled
          capture done in
      let row =
        λ (id : String). ap (find_pane binding.binding_key id) panes ∙ snapshot.observed id in
      known_silent env binding later agents incarnation again w kept found_again enabled_again
        current capture_again one
        (λ a m. record {
          pane = pane_of env binding now a;
          found = row a.pane_id ∙ ap (snapshot_row env binding now) (one a m);
          agrees = record { terminal = refl; sequence = refl };
        })
        (λ id e. row id ∙ ap (snapshot_row env binding now) e)
