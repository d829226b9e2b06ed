-- ===== src/Herdr/Snapshot/Reconciled.antt =====
-- The refinement of the abstract map of panes by ReconcileHerdr
-- (notifications/internal/agent/herdr_state.go).
use mathlib.Core.Path.{subst}
use nova_codex_bootstrap.Prelude.{
  ℕ, ◌≡◌, refl, sym, ap, ◌∙◌, String, Bool, true, false, not, ◌&&◌, ◌||◌, List, Option, none, some,
  arith, str_eq, eq_iff, if◌then◌else◌, inl, inr, Bool-cases,
}
use nova_codex_bootstrap.Protocol.Event.{Time}
use nova_codex_bootstrap.Queue.Rows.{Queue, Binding, Pane}
use nova_codex_bootstrap.Herdr.Agent.{HerdrAgent}
use nova_codex_bootstrap.Herdr.Bindings.{find_binding}
use nova_codex_bootstrap.Herdr.Reconcile.{
  Setting, find_pane, observe_all, finish, forget_removed, renew, reconcile_stored, reconcile_herdr,
}
use nova_codex_bootstrap.Herdr.Snapshot.{
  observed_at_pane, snapshot_row, find-delete, KeepsAt, forgotten, finish-snapshot,
  observe_all-Merged, observe_all-KeepsAt,
}

unguarded :
    {A : Type 0}
    → (b : Bool) (x y : Option A) (r : A) → b ≡ false
    → (if b then x else y) ≡ some r
    → y ≡ some r
unguarded true x y r h e = absurd (ground arith)
unguarded false x y r h e = e

module _ {Body : Type 0} (env : Setting Body) (binding : Binding) (now : Time) where
  -- The stored panes of the binding are the snapshot, as a map from pane ids, and those of the other
  -- bindings are as before.
  pub record IsSnapshot (agents : List HerdrAgent) (q r : Queue Body) : Type 0 where
    pub observed :
        (id : String)
        → find_pane binding.binding_key id r.panes
          ≡ snapshot_row env binding now (observed_at_pane id agents)
    pub others :
        (key id : String)
        → str_eq binding.binding_key key ≡ false
        → find_pane key id r.panes ≡ find_pane key id q.panes

  other_key :
      (key : String)
      → str_eq binding.binding_key key ≡ false
      → str_eq key binding.binding_key ≡ false
  other_key key h = ground (arith, eq_iff binding.binding_key key, eq_iff key binding.binding_key)

  finish-other :
      (agents : List HerdrAgent) (o : Option (Queue Body × ℕ)) (key id : String) (row : Option Pane)
      (r : Queue Body)
      → str_eq binding.binding_key key ≡ false
      → KeepsAt env binding now key id row o
      → finish env binding now agents o ≡ some r
      → find_pane key id r.panes ≡ row
  unfolding finish forget_removed
  finish-other agents none key id row r other k h = absurd (ground arith)
  finish-other agents (some (q, n)) key id row r other k h =
      let same : forget_removed env binding now agents q ≡ r = ground arith in
      subst (λ (s : Queue Body). find_pane key id s.panes ≡ row) same
        (find-delete key id (forgotten env binding now agents) q.panes ∙ rw (other_key key other) k)

  renew-other :
      (incarnation : String) (stored : Binding) (q : Queue Body) (key id : String)
      → str_eq binding.binding_key key ≡ false
      → find_pane key id (renew env binding now incarnation stored q).panes
        ≡ find_pane key id q.panes
  unfolding renew
  renew-other incarnation stored q key id other =
      elim (Bool-cases (str_eq incarnation stored.incarnation)) [
        | inl e ↦ rw e refl
        | inr e ↦ rw e (
            find-delete key id (λ k _. str_eq k binding.binding_key) q.panes
            ∙ rw (other_key key other) refl)
      ]

  -- A successful reconciliation of an enabled binding while capture is on makes the stored panes
  -- of the binding the snapshot, as a map from pane ids to the last agent at each, and leaves the
  -- rows of other bindings.
  pub reconcile_herdr-IsSnapshot :
      (agents : List HerdrAgent) (incarnation : String) (baseline : Bool) (q r : Queue Body)
      (stored : Binding)
      → find_binding binding.binding_key q.bindings ≡ some stored
      → stored.enabled ≡ true
      → q.capture ≡ true
      → reconcile_herdr env binding now agents incarnation baseline q ≡ some r
      → IsSnapshot agents q r
  unfolding reconcile_herdr reconcile_stored observed_at_pane
  reconcile_herdr-IsSnapshot agents incarnation baseline q r stored found enabled capture h =
      let start = renew env binding now incarnation stored q in
      let base = baseline || not (str_eq incarnation stored.incarnation) in
      let rounds = observe_all env binding now base agents (some (start, 0)) in
      let stored_done : reconcile_stored env binding now agents incarnation baseline q (some stored)
          ≡ some r =
        sym (ap (reconcile_stored env binding now agents incarnation baseline q) found) ∙ h in
      let done : finish env binding now agents rounds ≡ some r =
        unguarded (not (stored.enabled && q.capture)) (some q)
          (finish env binding now agents rounds) r (ground arith) stored_done in
      let before = λ (id : String). find_pane binding.binding_key id start.panes in
      record {
        observed = λ id.
            finish-snapshot env binding now agents rounds before r id
              (observe_all-Merged env binding now base agents (some (start, 0)) before
                (λ (id : String). refl))
              done;
        others = λ key id other.
            finish-other agents rounds key id (find_pane key id q.panes) r other
              (observe_all-KeepsAt env binding now key id base agents (some (start, 0))
                (find_pane key id q.panes) other (renew-other incarnation stored q key id other))
              done;
      }
