-- ===== src/Herdr/Histories/Rounds.antt =====
-- What a reconciliation leaves of the bindings and of the capture switch (ReconcileHerdr of
-- notifications/internal/agent/herdr_state.go).
use mathlib.Core.Path.{subst}
use nova_codex_bootstrap.Prelude.{
  ℕ, ◌≡◌, refl, ap, ◌∙◌, String, Bool, true, false, not, ◌&&◌, ◌||◌, ◌⊎◌, List, [], ◌∷◌, length,
  Option, none, some, some-inj, arith, if_both, is_empty, if◌then◌else◌, str_eq, inl, inr,
  Bool-cases,
}
use nova_codex_bootstrap.Sql.{update}
use nova_codex_bootstrap.Protocol.Event.{Time}
use nova_codex_bootstrap.Queue.Rows.{Queue, Binding, enqueue}
use nova_codex_bootstrap.Herdr.Agent.{HerdrAgent}
use nova_codex_bootstrap.Herdr.Bindings.{find_binding, has_key}
use nova_codex_bootstrap.Herdr.Reconcile.{
  Setting, find_pane, decide, is_initial, terminal_of, upsert_pane, pane_of, queue_event,
  drop_pane_events, observe, observe_all, finish, forget_removed, renew, reconcile_stored,
  reconcile_herdr,
}

when_true :
    {A : Type 0} {r : A} (b : Bool) (x y : Option A)
    → b ≡ true
    → (if b then x else y) ≡ some r
    → x ≡ some r
when_true true x y h e = e
when_true false x y h e = absurd (ground arith)

when_false :
    {A : Type 0} {r : A} (b : Bool) (x y : Option A)
    → b ≡ false
    → (if b then x else y) ≡ some r
    → y ≡ some r
when_false true x y h e = absurd (ground arith)
when_false false x y h e = e

module _ {Body : Type 0} (env : Setting Body) where
  -- A round of a reconciliation that fails, or leaves the bindings as many and capture as it is.
  abbrev Leaves : List Binding → Bool → Option (Queue Body × ℕ) → Type 0
  Leaves bs capture none = ◌≡◌ {A = ℕ} 0 0
  Leaves bs capture (some (q, n)) = (q.bindings ≡ bs) × (q.capture ≡ capture)

  module _ (binding : Binding) (now : Time) where
    queue_event-Leaves :
        (q : Queue Body) (n : ℕ) (type : String) (a : HerdrAgent) (o : Option String)
        → Leaves q.bindings q.capture (queue_event env binding now q n type a o)
    unfolding queue_event enqueue
    queue_event-Leaves q n type a none = refl
    queue_event-Leaves q n type a (some id) = (refl, refl)

    observe-Leaves :
        (baseline : Bool) (a : HerdrAgent) (q : Queue Body) (n : ℕ)
        → Leaves q.bindings q.capture (observe env binding now baseline a (q, n))
    unfolding observe
    observe-Leaves baseline a q n =
        let known = find_pane binding.binding_key a.pane_id q.panes in
        let type = decide baseline known a in
        let stale = is_initial known a && not (is_empty (terminal_of known)) in
        let dropped = drop_pane_events binding.session_id a.pane_id q.pending in
        let q' : Queue Body = record q {
          pending = if stale then dropped else q.pending;
          panes = upsert_pane (pane_of env binding now a) q.panes;
        } in
        if_both (Leaves q.bindings q.capture) (is_empty type) (some (q', n))
          (queue_event env binding now q' n type a (env.uuid n)) (refl, refl)
          (queue_event-Leaves q' n type a (env.uuid n))

    observe_all-Leaves :
        (bs : List Binding) (capture baseline : Bool) (agents : List HerdrAgent)
        (o : Option (Queue Body × ℕ))
        → Leaves bs capture o
        → Leaves bs capture (observe_all env binding now baseline agents o)
    unfolding observe_all
    observe_all-Leaves bs capture baseline agents none h = refl
    observe_all-Leaves bs capture baseline [] (some s) h = h
    observe_all-Leaves bs capture baseline (a ∷ agents) (some (q, n)) h =
        let round = observe env binding now baseline a (q, n) in
        observe_all-Leaves bs capture baseline agents round (
          subst (λ c. Leaves bs c round) (h.1)
            (subst (λ l. Leaves l q.capture round) (h.0) (observe-Leaves baseline a q n)))

    finish-Leaves :
        (bs : List Binding) (capture : Bool) (agents : List HerdrAgent)
        (o : Option (Queue Body × ℕ)) (r : Queue Body)
        → Leaves bs capture o
        → finish env binding now agents o ≡ some r
        → (r.bindings ≡ bs) × (r.capture ≡ capture)
    unfolding finish forget_removed
    finish-Leaves bs capture agents none r h e = absurd (ground arith)
    finish-Leaves bs capture agents (some (q, n)) r h e =
        let same : forget_removed env binding now agents q ≡ r = ground arith in
        subst (λ (s : Queue Body). (s.bindings ≡ bs) × (s.capture ≡ capture)) same h

    length-renewed :
        (incarnation : String) (bs : List Binding)
        → length (
            update
              (has_key binding.binding_key)
              (λ b. record b { incarnation = incarnation; updated_at = now })
              bs)
          ≡ length bs
    length-renewed incarnation [] = refl
    length-renewed incarnation (b ∷ bs) = ground (arith, length-renewed incarnation bs)

    -- Either nothing has changed, or capture is on and the bindings are as many as before.
    reconcile_stored-kept :
        (agents : List HerdrAgent) (incarnation : String) (baseline : Bool) (q r : Queue Body)
        (o : Option Binding)
        → reconcile_stored env binding now agents incarnation baseline q o ≡ some r
        → (q ≡ r) ⊎ ((length r.bindings ≡ length q.bindings) × (r.capture ≡ true))
    unfolding reconcile_stored renew
    reconcile_stored-kept agents incarnation baseline q r none e = absurd (ground arith)
    reconcile_stored-kept agents incarnation baseline q r (some stored) e =
        let start = renew env binding now incarnation stored q in
        let base = baseline || not (str_eq incarnation stored.incarnation) in
        let rounds = observe_all env binding now base agents (some (start, 0)) in
        elim (Bool-cases (not (stored.enabled && q.capture))) [
          | inl off ↦ inl (
              some-inj (
                when_true (not (stored.enabled && q.capture)) (some q)
                  (finish env binding now agents rounds) off e))
          | inr on ↦
              let done =
                when_false (not (stored.enabled && q.capture)) (some q)
                  (finish env binding now agents rounds) on e in
              let (b, c) =
                finish-Leaves start.bindings start.capture agents rounds r
                  (observe_all-Leaves start.bindings start.capture base agents (some (start, 0))
                    (refl, refl))
                  done in
              inr (ap length b ∙ length-renewed incarnation q.bindings, c ∙ ground arith)
        ]

    pub reconcile_herdr-kept :
        (agents : List HerdrAgent) (incarnation : String) (baseline : Bool) (q r : Queue Body)
        → reconcile_herdr env binding now agents incarnation baseline q ≡ some r
        → (q ≡ r) ⊎ ((length r.bindings ≡ length q.bindings) × (r.capture ≡ true))
    unfolding reconcile_herdr
    reconcile_herdr-kept agents incarnation baseline q r e =
        reconcile_stored-kept agents incarnation baseline q r
          (find_binding binding.binding_key q.bindings) e
