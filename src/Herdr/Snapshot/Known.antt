-- ===== src/Herdr/Snapshot/Known.antt =====
-- The loop of ReconcileHerdr (notifications/internal/agent/herdr_state.go) over agents that are stored
-- already.
use nova_codex_bootstrap.Prelude.{
  ℕ, ◌≡◌, refl, sym, ap, ◌∙◌, String, Bool, false, not, ◌&&◌, List, [], ◌∷◌, none, some, some-inj,
  arith, str_eq, eq_iff, select, inl, inr, Bool-cases,
}
use nova_codex_bootstrap.Sql.First.{In}
use nova_codex_bootstrap.Protocol.Event.{Time}
use nova_codex_bootstrap.Queue.Rows.{Queue, Binding, Pane}
use nova_codex_bootstrap.Herdr.Agent.{HerdrAgent}
use nova_codex_bootstrap.Herdr.Reconcile.{
  Setting, find_pane, decide, decide_known, is_initial, is_observed, of_binding, upsert_pane,
  pane_of, observe, observe_all,
}
use nova_codex_bootstrap.Herdr.Snapshot.{observed_at_pane, find-upsert}

-- No two agents of a snapshot are at one pane: each is the last one at its own.
abbrev pub OnePaneEach : List HerdrAgent → Type 0
OnePaneEach agents = (a : HerdrAgent) → In a agents → observed_at_pane a.pane_id agents ≡ some a

-- The row says of its pane what the agent says.
pub record Agrees (p : Pane) (a : HerdrAgent) : Type 0 where
  pub terminal : p.terminal_id ≡ a.terminal_id
  pub sequence : p.sequence ≡ a.sequence

Agrees-silent :
    (baseline : Bool) (p : Pane) (a : HerdrAgent) → Agrees p a → decide baseline (some p) a ≡ ""
unfolding decide decide_known
Agrees-silent baseline p a h = ground (arith, h.sequence)

Agrees-known : (p : Pane) (a : HerdrAgent) → Agrees p a → is_initial (some p) a ≡ false
unfolding is_initial
Agrees-known p a h = ground (arith, h.terminal, h.sequence, eq_iff p.terminal_id a.terminal_id)

module _ {Body : Type 0} (env : Setting Body) (binding : Binding) (now : Time) where
  -- The rows that stand for a pane agree with the agent at it.
  pub record IsKnown (ps : List Pane) (a : HerdrAgent) : Type 0 where
    pub pane : Pane
    pub found : find_pane binding.binding_key a.pane_id ps ≡ some pane
    pub agrees : Agrees pane a

  -- A round for an agent that is known.
  observe-silent :
      (baseline : Bool) (a : HerdrAgent) (q : Queue Body) (n : ℕ)
      → IsKnown q.panes a
      → observe env binding now baseline a (q, n)
        ≡ some (record q { panes = upsert_pane (pane_of env binding now a) q.panes }, n)
  unfolding observe
  observe-silent baseline a q n h =
      rw (h.found, Agrees-silent baseline h.pane a h.agrees, Agrees-known h.pane a h.agrees) refl

  abbrev pub AllKnown : List Pane → List HerdrAgent → Type 0
  AllKnown ps agents = (a : HerdrAgent) → In a agents → IsKnown ps a

  same_agent :
      (all : List HerdrAgent) (a b : HerdrAgent)
      → OnePaneEach all
      → In a all
      → In b all
      → a.pane_id ≡ b.pane_id
      → a ≡ b
  same_agent all a b one ha hb same =
      some-inj (sym (one a ha) ∙ (ap (λ (id : String). observed_at_pane id all) same ∙ one b hb))

  upsert-IsKnown :
      (all : List HerdrAgent) (a b : HerdrAgent) (ps : List Pane)
      → OnePaneEach all
      → In a all
      → In b all
      → IsKnown ps b
      → IsKnown (upsert_pane (pane_of env binding now a) ps) b
  unfolding pane_of
  upsert-IsKnown all a b ps one ha hb h =
      let found = find-upsert binding.binding_key b.pane_id (pane_of env binding now a) ps in
      let own = (eq_iff binding.binding_key binding.binding_key).1 refl in
      elim (Bool-cases (str_eq a.pane_id b.pane_id)) [
        | inl e ↦
            let equal = same_agent all a b one ha hb ((eq_iff a.pane_id b.pane_id).0 e) in
            record {
              pane = pane_of env binding now a;
              found = found ∙ rw (own, e) refl;
              agrees = record {
                terminal = ap (λ (c : HerdrAgent). c.terminal_id) equal;
                sequence = ap (λ (c : HerdrAgent). c.sequence) equal;
              };
            }
        | inr e ↦ record { pane = h.pane; found = found ∙ rw (own, e) h.found; agrees = h.agrees }
      ]

  upsert-elsewhere :
      (all : List HerdrAgent) (a : HerdrAgent) (id : String) (ps : List Pane)
      → OnePaneEach all
      → In a all
      → observed_at_pane id all ≡ none
      → find_pane binding.binding_key id (upsert_pane (pane_of env binding now a) ps)
        ≡ find_pane binding.binding_key id ps
  unfolding pane_of
  upsert-elsewhere all a id ps one ha h =
      find-upsert binding.binding_key id (pane_of env binding now a) ps
      ∙ elim (Bool-cases (str_eq a.pane_id id)) [
        | inr e ↦ rw e (ground arith)
        | inl e ↦
            let at_id = (eq_iff a.pane_id id).0 e in
            let both : some a ≡ none =
              sym (one a ha) ∙ (ap (λ (i : String). observed_at_pane i all) at_id ∙ h) in
            absurd (ground (arith, both))
      ]

  -- The loop over agents that are known changes no event and adds no row.
  pub observe_all-silent :
      (baseline : Bool) (all agents : List HerdrAgent) (q : Queue Body) (n : ℕ)
      → OnePaneEach all
      → ((a : HerdrAgent) → In a agents → In a all)
      → AllKnown q.panes all
      → (ps : List Pane) × (observe_all env binding now baseline agents (some (q, n))
          ≡ some (record q { panes = ps }, n))
        × ((id : String)
            → observed_at_pane id all ≡ none
            → find_pane binding.binding_key id ps ≡ find_pane binding.binding_key id q.panes)
  unfolding observe_all
  observe_all-silent baseline all [] q n one part known = (q.panes, refl, λ id h. refl)
  observe_all-silent baseline all (a ∷ agents) q n one part known =
      let ha = part a (inl refl) in
      let ps = upsert_pane (pane_of env binding now a) q.panes in
      let (qs, done, elsewhere) =
        observe_all-silent baseline all agents (record q { panes = ps }) n one
          (λ (b : HerdrAgent) (h : In b agents). part b (inr h))
          (λ (b : HerdrAgent) (hb : In b all).
            upsert-IsKnown all a b q.panes one ha hb (known b hb)) in
      (
        qs,
        ap (observe_all env binding now baseline agents)
              (observe-silent baseline a q n (known a ha))
            ∙ done,
        λ id h. elsewhere id h ∙ upsert-elsewhere all a id q.panes one ha h,
      )

  -- With no row at an unobserved pane nothing is forgotten.
  pub nothing_removed :
      (agents : List HerdrAgent) (ps : List Pane)
      → ((id : String)
          → is_observed env binding now agents id ≡ false
          → find_pane binding.binding_key id ps ≡ none)
      → select
          (λ (p : Pane).
            of_binding binding.binding_key p && not (is_observed env binding now agents p.pane_id))
          ps
        ≡ []
  unfolding find_pane
  nothing_removed agents [] h = refl
  nothing_removed agents (p ∷ ps) h =
      let tail : (id : String)
          → is_observed env binding now agents id ≡ false
          → find_pane binding.binding_key id ps ≡ none =
        λ id e. ground (arith, h id e) in
      elim (Bool-cases (is_observed env binding now agents p.pane_id)) [
        | inl e ↦ ground (arith, e, nothing_removed agents ps tail)
        | inr e ↦
            ground
              (arith, e, h p.pane_id e, eq_iff p.pane_id p.pane_id, nothing_removed agents ps tail)
      ]
