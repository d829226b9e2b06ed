-- ===== src/Herdr/Snapshot.antt =====
-- ReconcileHerdr (notifications/internal/agent/herdr_state.go) against an abstract view: the stored
-- panes of a socket are a map from pane ids, and a reconciliation makes it the observed snapshot.
pub mod Again
pub mod Known
pub mod Reconciled
use mathlib.Core.Path.{subst}
use nova_codex_bootstrap.Prelude.{
  ℕ, ◌+◌, ◌≡◌, ◌≢◌, refl, sym, ap, ◌∙◌, String, Bool, true, false, not, ◌&&◌, ◌||◌, List, [], ◌∷◌,
  Option, none, some, arith, str_eq, is_empty, any, if◌then◌else◌, if_both, inl, inr, eq_iff,
  Bool-cases, Option-cases,
}
use nova_codex_bootstrap.Sql.{delete}
use nova_codex_bootstrap.Protocol.Event.{Time}
use nova_codex_bootstrap.Queue.Rows.{Row, Queue, Binding, Pane, enqueue}
use nova_codex_bootstrap.Herdr.Agent.{HerdrAgent}
use nova_codex_bootstrap.Herdr.Bindings.{find_binding}
use nova_codex_bootstrap.Herdr.Reconcile.{
  Setting, is_pane, of_binding, is_observed, find_pane, decide, is_initial, terminal_of,
  upsert_pane, pane_of, host_event, queue_event, drop_pane_events, drop_events_of, forget_removed,
  observe, observe_all, finish,
}

-- The first of two that is there.
abbrev pub or_else : {A : Type 0} → Option A → Option A → Option A
or_else none d = d
or_else (some a) d = some a

-- The last agent of a snapshot at a pane.
unfoldable pub observed_at_pane : String → List HerdrAgent → Option HerdrAgent
observed_at_pane id [] = none
observed_at_pane id (a ∷ agents) =
    or_else (observed_at_pane id agents) (if str_eq a.pane_id id then some a else none)

find-upsert :
    (key id : String) (p : Pane) (ps : List Pane)
    → find_pane key id (upsert_pane p ps)
      ≡ (if is_pane key id p then some p else find_pane key id ps)
unfolding find_pane upsert_pane
find-upsert key id p [] = refl
find-upsert key id p (o ∷ ps) = ground (
  arith,
  find-upsert key id p ps,
  eq_iff o.binding_key p.binding_key,
  eq_iff o.pane_id p.pane_id,
  eq_iff o.binding_key key,
  eq_iff o.pane_id id,
  eq_iff p.binding_key key,
  eq_iff p.pane_id id,
)

-- Deleting panes by their key and id.
find-delete :
    (key id : String) (gone : String → String → Bool) (ps : List Pane)
    → find_pane key id (delete (λ (p : Pane). gone p.binding_key p.pane_id) ps)
      ≡ (if gone key id then none else find_pane key id ps)
unfolding find_pane
find-delete key id gone [] = ground arith
find-delete key id gone (o ∷ ps) = elim (Bool-cases (is_pane key id o)) [
  | inl e ↦
      let k : o.binding_key ≡ key = ground (arith, eq_iff o.binding_key key) in
      let i : o.pane_id ≡ id = ground (arith, eq_iff o.pane_id id) in
      let g : gone o.binding_key o.pane_id ≡ gone key id =
        ap (λ x. gone x o.pane_id) k ∙ ap (gone key) i in
      ground (arith, g, find-delete key id gone ps)
  | inr e ↦ ground (arith, find-delete key id gone ps)
]

module _ {Body : Type 0} (env : Setting Body) (binding : Binding) (now : Time) where
  -- What the snapshot says of a pane, as a stored row.
  abbrev pub snapshot_row : Option HerdrAgent → Option Pane
  snapshot_row none = none
  snapshot_row (some a) = some (pane_of env binding now a)

  -- A round that fails, or leaves these panes.
  abbrev HasPanes : List Pane → Option (Queue Body × ℕ) → Type 0
  HasPanes ps none = ◌≡◌ {A = ℕ} 0 0
  HasPanes ps (some (q, n)) = q.panes ≡ ps

  queue_event-HasPanes :
      (q : Queue Body) (n : ℕ) (type : String) (a : HerdrAgent) (o : Option String)
      → HasPanes q.panes (queue_event env binding now q n type a o)
  unfolding queue_event enqueue
  queue_event-HasPanes q n type a none = refl
  queue_event-HasPanes q n type a (some id) = refl

  observe-HasPanes :
      (baseline : Bool) (a : HerdrAgent) (q : Queue Body) (n : ℕ)
      → HasPanes
          (upsert_pane (pane_of env binding now a) q.panes)
          (observe env binding now baseline a (q, n))
  unfolding observe
  observe-HasPanes baseline a q n =
      let known = find_pane binding.binding_key a.pane_id q.panes in
      let type = decide baseline known a in
      let stale = is_initial known a && not (is_empty (terminal_of known)) in
      let dropped = drop_pane_events binding.session_id a.pane_id q.pending in
      let q' : Queue Body = record q {
        pending = if stale then dropped else q.pending;
        panes = upsert_pane (pane_of env binding now a) q.panes;
      } in
      if_both (HasPanes q'.panes) (is_empty type) (some (q', n))
        (queue_event env binding now q' n type a (env.uuid n)) refl
        (queue_event-HasPanes q' n type a (env.uuid n))

  -- The panes of the binding, as a map, after the loop: the snapshot's, and else what was stored.
  abbrev Merged : List HerdrAgent → (String → Option Pane) → Option (Queue Body × ℕ) → Type 0
  Merged agents before none = ◌≡◌ {A = ℕ} 0 0
  Merged agents before (some (q, n)) =
      (id : String)
      → find_pane binding.binding_key id q.panes
        ≡ or_else (snapshot_row (observed_at_pane id agents)) (before id)

  HasPanes-Merged :
      (ps : List Pane) (o : Option (Queue Body × ℕ))
      → HasPanes ps o
      → Merged [] (λ id. find_pane binding.binding_key id ps) o
  unfolding observed_at_pane
  HasPanes-Merged ps none h = refl
  HasPanes-Merged ps (some (q, n)) h = λ id. ap (find_pane binding.binding_key id) h

  -- One agent more: its row stands where no later agent is at its pane.
  row_of_first :
      (a : HerdrAgent) (id : String) (later : Option HerdrAgent) (ps : List Pane)
      → or_else
          (snapshot_row later)
          (find_pane binding.binding_key id (upsert_pane (pane_of env binding now a) ps))
        ≡ or_else
            (snapshot_row (or_else later (if str_eq a.pane_id id then some a else none)))
            (find_pane binding.binding_key id ps)
  unfolding pane_of
  row_of_first a id (some b) ps = refl
  row_of_first a id none ps =
      find-upsert binding.binding_key id (pane_of env binding now a) ps
      ∙ ground (arith, eq_iff binding.binding_key binding.binding_key)

  Merged-cons :
      (a : HerdrAgent) (agents : List HerdrAgent) (ps : List Pane) (before : String → Option Pane)
      (o : Option (Queue Body × ℕ))
      → ((id : String) → find_pane binding.binding_key id ps ≡ before id)
      → Merged agents
          (λ id. find_pane binding.binding_key id (upsert_pane (pane_of env binding now a) ps))
          o
      → Merged (a ∷ agents) before o
  unfolding observed_at_pane
  Merged-cons a agents ps before none start h = refl
  Merged-cons a agents ps before (some (q, n)) start h = λ id.
      h id
      ∙ (row_of_first a id (observed_at_pane id agents) ps
          ∙ ap
              (or_else (
                snapshot_row (
                  or_else (observed_at_pane id agents)
                    (if str_eq a.pane_id id then some a else none))))
              (start id))

  observe_all-Merged :
      (baseline : Bool) (agents : List HerdrAgent) (o : Option (Queue Body × ℕ))
      (before : String → Option Pane)
      → Merged [] before o
      → Merged agents before (observe_all env binding now baseline agents o)
  unfolding observe_all observed_at_pane
  observe_all-Merged baseline agents none before h = refl
  observe_all-Merged baseline [] (some (q, n)) before h = h
  observe_all-Merged baseline (a ∷ agents) (some (q, n)) before h =
      let ps = upsert_pane (pane_of env binding now a) q.panes in
      let round = observe env binding now baseline a (q, n) in
      Merged-cons a agents q.panes before (observe_all env binding now baseline agents round) h (
        observe_all-Merged baseline agents round (λ id. find_pane binding.binding_key id ps)
          (HasPanes-Merged ps round (observe-HasPanes baseline a q n)))

  observed_none :
      (id : String) (agents : List HerdrAgent)
      → is_observed env binding now agents id ≡ false
      → observed_at_pane id agents ≡ none
  unfolding observed_at_pane
  observed_none id [] h = refl
  observed_none id (a ∷ agents) h = ground (arith, observed_none id agents)

  observed_some :
      (id : String) (agents : List HerdrAgent)
      → is_observed env binding now agents id ≡ true
      → (a : HerdrAgent) × (observed_at_pane id agents ≡ some a)
  unfolding observed_at_pane
  observed_some id [] h = absurd (ground arith)
  observed_some id (a ∷ agents) h = elim (Bool-cases (is_observed env binding now agents id)) [
    | inl e ↦ let (b, f) = observed_some id agents e in (b, rw f refl)
    | inr e ↦ (a, rw (observed_none id agents e) (ground arith))
  ]

  -- Whether a row under a key and a pane is forgotten.
  abbrev forgotten : List HerdrAgent → String → String → Bool
  forgotten agents key id =
      str_eq key binding.binding_key && not (is_observed env binding now agents id)

  -- What remains of the merged panes.
  remaining :
      (agents : List HerdrAgent) (id : String) (before : Option Pane)
      → (if forgotten agents binding.binding_key id
          then none
          else or_else (snapshot_row (observed_at_pane id agents)) before)
        ≡ snapshot_row (observed_at_pane id agents)
  remaining agents id before = elim (Bool-cases (is_observed env binding now agents id)) [
    | inr e ↦
        rw (e, observed_none id agents e, (eq_iff binding.binding_key binding.binding_key).1 refl)
          refl
    | inl e ↦ let (a, f) = observed_some id agents e in rw (e, f) (ground arith)
  ]

  finish-snapshot :
      (agents : List HerdrAgent) (o : Option (Queue Body × ℕ)) (before : String → Option Pane)
      (r : Queue Body) (id : String)
      → Merged agents before o
      → finish env binding now agents o ≡ some r
      → find_pane binding.binding_key id r.panes ≡ snapshot_row (observed_at_pane id agents)
  unfolding finish forget_removed
  finish-snapshot agents none before r id m h = absurd (ground arith)
  finish-snapshot agents (some (q, n)) before r id m h =
      let same : forget_removed env binding now agents q ≡ r = ground arith in
      subst
        (λ (s : Queue Body).
          find_pane binding.binding_key id s.panes ≡ snapshot_row (observed_at_pane id agents))
        same
        (find-delete binding.binding_key id (forgotten agents) q.panes
          ∙ (ap (λ (f : Option Pane). if forgotten agents binding.binding_key id then none else f)
                (m id)
              ∙ remaining agents id (before id)))

  -- A row under another key stays.
  abbrev KeepsAt : String → String → Option Pane → Option (Queue Body × ℕ) → Type 0
  KeepsAt key id row none = ◌≡◌ {A = ℕ} 0 0
  KeepsAt key id row (some (q, n)) = find_pane key id q.panes ≡ row

  HasPanes-KeepsAt :
      (key id : String) (a : HerdrAgent) (ps : List Pane) (o : Option (Queue Body × ℕ))
      → str_eq binding.binding_key key ≡ false
      → HasPanes (upsert_pane (pane_of env binding now a) ps) o
      → KeepsAt key id (find_pane key id ps) o
  unfolding pane_of
  HasPanes-KeepsAt key id a ps none other h = refl
  HasPanes-KeepsAt key id a ps (some (q, n)) other h =
      ap (find_pane key id) h ∙ (find-upsert key id (pane_of env binding now a) ps ∙ ground arith)

  observe_all-KeepsAt :
      (key id : String) (baseline : Bool) (agents : List HerdrAgent) (o : Option (Queue Body × ℕ))
      (row : Option Pane)
      → str_eq binding.binding_key key ≡ false
      → KeepsAt key id row o
      → KeepsAt key id row (observe_all env binding now baseline agents o)
  unfolding observe_all
  observe_all-KeepsAt key id baseline agents none row other h = refl
  observe_all-KeepsAt key id baseline [] (some (q, n)) row other h = h
  observe_all-KeepsAt key id baseline (a ∷ agents) (some (q, n)) row other h =
      let round = observe env binding now baseline a (q, n) in
      observe_all-KeepsAt key id baseline agents round row other (
        subst (λ w. KeepsAt key id w round) h
          (HasPanes-KeepsAt key id a q.panes round other (observe-HasPanes baseline a q n)))
