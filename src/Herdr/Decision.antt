-- ===== src/Herdr/Decision.antt =====
-- Which observations notify, for ReconcileHerdr of notifications/internal/agent/herdr_state.go.
use nova_codex_bootstrap.Prelude.{
  ℕ, ◌<◌, ◌≡◌, ◌≢◌, ◌↔◌, ◌⊎◌, refl, sym, ap, Bool, true, false, not, ◌&&◌, arith, Option, none,
  some, ltb, str_eq, is_empty, eq_iff, inl, inr, Bool-cases,
}
use nova_codex_bootstrap.Protocol.Event.{attention_required, progress_updated}
use nova_codex_bootstrap.Queue.Rows.{Pane}
use nova_codex_bootstrap.Herdr.Agent.{HerdrAgent}
use nova_codex_bootstrap.Herdr.Reconcile.{
  decide, decide_known, transition, is_initial, is_completed, is_finished, is_number,
}

-- A later observation of the same terminal, with progress and a named agent.
pub record IsLater (baseline : Bool) (p : Pane) (a : HerdrAgent) : Type 0 where
  pub not_baseline : baseline ≡ false
  pub same_terminal : p.terminal_id ≡ a.terminal_id
  pub progressed : p.sequence < a.sequence
  pub named : a.agent ≢ ""

-- The first observation of a pane, one under another terminal, one whose sequence went back, a
-- baseline, and an observation of no agent notify nothing.
pub decide_silent :
    (baseline : Bool) (known : Option Pane) (a : HerdrAgent)
    → (baseline ≡ true) ⊎ ((is_initial known a ≡ true) ⊎ (a.agent ≡ ""))
    → decide baseline known a ≡ ""
unfolding decide decide_known is_initial
decide_silent baseline none a h = refl
decide_silent baseline (some p) a h = ground (arith, eq_iff a.agent "")

test-IsLater :
    (baseline : Bool) (p : Pane) (a : HerdrAgent)
    → (not baseline
        && not (is_initial (some p) a)
        && not (is_empty a.agent)
        && ltb p.sequence a.sequence)
      ≡ true
    → IsLater baseline p a
unfolding is_initial
test-IsLater baseline p a h = record {
  not_baseline = ground arith;
  same_terminal = ground (arith, eq_iff p.terminal_id a.terminal_id);
  progressed = ground arith;
  named = λ e. ground (arith, eq_iff a.agent "");
}

IsLater-test :
    (baseline : Bool) (p : Pane) (a : HerdrAgent)
    → IsLater baseline p a
    → (not baseline
        && not (is_initial (some p) a)
        && not (is_empty a.agent)
        && ltb p.sequence a.sequence)
      ≡ true
unfolding is_initial
IsLater-test baseline p a h =
    ground (arith, eq_iff p.terminal_id a.terminal_id, eq_iff a.agent "", h.named)

progress_ne_attention : ¬ (progress_updated ≡ attention_required)
progress_ne_attention e = let equal = (eq_iff progress_updated attention_required).1 e in cc equal

none_ne_attention : ¬ ("" ≡ attention_required)
none_ne_attention e = let equal = (eq_iff "" attention_required).1 e in cc equal

none_ne_progress : ¬ ("" ≡ progress_updated)
none_ne_progress e = let equal = (eq_iff "" progress_updated).1 e in cc equal

-- The test under which an observation may notify.
abbrev later : Bool → Pane → HerdrAgent → Bool
later baseline p a =
    not baseline
    && not (is_initial (some p) a)
    && not (is_empty a.agent)
    && ltb p.sequence a.sequence

attention_needs :
    (p : Pane) (a : HerdrAgent)
    → transition p a ≡ attention_required
    → (a.status ≡ "blocked") × (p.status ≢ "blocked")
unfolding transition
attention_needs p a h = elim (Bool-cases (is_completed p a && is_finished a)) [
  | inl e ↦ absurd (progress_ne_attention (rw (e, transition) at h))
  | inr e ↦ elim (Bool-cases (str_eq a.status "blocked" && not (str_eq p.status "blocked"))) [
    | inr f ↦ absurd (none_ne_attention (rw (e, f, transition) at h))
    | inl f ↦
        (ground (arith, eq_iff a.status "blocked"), λ s. ground (arith, eq_iff p.status "blocked"))
  ]
]

blocked_attention :
    (p : Pane) (a : HerdrAgent)
    → a.status ≡ "blocked"
    → p.status ≢ "blocked"
    → transition p a ≡ attention_required
unfolding transition
blocked_attention p a s n = elim (Bool-cases (str_eq p.status "blocked")) [
  | inl e ↦ absurd (n ((eq_iff p.status "blocked").0 e))
  | inr e ↦ elim (Bool-cases (is_completed p a)) [ inl c ↦ rw (c, s, e) | inr c ↦ rw (c, s, e) ]
]

-- For a known pane an attention event is due exactly if the observation is a later one of the same
-- terminal with a named agent and is no baseline, the agent is blocked, and it was not blocked
-- before.
pub decide_attention :
    (baseline : Bool) (p : Pane) (a : HerdrAgent)
    → (decide baseline (some p) a ≡ attention_required)
      ↔ (IsLater baseline p a × (a.status ≡ "blocked") × (p.status ≢ "blocked"))
unfolding decide decide_known
decide_attention baseline p a = (to, from)
  where
    to :
        decide baseline (some p) a ≡ attention_required
        → IsLater baseline p a × (a.status ≡ "blocked") × (p.status ≢ "blocked")
    to h = elim (Bool-cases (later baseline p a)) [
      | inr e ↦ absurd (none_ne_attention (rw (e, decide_known) at h))
      | inl e ↦
          let needs = attention_needs p a (rw (e, decide_known) at h) in
          (test-IsLater baseline p a e, needs.0, needs.1)
    ]

    from :
        IsLater baseline p a × (a.status ≡ "blocked") × (p.status ≢ "blocked")
        → decide baseline (some p) a ≡ attention_required
    from h = rw (IsLater-test baseline p a h.0) (blocked_attention p a h.1 h.2)

-- The agent's work is over, from what it reports and what was stored: a server that gives evidence of
-- completion gives the number of this very observation, and for any other one the agent was working.
abbrev pub HasCompleted : Pane → HerdrAgent → Type 0
HasCompleted p a =
    ((a.completion_supported ≡ true) × (a.completion_sequence ≡ some a.sequence))
    ⊎ ((a.completion_supported ≡ false) × (p.status ≡ "working"))

is_number-some : (o : Option ℕ) (n : ℕ) → is_number o n ≡ true → o ≡ some n
is_number-some none n h = cc
is_number-some (some m) n h = ap some (ground arith)

some-is_number : (o : Option ℕ) (n : ℕ) → o ≡ some n → is_number o n ≡ true
some-is_number none n h = absurd (ground arith)
some-is_number (some m) n h = let same : m ≡ n = ground arith in ground arith

completed-HasCompleted : (p : Pane) (a : HerdrAgent) → is_completed p a ≡ true → HasCompleted p a
unfolding is_completed
completed-HasCompleted p a h = elim (Bool-cases a.completion_supported) [
  | inl e ↦ inl (e, is_number-some a.completion_sequence a.sequence (rw e at h))
  | inr e ↦ inr (e, (eq_iff p.status "working").0 (rw e at h))
]

HasCompleted-completed : (p : Pane) (a : HerdrAgent) → HasCompleted p a → is_completed p a ≡ true
unfolding is_completed
HasCompleted-completed p a (inl h) = rw h.0 (some-is_number a.completion_sequence a.sequence h.1)
HasCompleted-completed p a (inr h) = rw h.0 ((eq_iff p.status "working").1 h.1)

progress_needs :
    (p : Pane) (a : HerdrAgent)
    → transition p a ≡ progress_updated
    → (is_completed p a ≡ true) × ((a.status ≡ "idle") ⊎ (a.status ≡ "done"))
unfolding transition
progress_needs p a h = elim (Bool-cases (is_completed p a && is_finished a)) [
  | inl e ↦ (ground arith, ground (arith, eq_iff a.status "idle", eq_iff a.status "done"))
  | inr e ↦ elim (Bool-cases (str_eq a.status "blocked" && not (str_eq p.status "blocked"))) [
    | inl f ↦ absurd (progress_ne_attention (sym (rw (e, f, transition) at h)))
    | inr f ↦ absurd (none_ne_progress (rw (e, f, transition) at h))
  ]
]

finished_progress :
    (p : Pane) (a : HerdrAgent)
    → is_completed p a ≡ true
    → (a.status ≡ "idle") ⊎ (a.status ≡ "done")
    → transition p a ≡ progress_updated
unfolding transition
finished_progress p a c (inl s) = rw (c, s)
finished_progress p a c (inr s) = rw (c, s)

-- For a known pane a progress event is due exactly if the observation is a later one of the same
-- terminal with a named agent and is no baseline, the agent is idle or done, and its work is
-- completed: it gives evidence of completion and that has the number of this observation, or it
-- gives none and was working before.
pub decide_progress :
    (baseline : Bool) (p : Pane) (a : HerdrAgent)
    → (decide baseline (some p) a ≡ progress_updated)
      ↔ (IsLater baseline p a × HasCompleted p a × ((a.status ≡ "idle") ⊎ (a.status ≡ "done")))
unfolding decide decide_known
decide_progress baseline p a = (to, from)
  where
    to :
        decide baseline (some p) a ≡ progress_updated
        → IsLater baseline p a × HasCompleted p a × ((a.status ≡ "idle") ⊎ (a.status ≡ "done"))
    to h = elim (Bool-cases (later baseline p a)) [
      | inr e ↦ absurd (none_ne_progress (rw (e, decide_known) at h))
      | inl e ↦
          let needs = progress_needs p a (rw (e, decide_known) at h) in
          (test-IsLater baseline p a e, completed-HasCompleted p a needs.0, needs.1)
    ]

    from :
        IsLater baseline p a × HasCompleted p a × ((a.status ≡ "idle") ⊎ (a.status ≡ "done"))
        → decide baseline (some p) a ≡ progress_updated
    from h =
        rw (IsLater-test baseline p a h.0)
          (finished_progress p a (HasCompleted-completed p a h.1) h.2)
