-- ===== src/Herdr/Panes.antt =====
-- What ReconcileHerdr leaves of the queue and of the observed panes
-- (notifications/internal/agent/herdr_state.go).
use mathlib.Core.Path.{subst}
use nova_codex_bootstrap.Prelude.{
  ℕ, ◌≡◌, refl, String, Bool, true, not, ◌&&◌, ◌||◌, List, [], ◌∷◌, count, Option, none, some,
  arith, str_eq, is_empty, if◌then◌else◌, if_both,
}
use nova_codex_bootstrap.Sql.{delete}
use nova_codex_bootstrap.Protocol.Event.{Time}
use nova_codex_bootstrap.Queue.Rows.{Row, Queue, Binding, Pane, in_session}
use nova_codex_bootstrap.Queue.Invariant.{IsSound, select-IsSound, enqueue-IsSound}
use nova_codex_bootstrap.Herdr.Agent.{HerdrAgent}
use nova_codex_bootstrap.Herdr.Bindings.{find_binding}
use nova_codex_bootstrap.Herdr.Reconcile.{
  Setting, of_binding, is_observed, find_pane, decide, is_initial, terminal_of, upsert_pane,
  pane_of, host_event, queue_event, drop_pane_events, drop_events_of, forget_removed, observe,
  observe_all, finish, renew, reconcile_stored, reconcile_herdr,
}

-- No element that was deleted is left.
count-delete : {A : Type 0} (p : A → Bool) (xs : List A) → count p (delete p xs) ≡ 0
count-delete p [] = refl
count-delete p (x ∷ xs) = ground (arith, count-delete p xs)

module _ {Body : Type 0} where
  -- A round that fails, or leaves pending events that are sound.
  abbrev Keeps : Option (Queue Body × ℕ) → Type 0
  Keeps none = true ≡ true
  Keeps (some (q, n)) = IsSound q.pending

  abbrev KeepsQueue : Option (Queue Body) → Type 0
  KeepsQueue none = true ≡ true
  KeepsQueue (some q) = IsSound q.pending

  drop_pane_events-IsSound :
      (session id : String) (rows : List (Row Body))
      → IsSound rows
      → IsSound (drop_pane_events session id rows)
  unfolding drop_pane_events
  drop_pane_events-IsSound session id rows h = select-IsSound _ rows h

module _ {Body : Type 0} (env : Setting Body) (binding : Binding) (now : Time) where
  drop_events_of-IsSound :
      (ps : List Pane) (rows : List (Row Body))
      → IsSound rows
      → IsSound (drop_events_of env binding now ps rows)
  unfolding drop_events_of
  drop_events_of-IsSound [] rows h = h
  drop_events_of-IsSound (p ∷ ps) rows h =
      drop_events_of-IsSound ps (drop_pane_events binding.session_id p.pane_id rows)
        (drop_pane_events-IsSound binding.session_id p.pane_id rows h)

  queue_event-Keeps :
      (q : Queue Body) (n : ℕ) (type : String) (a : HerdrAgent) (o : Option String)
      → IsSound q.pending
      → Keeps (queue_event env binding now q n type a o)
  unfolding queue_event
  queue_event-Keeps q n type a none h = refl
  queue_event-Keeps q n type a (some id) h =
      enqueue-IsSound env.go env.codec.unmarshal q id
        (env.codec.marshal (host_event env binding now type a)) now h

  observe-Keeps :
      (baseline : Bool) (a : HerdrAgent) (q : Queue Body) (n : ℕ)
      → IsSound q.pending
      → Keeps (observe env binding now baseline a (q, n))
  unfolding observe
  observe-Keeps baseline a q n h =
      let known = find_pane binding.binding_key a.pane_id q.panes in
      let type = decide baseline known a in
      let stale = is_initial known a && not (is_empty (terminal_of known)) in
      let dropped = drop_pane_events binding.session_id a.pane_id q.pending in
      let q' : Queue Body = record q {
        pending = if stale then dropped else q.pending;
        panes = upsert_pane (pane_of env binding now a) q.panes;
      } in
      let sound =
        if_both IsSound stale dropped q.pending
          (drop_pane_events-IsSound binding.session_id a.pane_id q.pending h) h in
      if_both Keeps (is_empty type) (some (q', n))
        (queue_event env binding now q' n type a (env.uuid n)) sound
        (queue_event-Keeps q' n type a (env.uuid n) sound)

  observe_all-Keeps :
      (baseline : Bool) (agents : List HerdrAgent) (o : Option (Queue Body × ℕ))
      → Keeps o
      → Keeps (observe_all env binding now baseline agents o)
  unfolding observe_all
  observe_all-Keeps baseline agents none h = refl
  observe_all-Keeps baseline [] (some s) h = h
  observe_all-Keeps baseline (a ∷ agents) (some (q, n)) h =
      observe_all-Keeps baseline agents (observe env binding now baseline a (q, n))
        (observe-Keeps baseline a q n h)

  finish-Keeps :
      (agents : List HerdrAgent) (o : Option (Queue Body × ℕ))
      → Keeps o
      → KeepsQueue (finish env binding now agents o)
  unfolding finish forget_removed
  finish-Keeps agents none h = refl
  finish-Keeps agents (some (q, n)) h = drop_events_of-IsSound _ q.pending h

  renew-IsSound :
      (incarnation : String) (stored : Binding) (q : Queue Body)
      → IsSound q.pending
      → IsSound (renew env binding now incarnation stored q).pending
  unfolding renew
  renew-IsSound incarnation stored q h =
      if_both IsSound
        (not (str_eq incarnation stored.incarnation) && not (is_empty stored.incarnation))
        (delete (in_session binding.session_id) q.pending) q.pending (select-IsSound _ q.pending h)
        h

  reconcile_stored-Keeps :
      (agents : List HerdrAgent) (incarnation : String) (baseline : Bool) (q : Queue Body)
      (o : Option Binding)
      → IsSound q.pending
      → KeepsQueue (reconcile_stored env binding now agents incarnation baseline q o)
  unfolding reconcile_stored
  reconcile_stored-Keeps agents incarnation baseline q none h = refl
  reconcile_stored-Keeps agents incarnation baseline q (some stored) h =
      let all =
        observe_all env binding now (baseline || not (str_eq incarnation stored.incarnation)) agents
          (some (renew env binding now incarnation stored q, 0)) in
      if_both KeepsQueue (not (stored.enabled && q.capture)) (some q)
        (finish env binding now agents all) h
        (finish-Keeps agents all (
          observe_all-Keeps (baseline || not (str_eq incarnation stored.incarnation)) agents
            (some (renew env binding now incarnation stored q, 0))
            (renew-IsSound incarnation stored q h)))

  -- A pane of the binding that was not observed.
  abbrev pub is_left : List HerdrAgent → Pane → Bool
  is_left agents p =
      of_binding binding.binding_key p && not (is_observed env binding now agents p.pane_id)

  finish-observed :
      (agents : List HerdrAgent) (o : Option (Queue Body × ℕ)) (r : Queue Body)
      → finish env binding now agents o ≡ some r
      → count (is_left agents) r.panes ≡ 0
  unfolding finish forget_removed
  finish-observed agents none r h = absurd (ground arith)
  finish-observed agents (some (q, n)) r h =
      let same : forget_removed env binding now agents q ≡ r = ground arith in
      subst (λ (s : Queue Body). count (is_left agents) s.panes ≡ 0) same
        (count-delete (is_left agents) q.panes)

  -- A reconciliation that succeeds keeps the limits of the queue and the distinct ids of the pending
  -- events, whatever is observed.
  pub reconcile_herdr-IsSound :
      (agents : List HerdrAgent) (incarnation : String) (baseline : Bool) (q r : Queue Body)
      → IsSound q.pending
      → reconcile_herdr env binding now agents incarnation baseline q ≡ some r
      → IsSound r.pending
  unfolding reconcile_herdr
  reconcile_herdr-IsSound agents incarnation baseline q r h e = subst KeepsQueue e (
      reconcile_stored-Keeps agents incarnation baseline q
        (find_binding binding.binding_key q.bindings) h)

  -- After a successful reconciliation of an enabled binding while capture is on, the stored panes
  -- of the binding are among the observed ones.
  pub reconcile_herdr-observed :
      (agents : List HerdrAgent) (incarnation : String) (baseline : Bool) (q r : Queue Body)
      (stored : Binding)
      → find_binding binding.binding_key q.bindings ≡ some stored
      → stored.enabled ≡ true
      → q.capture ≡ true
      → reconcile_herdr env binding now agents incarnation baseline q ≡ some r
      → count (is_left agents) r.panes ≡ 0
  unfolding reconcile_herdr reconcile_stored
  reconcile_herdr-observed agents incarnation baseline q r stored found enabled capture h =
      finish-observed agents _ r (rw (found, enabled, capture, reconcile_stored) at h)
