-- ===== src/Herdr/Histories/Consistency.antt =====
-- The limits of the tables under every interleaving of the transactions on the queue
-- (notifications/internal/agent/queue.go, herdr_capture.go and herdr_state.go).
use mathlib.Core.Path.{subst}
use nova_codex_bootstrap.Prelude.{
  ◌≡◌, refl, sym, ◌∙◌, String, Bool, true, false, List, [], ◌∷◌, map, count, length, Option, none,
  some, arith, leb, head?, select, inl, inr,
}
use nova_codex_bootstrap.Sql.{delete, order_by}
use nova_codex_bootstrap.Protocol.Event.{Time}
use nova_codex_bootstrap.Queue.Rows.{
  Row, Queue, Binding, enqueue, next, note_source, other_source_first, is_due, complete, retry,
  configure_backend, set_herdr_capture_enabled, clear_notification_capture,
}
use nova_codex_bootstrap.Queue.Invariant.{Call, IsSound, step, step-IsSound}
use nova_codex_bootstrap.Herdr.Agent.{HerdrAgent}
use nova_codex_bootstrap.Herdr.Bindings.{bind_herdr, bind_herdr-le, bind_herdr_keeps}
use nova_codex_bootstrap.Herdr.Reconcile.{Setting, reconcile_herdr}
use nova_codex_bootstrap.Herdr.Panes.{reconcile_herdr-IsSound}
use nova_codex_bootstrap.Herdr.Histories.{
  Step, called, bound, reconciled, Reachable, start, after, IsConsistent,
}
use nova_codex_bootstrap.Herdr.Histories.Rounds.{reconcile_herdr-kept}

module _ {Body : Type 0} (env : Setting Body) (binding : Binding) (now : Time) where
  reconcile_herdr-IsConsistent :
      (agents : List HerdrAgent) (incarnation : String) (baseline : Bool) (q r : Queue Body)
      → reconcile_herdr env binding now agents incarnation baseline q ≡ some r
      → IsConsistent q
      → IsConsistent r
  reconcile_herdr-IsConsistent agents incarnation baseline q r e h =
      elim (reconcile_herdr-kept env binding now agents incarnation baseline q r e) [
        | inl same ↦ subst IsConsistent same h
        | inr (many, on) ↦ (record {
          sound = reconcile_herdr-IsSound env binding now agents incarnation baseline q r h.sound e;
          few = rw many h.few;
          off = λ c. absurd (ground arith);
        })
      ]

module _ {Body : Type 0} (env : Setting Body) where
  length-disabled :
      (bs : List Binding)
      → length (map {A = Binding} (λ b. record b { enabled = false }) bs) ≡ length bs
  length-disabled [] = refl
  length-disabled (b ∷ bs) = ground (arith, length-disabled bs)

  count-disabled :
      (bs : List Binding)
      → count
          (λ (b : Binding). b.enabled)
          (map {A = Binding} (λ b. record b { enabled = false }) bs)
        ≡ 0
  count-disabled [] = refl
  count-disabled (b ∷ bs) = ground (arith, count-disabled bs)

  -- The Herdr tables as they were.
  record SameTables (q r : Queue Body) : Type 0 where
    bindings : r.bindings ≡ q.bindings
    panes : r.panes ≡ q.panes
    capture : r.capture ≡ q.capture

  SameTables-IsConsistent :
      (q r : Queue Body) → IsSound r.pending → SameTables q r → IsConsistent q → IsConsistent r
  SameTables-IsConsistent q r sound same h = record {
    sound = sound;
    few = rw same.bindings h.few;
    off = λ c. let (p, e) = h.off (sym same.capture ∙ c) in (same.panes ∙ p, rw same.bindings e);
  }

  off-IsConsistent :
      (q : Queue Body)
      → IsSound (set_herdr_capture_enabled q false).pending
      → IsConsistent q
      → IsConsistent (set_herdr_capture_enabled q false)
  unfolding set_herdr_capture_enabled
  off-IsConsistent q sound h = record {
    sound = sound;
    few = rw (length-disabled q.bindings) h.few;
    off = λ c. (refl, count-disabled q.bindings);
  }

  note_source-SameTables : (q : Queue Body) (o : Option (Row Body)) → SameTables q (note_source q o)
  unfolding note_source
  note_source-SameTables q none = record { bindings = refl; panes = refl; capture = refl }
  note_source-SameTables q (some r) = record { bindings = refl; panes = refl; capture = refl }

  step-IsConsistent :
      (q : Queue Body) (c : Call Body)
      → IsSound (step env.go env.codec.unmarshal q c).pending
      → IsConsistent q
      → IsConsistent (step env.go env.codec.unmarshal q c)
  unfolding step enqueue next note_source complete retry configure_backend set_herdr_capture_enabled
      clear_notification_capture
  step-IsConsistent q (Call.enqueues id body now) sound h =
      SameTables-IsConsistent q _ sound (record { bindings = refl; panes = refl; capture = refl }) h
  step-IsConsistent q (Call.takes now backend) sound h =
      let live : Queue Body = record q { pending = delete (λ r. leb r.expires_at now) q.pending } in
      let found =
        head? (
          order_by (other_source_first q.last_source) (select (is_due now backend) live.pending)) in
      let same = note_source-SameTables live found in
      SameTables-IsConsistent q (note_source live found) sound
        (record { bindings = same.bindings; panes = same.panes; capture = same.capture }) h
  step-IsConsistent q (Call.completes id) sound h =
      SameTables-IsConsistent q _ sound (record { bindings = refl; panes = refl; capture = refl }) h
  step-IsConsistent q (Call.retries id attempts at) sound h =
      SameTables-IsConsistent q _ sound (record { bindings = refl; panes = refl; capture = refl }) h
  step-IsConsistent q (Call.configures endpoint) sound h =
      SameTables-IsConsistent q _ sound (record { bindings = refl; panes = refl; capture = refl }) h
  step-IsConsistent q (Call.captures true) sound h = record {
    sound = sound;
    few = h.few;
    off = λ c. absurd (ground arith);
  }
  step-IsConsistent q (Call.captures false) sound h = off-IsConsistent q sound h
  step-IsConsistent q Call.clears sound h = record {
    sound = sound;
    few = rw (length-disabled q.bindings) h.few;
    off = λ c. (refl, count-disabled q.bindings);
  }

  bind_herdr-IsConsistent :
      (q : Queue Body) (key socket : String) (now : Time) (fresh : Option String) (b : Binding)
      (r : Queue Body)
      → bind_herdr q key socket now fresh ≡ some (b, r)
      → IsConsistent q
      → IsConsistent r
  bind_herdr-IsConsistent q key socket now fresh b r e h =
      let (few, enabled, on, same) = bind_herdr-le q key socket now fresh b r e h.few in
      let (panes, capture) = bind_herdr_keeps q key socket now fresh b r e in
      record {
        sound = subst IsSound (sym same) h.sound;
        few = few;
        off = λ c. absurd (ground arith);
      }

  Step-IsConsistent : (q r : Queue Body) → Step env q r → IsConsistent q → IsConsistent r
  Step-IsConsistent q r (called c) h =
      step-IsConsistent q c (step-IsSound env.go env.codec.unmarshal q c h.sound) h
  Step-IsConsistent q r (bound key socket now fresh b s e) h =
      bind_herdr-IsConsistent q key socket now fresh b s e h
  Step-IsConsistent q r (reconciled uuid b now agents incarnation baseline s e) h =
      reconcile_herdr-IsConsistent (record env { uuid = uuid }) b now agents incarnation baseline q
        s e h

  -- Whatever transactions are made on a queue, calls, bindings and reconciliations, in whatever
  -- order and of whatever observations, the limits of the pending events and their distinct ids
  -- stay, there stay at most 128 bindings, and while capture is off no pane is stored and no
  -- binding enabled, if all this held before.
  pub Reachable-IsConsistent :
      (q r : Queue Body) → Reachable env q r → IsConsistent q → IsConsistent r
  Reachable-IsConsistent q r start h = h
  Reachable-IsConsistent q r (after s t before last) h =
      Step-IsConsistent s t last (Reachable-IsConsistent q s before h)
