-- ===== src/Queue/Invariant.antt =====
-- What every history of calls keeps of the queue (notifications/internal/agent/queue.go).
use nova_codex_bootstrap.Prelude.{
  ℕ, suc, ◌≤◌, ◌≡◌, refl, ap, String, Bool, true, false, not, List, [], ◌∷◌, select, count, length,
  arith, Option, leb, inl, inr, Option-cases, count-select-le, length-select, count-le-length,
}
use nova_codex_bootstrap.Sql.{update}
use nova_codex_bootstrap.Protocol.Metadata.{Encoding}
use nova_codex_bootstrap.Protocol.Event.{Time, HostEvent}
use nova_codex_bootstrap.Queue.Rows.{
  Row, Queue, is_herdr, in_session, has_id, new_row, enqueue, complete, retry, next,
  configure_backend, set_herdr_capture_enabled, clear_notification_capture, insert_or_ignore,
}
use nova_codex_bootstrap.Queue.Bounds.{enqueue-IsBounded, enqueue-sessions_le}
use nova_codex_bootstrap.Queue.Identity.{
  IsUnique, select-IsUnique, insert-IsUnique, enforce_limits-IsUnique, row_id,
}
use nova_codex_bootstrap.Queue.Delivery.{next-IsChosen, next-none}

-- A call on the queue, as the daemon and the commands make it.
pub data Call (Body : Type 0) : Type 0 where
  enqueues : String → Body → Time → Call Body
  takes : Time → String → Call Body
  completes : String → Call Body
  retries : String → ℕ → Time → Call Body
  configures : String → Call Body
  captures : Bool → Call Body
  clears : Call Body

-- What holds of the pending events.
pub record IsSound {Body : Type 0} (rows : List (Row Body)) : Type 0 where
  pub unique : IsUnique rows
  pub in_all : length rows ≤ 500
  pub of_herdr : count is_herdr rows ≤ 200
  pub of_session : (s : String) → count (in_session s) rows ≤ 50

module _ {Body : Type 0} where
  pub select-IsSound :
      (p : Row Body → Bool) (rows : List (Row Body)) → IsSound rows → IsSound (select p rows)
  select-IsSound p rows h = record {
    unique = select-IsUnique p rows h.unique;
    in_all = omega (arith, h.in_all, length-select p rows, count-le-length p rows);
    of_herdr = omega (arith, h.of_herdr, count-select-le is_herdr p rows);
    of_session = λ s. omega (arith, h.of_session s, count-select-le (in_session s) p rows);
  }

  count-update :
      (q p : Row Body → Bool) (f : Row Body → Row Body) (rows : List (Row Body))
      → ((r : Row Body) → q (f r) ≡ q r)
      → count q (update p f rows) ≡ count q rows
  count-update q p f [] same = refl
  count-update q p f (r ∷ rows) same = ground (arith, count-update q p f rows same, same r)

  length-update :
      (p : Row Body → Bool) (f : Row Body → Row Body) (rows : List (Row Body))
      → length (update p f rows) ≡ length rows
  length-update p f [] = refl
  length-update p f (r ∷ rows) = ap suc (length-update p f rows)

  -- An update that leaves the id, source and session of each row.
  update-IsSound :
      (p : Row Body → Bool) (f : Row Body → Row Body) (rows : List (Row Body))
      → ((r : Row Body)
          → (row_id (f r) ≡ row_id r)
            × ((f r).source ≡ r.source)
            × ((f r).session_id ≡ r.session_id))
      → IsSound rows
      → IsSound (update p f rows)
  update-IsSound p f rows same h = record {
    unique = λ key.
        omega (arith, h.unique key, count-update (has_id key) p f rows (λ r. rw ((same r).0)));
    in_all = omega (arith, h.in_all, length-update p f rows);
    of_herdr = omega (arith, h.of_herdr, count-update is_herdr p f rows (λ r. rw ((same r).1)));
    of_session = λ s. omega (
      arith,
      h.of_session s,
      count-update (in_session s) p f rows (λ r. rw ((same r).1, (same r).2)),
    );
  }

  next-IsSound :
      (q : Queue Body) (now : Time) (backend : String)
      → IsSound q.pending
      → IsSound (next q now backend).1.pending
  next-IsSound q now backend h =
      let live = select-IsSound (λ (s : Row Body). not (leb s.expires_at now)) q.pending h in
      elim (Option-cases (next q now backend).0) [
        | inl e ↦ rw ((next-none q now backend e).1) live
        | inr (r, e) ↦ rw ((next-IsChosen q now backend r e).1) live
      ]

module _ (go : Encoding) {Body : Type 0} (unmarshal : Body → Option HostEvent) where
  unfoldable pub step : Queue Body → Call Body → Queue Body
  step q (enqueues id body now) = enqueue go unmarshal q id body now
  step q (takes now backend) = (next q now backend).1
  step q (completes id) = complete q id
  step q (retries id attempts at) = retry q id attempts at
  step q (configures endpoint) = configure_backend q endpoint
  step q (captures enabled) = set_herdr_capture_enabled q enabled
  step q clears = clear_notification_capture q

  unfoldable pub run : Queue Body → List (Call Body) → Queue Body
  run q [] = q
  run q (c ∷ cs) = run (step q c) cs

  pub enqueue-IsSound :
      (q : Queue Body) (id : String) (body : Body) (now : Time)
      → IsSound q.pending
      → IsSound (enqueue go unmarshal q id body now).pending
  unfolding enqueue
  enqueue-IsSound q id body now h =
      let r = new_row go unmarshal q id body now in
      let bounded = enqueue-IsBounded go unmarshal q id body now in
      record {
        unique =
            enforce_limits-IsUnique r.session_id now (insert_or_ignore r q.pending)
              (insert-IsUnique r q.pending h.unique);
        in_all = bounded.rows_in_all;
        of_herdr = bounded.herdr_rows;
        of_session = enqueue-sessions_le go unmarshal q id body now h.of_session;
      }

  pub step-IsSound :
      (q : Queue Body) (c : Call Body) → IsSound q.pending → IsSound (step q c).pending
  unfolding step
  step-IsSound q (enqueues id body now) h = enqueue-IsSound q id body now h
  step-IsSound q (takes now backend) h = next-IsSound q now backend h
  step-IsSound q (completes id) h = unfold complete in select-IsSound _ q.pending h
  step-IsSound q (retries id attempts at) h =
      unfold retry in update-IsSound _ _ q.pending (λ r. (refl, refl, refl)) h
  step-IsSound q (configures endpoint) h =
      unfold configure_backend in update-IsSound _ _ q.pending (λ r. (refl, refl, refl)) h
  step-IsSound q (captures true) h = unfold set_herdr_capture_enabled in h
  step-IsSound q (captures false) h =
      unfold set_herdr_capture_enabled in select-IsSound _ q.pending h
  step-IsSound q clears h =
      unfold clear_notification_capture in
      (record {
        unique = λ key. omega arith;
        in_all = omega arith;
        of_herdr = omega arith;
        of_session = λ s. omega arith;
      })

  -- Whatever calls are made on a queue whose pending events satisfy it, in whatever order, the
  -- event ids stay distinct, and at most 500 events stay queued, of which at most 200 are Herdr's
  -- and at most 50 belong to any one session.
  pub run-IsSound :
      (q : Queue Body) (cs : List (Call Body)) → IsSound q.pending → IsSound (run q cs).pending
  unfolding run
  run-IsSound q [] h = h
  run-IsSound q (c ∷ cs) h = run-IsSound (step q c) cs (step-IsSound q c h)
