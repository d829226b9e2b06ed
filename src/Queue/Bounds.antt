-- ===== src/Queue/Bounds.antt =====
-- The size limits of the pending events, for enqueueEvent in notifications/internal/agent/queue.go.
use nova_codex_bootstrap.Prelude.{
  eq_iff, inl, inr, Bool-cases, count-append, ◌≤◌, String, true, false, List, [], ◌∷◌, ◌≡◌, count,
  length, arith, Option, not, leb, select, count-select-le,
}
use mathlib.Core.Path.{subst}
use nova_codex_bootstrap.Sql.{delete_beyond}
use nova_codex_bootstrap.Sql.Order.{count-delete_beyond, count-delete_beyond_le}
use nova_codex_bootstrap.Protocol.Metadata.{Encoding}
use nova_codex_bootstrap.Protocol.Event.{Time, HostEvent}
use nova_codex_bootstrap.Queue.Rows.{
  Row, Queue, is_herdr, in_session, newest_first, codex_first, enforce_limits, new_row, enqueue,
  insert_or_ignore,
}

count-all {ℓ} : {A : Type ℓ} (xs : List A) → count (λ _. true) xs ≡ length xs
count-all [] = omega arith
count-all (x ∷ xs) = omega (arith, count-all xs)

module _ {Body : Type 0} where
  -- The limits that the deletions of an insertion restore.
  pub record IsBounded (session : String) (rows : List (Row Body)) : Type 0 where
    pub session_rows : count (in_session session) rows ≤ 50
    pub herdr_rows : count is_herdr rows ≤ 200
    pub rows_in_all : length rows ≤ 500

  abbrev row_id : Row Body → String
  row_id r = r.event_id

  pub enforce_limits-IsBounded :
      (session : String) (now : Time) (rows : List (Row Body))
      → IsBounded session (enforce_limits session now rows)
  unfolding enforce_limits
  enforce_limits-IsBounded session now rows =
      let live = select (λ (r : Row Body). not (leb r.expires_at now)) rows in
      let a = delete_beyond row_id (in_session session) newest_first 50 live in
      let b = delete_beyond row_id is_herdr newest_first 200 a in
      let c = delete_beyond row_id (λ _. true) codex_first 500 b in
      record {
        session_rows = omega (
          arith,
          count-delete_beyond row_id (in_session session) newest_first 50 live,
          count-delete_beyond_le row_id (in_session session) is_herdr newest_first 200 a,
          count-delete_beyond_le row_id (in_session session) (λ _. true) codex_first 500 b,
        );
        herdr_rows = omega (
          arith,
          count-delete_beyond row_id is_herdr newest_first 200 a,
          count-delete_beyond_le row_id is_herdr (λ _. true) codex_first 500 b,
        );
        rows_in_all =
            omega (arith, count-delete_beyond row_id (λ _. true) codex_first 500 b, count-all c);
      }

  -- The deletions add no row to any session.
  pub enforce_limits-session_le :
      (session other : String) (now : Time) (rows : List (Row Body))
      → count (in_session other) (enforce_limits session now rows) ≤ count (in_session other) rows
  unfolding enforce_limits
  enforce_limits-session_le session other now rows =
      let live = select (λ (r : Row Body). not (leb r.expires_at now)) rows in
      let a = delete_beyond row_id (in_session session) newest_first 50 live in
      let b = delete_beyond row_id is_herdr newest_first 200 a in
      omega (
        arith,
        count-select-le (in_session other) (λ (r : Row Body). not (leb r.expires_at now)) rows,
        count-delete_beyond_le row_id (in_session other) (in_session session) newest_first 50 live,
        count-delete_beyond_le row_id (in_session other) is_herdr newest_first 200 a,
        count-delete_beyond_le row_id (in_session other) (λ _. true) codex_first 500 b,
      )

module _ (go : Encoding) {Body : Type 0} (unmarshal : Body → Option HostEvent) where
  -- After any insertion at most 500 events are queued, at most 200 of them Herdr's, and at most 50
  -- of those in the session of the new event, however many were queued before.
  pub enqueue-IsBounded :
      (q : Queue Body) (id : String) (body : Body) (now : Time)
      → IsBounded
          (new_row go unmarshal q id body now).session_id
          (enqueue go unmarshal q id body now).pending
  unfolding enqueue
  enqueue-IsBounded q id body now =
      let r = new_row go unmarshal q id body now in
      enforce_limits-IsBounded r.session_id now (insert_or_ignore r q.pending)

  insert-session_le :
      (r : Row Body) (s : String) (rows : List (Row Body))
      → in_session s r ≡ false
      → count (in_session s) (insert_or_ignore r rows) ≤ count (in_session s) rows
  insert-session_le r s rows h = ground (arith, count-append (in_session s) rows (r ∷ []))

  -- If no session has more than 50 events queued, then none has after an insertion.
  pub enqueue-sessions_le :
      (q : Queue Body) (id : String) (body : Body) (now : Time)
      → ((s : String) → count (in_session s) q.pending ≤ 50)
      → (s : String) → count (in_session s) (enqueue go unmarshal q id body now).pending ≤ 50
  unfolding enqueue
  enqueue-sessions_le q id body now h s =
      let r = new_row go unmarshal q id body now in
      let rows = insert_or_ignore r q.pending in
      elim (Bool-cases (in_session s r)) [
        | inl e ↦
            let same : r.session_id ≡ s = ground (arith, eq_iff r.session_id s) in
            subst (λ t. count (in_session t) (enforce_limits r.session_id now rows) ≤ 50) same
              (enforce_limits-IsBounded r.session_id now rows).session_rows
        | inr e ↦ omega (
          arith,
          h s,
          insert-session_le r s q.pending e,
          enforce_limits-session_le r.session_id s now rows,
        )
      ]
