-- ===== src/Queue/Eviction.antt =====
-- What the limits of enqueueEvent (notifications/internal/agent/queue.go) may evict.
use nova_codex_bootstrap.Prelude.{
  ℕ, zero, suc, ◌≤◌, ◌≡◌, refl, sym, ap, ◌∙◌, String, Bool, true, false, not, ◌&&◌, List, [], ◌∷◌,
  reverse, select, count, drop, length, arith, Option, leb, eq_iff, inl, inr, Bool-cases,
  count-reverse, count-select, count-select-le,
}
use nova_codex_bootstrap.Sql.{delete, place, order_by, doomed_ids, is_listed, delete_beyond}
use nova_codex_bootstrap.Sql.Order.{count-order_by, count-place}
use nova_codex_bootstrap.Protocol.Metadata.{Encoding}
use nova_codex_bootstrap.Protocol.Event.{Time, HostEvent, source_codex, source_herdr}
use nova_codex_bootstrap.Queue.Rows.{
  Row, Queue, is_herdr, is_codex, in_session, has_id, newest_first, codex_first, enforce_limits,
  insert_or_ignore, new_row, enqueue,
}
use nova_codex_bootstrap.Queue.Identity.{
  IsUnique, row_id, select-IsUnique, delete_beyond-IsUnique, insert-IsUnique, listed-count,
  count-drop-le, count-split, select-delete,
}

pub herdr_ne_codex : ¬ (source_herdr ≡ source_codex)
herdr_ne_codex e = let equal = (eq_iff source_herdr source_codex).1 e in cc equal

module _ {Body : Type 0} where
  -- Codex rows stand in front of all others.
  abbrev IsGrouped : List (Row Body) → Type 0
  IsGrouped [] = Unit
  IsGrouped (r ∷ rs) = (is_codex r ≡ false → count is_codex rs ≡ 0) × IsGrouped rs

  place-IsGrouped :
      (r : Row Body) (rs : List (Row Body)) → IsGrouped rs → IsGrouped (place codex_first r rs)
  unfolding place
  place-IsGrouped r [] h = (λ _. refl, tt)
  place-IsGrouped r (s ∷ rs) h = elim (Bool-cases (codex_first r s)) [
    | inl e ↦ rw e (λ n. ground (arith, h.0), h)
    | inr e ↦
        rw e (
          λ n. ground (arith, h.0, count-place codex_first is_codex r rs),
          place-IsGrouped r rs h.1,
        )
  ]

  order_by-IsGrouped : (rs : List (Row Body)) → IsGrouped (order_by codex_first rs)
  unfolding order_by
  order_by-IsGrouped [] = tt
  order_by-IsGrouped (r ∷ rs) = place-IsGrouped r (order_by codex_first rs) (order_by-IsGrouped rs)

  count-drop_grouped :
      (k : ℕ) (rs : List (Row Body))
      → IsGrouped rs
      → count is_codex rs ≤ k
      → count is_codex (drop k rs) ≡ 0
  count-drop_grouped zero rs h le = omega arith
  count-drop_grouped (suc k) [] h le = refl
  count-drop_grouped (suc k) (r ∷ rs) h le = elim (Bool-cases (is_codex r)) [
    | inl e ↦ count-drop_grouped k rs h.1 (ground arith)
    | inr e ↦ count-drop_grouped k rs h.1 (ground (arith, h.0))
  ]

  module _ (c p : Row Body → Bool) (le : Row Body → Row Body → Bool) (k : ℕ)
      (rows : List (Row Body))
      (spared : count c (drop k (order_by le (reverse (select p rows)))) ≡ 0) where
    abbrev dropped : List (Row Body)
    dropped = drop k (order_by le (reverse (select p rows)))

    count-and_left :
        (q : Row Body → Bool) (xs : List (Row Body)) → count (λ r. q r && c r) xs ≤ count c xs
    count-and_left q [] = omega arith
    count-and_left q (x ∷ xs) = ground (arith, count-and_left q xs)

    outside :
        (key : String)
        → is_listed (doomed_ids row_id p le k rows) key ≡ true
        → 1 ≤ count (λ r. has_id key r && not (c r)) rows
    unfolding doomed_ids
    outside key h =
        let other : Row Body → Bool = λ r. has_id key r && not (c r) in
        omega (
          arith,
          listed-count key dropped h,
          count-split c (has_id key) dropped,
          count-and_left (has_id key) dropped,
          spared,
          count-drop-le other k (order_by le (reverse (select p rows))),
          count-order_by le other (reverse (select p rows)),
          count-reverse other (select p rows),
          count-select-le other p rows,
        )

    -- A class none of whose rows is beyond the offset loses no row.
    select-delete_beyond :
        IsUnique rows → select c (delete_beyond row_id p le k rows) ≡ select c rows
    unfolding delete_beyond
    select-delete_beyond unique =
        select-delete (doomed_ids row_id p le k rows) c rows unique outside

  -- Of a class outside the test of the deletion no row is beyond the offset.
  none_beyond :
      (c p : Row Body → Bool) (le : Row Body → Row Body → Bool) (k : ℕ) (rows : List (Row Body))
      → ((r : Row Body) → (p r && c r) ≡ false)
      → count c (drop k (order_by le (reverse (select p rows)))) ≡ 0
  none_beyond c p le k rows apart = omega (
    arith,
    count-drop-le c k (order_by le (reverse (select p rows))),
    count-order_by le c (reverse (select p rows)),
    count-reverse c (select p rows),
    count-select c p rows,
    none_in rows,
  )
    where
      none_in : (xs : List (Row Body)) → count (λ r. p r && c r) xs ≡ 0
      none_in [] = refl
      none_in (x ∷ xs) = rw (apart x) (omega (arith, none_in xs))

  herdr_apart : (r : Row Body) → (is_herdr r && is_codex r) ≡ false
  herdr_apart r = elim (Bool-cases (is_herdr r)) [
    | inr e ↦ rw e
    | inl e ↦ elim (Bool-cases (is_codex r)) [
      | inr f ↦ rw (e, f)
      | inl f ↦ absurd (
          herdr_ne_codex
            (sym ((eq_iff r.source source_herdr).0 e) ∙ (eq_iff r.source source_codex).0 f))
    ]
  ]

  session_apart : (s : String) (r : Row Body) → (in_session s r && is_codex r) ≡ false
  session_apart s r = ground (arith, herdr_apart r)

  select-all : (rows : List (Row Body)) → select (λ _. true) rows ≡ rows
  select-all [] = refl
  select-all (r ∷ rows) = rw (select-all rows)

  count-length-select :
      (p : Row Body → Bool) (xs : List (Row Body)) → count p xs ≡ length (select p xs)
  count-length-select p [] = refl
  count-length-select p (x ∷ xs) = ground (arith, count-length-select p xs)

  -- The limits evict no Codex event while at most 500 of those that have not expired are queued.
  pub select-enforce_limits :
      (session : String) (now : Time) (rows : List (Row Body))
      → IsUnique rows
      → count is_codex (delete (λ r. leb r.expires_at now) rows) ≤ 500
      → select is_codex (enforce_limits session now rows)
        ≡ select is_codex (delete (λ r. leb r.expires_at now) rows)
  unfolding enforce_limits
  select-enforce_limits session now rows unique few =
      let live = delete (λ (r : Row Body). leb r.expires_at now) rows in
      let a = delete_beyond row_id (in_session session) newest_first 50 live in
      let b = delete_beyond row_id is_herdr newest_first 200 a in
      let live_unique =
        select-IsUnique (λ (r : Row Body). not (leb r.expires_at now)) rows unique in
      let a_unique = delete_beyond-IsUnique (in_session session) newest_first 50 live live_unique in
      let b_unique = delete_beyond-IsUnique is_herdr newest_first 200 a a_unique in
      let a_same =
        select-delete_beyond is_codex (in_session session) newest_first 50 live
          (none_beyond is_codex (in_session session) newest_first 50 live (session_apart session))
          live_unique in
      let b_same =
        select-delete_beyond is_codex is_herdr newest_first 200 a
          (none_beyond is_codex is_herdr newest_first 200 a herdr_apart) a_unique in
      let few_b : count is_codex b ≤ 500 = omega (
        arith,
        few,
        ap length (b_same ∙ a_same),
        count-length-select is_codex b,
        count-length-select is_codex live,
      ) in
      let beyond =
        count-drop_grouped 500 (order_by codex_first (reverse (select (λ _. true) b)))
          (order_by-IsGrouped (reverse (select (λ _. true) b)))
          (omega (
            arith,
            few_b,
            count-order_by codex_first is_codex (reverse (select (λ _. true) b)),
            count-reverse is_codex (select (λ _. true) b),
            count-select-le is_codex (λ _. true) b,
          )) in
      select-delete_beyond is_codex (λ _. true) codex_first 500 b beyond b_unique
      ∙ (b_same ∙ a_same)

module _ (go : Encoding) {Body : Type 0} (unmarshal : Body → Option HostEvent) where
  -- With unique ids and at most 500 unexpired Codex events, counting the new one, an insertion of
  -- any event evicts no Codex event: those that were queued and have not expired stay in their
  -- order, and the new event follows them if it is one.
  pub enqueue-keeps_codex :
      (q : Queue Body) (id : String) (body : Body) (now : Time)
      → IsUnique q.pending
      → count is_codex (
          delete
            (λ r. leb r.expires_at now)
            (insert_or_ignore (new_row go unmarshal q id body now) q.pending))
        ≤ 500
      → select is_codex (enqueue go unmarshal q id body now).pending
        ≡ select is_codex (
            delete
              (λ r. leb r.expires_at now)
              (insert_or_ignore (new_row go unmarshal q id body now) q.pending))
  unfolding enqueue
  enqueue-keeps_codex q id body now unique few =
      let r = new_row go unmarshal q id body now in
      select-enforce_limits r.session_id now (insert_or_ignore r q.pending)
        (insert-IsUnique r q.pending unique) few
