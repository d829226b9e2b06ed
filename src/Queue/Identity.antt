-- ===== src/Queue/Identity.antt =====
-- Event ids are unique in pending_events, and what the limits of enqueueEvent may evict
-- (notifications/internal/agent/queue.go).
use nova_codex_bootstrap.Prelude.{
  ℕ, ◌+◌, ◌≤◌, ◌≡◌, refl, String, Bool, true, false, not, ◌&&◌, List, [], ◌∷◌, map, any, select,
  count, drop, arith, eq_iff, inl, inr, Bool-cases, count-append, count-take-drop, count-select-le,
}
use nova_codex_bootstrap.Sql.{delete, is_listed, delete_beyond}
use nova_codex_bootstrap.Sql.Order.{count-delete_beyond_le}
use nova_codex_bootstrap.Protocol.Event.{Time}
use nova_codex_bootstrap.Queue.Rows.{
  Row, is_herdr, in_session, has_id, newest_first, codex_first, enforce_limits, insert_or_ignore,
}

module _ {Body : Type 0} where
  abbrev pub row_id : Row Body → String
  row_id r = r.event_id

  -- The primary key: no two rows share an event id.
  abbrev pub IsUnique : List (Row Body) → Type 0
  IsUnique rows = (key : String) → count (has_id key) rows ≤ 1

  pub select-IsUnique :
      (p : Row Body → Bool) (rows : List (Row Body)) → IsUnique rows → IsUnique (select p rows)
  select-IsUnique p rows h key = omega (arith, h key, count-select-le (has_id key) p rows)

  pub delete_beyond-IsUnique :
      (p : Row Body → Bool) (le : Row Body → Row Body → Bool) (k : ℕ) (rows : List (Row Body))
      → IsUnique rows
      → IsUnique (delete_beyond row_id p le k rows)
  delete_beyond-IsUnique p le k rows h key =
      omega (arith, h key, count-delete_beyond_le row_id (has_id key) p le k rows)

  count-eq-zero :
      (q : Row Body → Bool) (rows : List (Row Body)) → any q rows ≡ false → count q rows ≡ 0
  count-eq-zero q [] h = refl
  count-eq-zero q (r ∷ rows) h = ground (arith, count-eq-zero q rows)

  -- INSERT OR IGNORE keeps the ids distinct.
  pub insert-IsUnique :
      (r : Row Body) (rows : List (Row Body)) → IsUnique rows → IsUnique (insert_or_ignore r rows)
  insert-IsUnique r rows h key = elim (Bool-cases (any (has_id r.event_id) rows)) [
    | inl e ↦ rw e (h key)
    | inr e ↦ rw e (
        ground (
          arith,
          h key,
          count-append (has_id key) rows (r ∷ []),
          count-eq-zero (has_id r.event_id) rows e,
          eq_iff r.event_id key,
        ))
  ]

  pub enforce_limits-IsUnique :
      (session : String) (now : Time) (rows : List (Row Body))
      → IsUnique rows
      → IsUnique (enforce_limits session now rows)
  unfolding enforce_limits
  enforce_limits-IsUnique session now rows h =
      delete_beyond-IsUnique (λ _. true) codex_first 500 _
        (delete_beyond-IsUnique is_herdr newest_first 200 _ (
          delete_beyond-IsUnique (in_session session) newest_first 50 _ (select-IsUnique _ rows h)))

  pub listed-count :
      (key : String) (rows : List (Row Body))
      → is_listed (map row_id rows) key ≡ true
      → 1 ≤ count (has_id key) rows
  listed-count key [] h = cc
  listed-count key (r ∷ rows) h =
      ground (arith, listed-count key rows, eq_iff key r.event_id, eq_iff r.event_id key)

  pub count-drop-le :
      (q : Row Body → Bool) (k : ℕ) (rows : List (Row Body)) → count q (drop k rows) ≤ count q rows
  count-drop-le q k rows = omega (arith, count-take-drop q k rows)

  pub count-split :
      (p q : Row Body → Bool) (rows : List (Row Body))
      → count (λ r. q r && p r) rows + count (λ r. q r && not (p r)) rows ≡ count q rows
  count-split p q [] = omega arith
  count-split p q (r ∷ rows) = ground (arith, count-split p q rows)

  -- Rows in the class `c` stay where each listed id belongs to a row outside the class.
  pub select-delete :
      (ids : List String) (c : Row Body → Bool) (rows : List (Row Body))
      → IsUnique rows
      → ((key : String)
          → is_listed ids key ≡ true
          → 1 ≤ count (λ r. has_id key r && not (c r)) rows)
      → select c (delete (λ r. is_listed ids r.event_id) rows) ≡ select c rows
  select-delete ids c rows unique outside = go rows (λ q. omega arith)
    where
      stays :
          (r : Row Body)
          → c r ≡ true
          → ((q : Row Body → Bool) → q r ≡ true → 1 ≤ count q rows)
          → is_listed ids r.event_id ≡ false
      stays r e mem = elim (Bool-cases (is_listed ids r.event_id)) [
        | inr no_id ↦ no_id
        | inl listed ↦ absurd (
            omega (
              arith,
              unique r.event_id,
              outside r.event_id listed,
              count-split c (has_id r.event_id) rows,
              mem (λ s. has_id r.event_id s && c s) (ground (arith, eq_iff r.event_id r.event_id)),
            ))
      ]

      go :
          (ys : List (Row Body))
          → ((q : Row Body → Bool) → count q ys ≤ count q rows)
          → select c (delete (λ r. is_listed ids r.event_id) ys) ≡ select c ys
      go [] sub = refl
      go (y ∷ ys) sub =
          let tail = go ys (λ q. omega (arith, sub q)) in
          elim (Bool-cases (c y)) [
            | inl e ↦ ground (arith, tail, e, stays y e (λ q h. let s = sub q in ground arith))
            | inr e ↦ ground (arith, tail, e)
          ]
