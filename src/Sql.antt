-- ===== src/Sql.antt =====
-- The statements that the agent's SQL text uses, on a table held as the list of its rows in rowid
-- order (an insertion takes the greatest rowid, so it goes to the end): WHERE, DELETE, UPDATE,
-- ORDER BY and LIMIT -1 OFFSET k.
pub mod Order
pub mod First
use nova_codex_bootstrap.Prelude.{
  ℕ, Bool, true, false, not, List, [], ◌∷◌, map, reverse, String, str_eq, any, select, drop,
  if◌then◌else◌,
}

-- key IN (ids)
abbrev pub is_listed : List String → String → Bool
is_listed ids key = any (str_eq key) ids

module _ {ℓ} {A : Type ℓ} where
  -- DELETE FROM t WHERE p
  abbrev pub delete : (A → Bool) → List A → List A
  delete p = select (λ r. not (p r))

  -- UPDATE t SET ... WHERE p
  abbrev pub update : (A → Bool) → (A → A) → List A → List A
  update p f = map (λ r. if p r then f r else r)

  -- One row into a list sorted by `le`, in front of its equals.
  unfoldable pub place : (A → A → Bool) → A → List A → List A
  place le r [] = r ∷ []
  place le r (s ∷ rs) = let rest = place le r rs in if le r s then r ∷ s ∷ rs else s ∷ rest

  -- ORDER BY: rows that tie keep the order in which they are given.
  unfoldable pub order_by : (A → A → Bool) → List A → List A
  unfolding place
  order_by le [] = []
  order_by le (r ∷ rs) = place le r (order_by le rs)

  -- `DELETE ... WHERE id IN (SELECT id FROM t WHERE p ORDER BY le, rowid DESC LIMIT -1 OFFSET k)`
  unfoldable pub doomed_ids : (A → String) → (A → Bool) → (A → A → Bool) → ℕ → List A → List String
  unfolding order_by
  doomed_ids id p le k rows = map id (drop k (order_by le (reverse (select p rows))))

  unfoldable pub delete_beyond : (A → String) → (A → Bool) → (A → A → Bool) → ℕ → List A → List A
  unfolding doomed_ids
  delete_beyond id p le k rows =
      let doomed = doomed_ids id p le k rows in delete (λ r. is_listed doomed (id r)) rows
