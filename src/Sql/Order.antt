-- ===== src/Sql/Order.antt =====
-- Laws of ORDER BY and of the deletion beyond an offset.
use text.Mathlib.TextPositions.{eq_refl}
use nova_codex_bootstrap.Prelude.{
  ℕ, ◌≤◌, ◌≡◌, refl, Bool, true, ◌&&◌, not, List, [], ◌∷◌, map, reverse, String, select, take, drop,
  count, arith, count-reverse, count-select, count-le-length, length-take-le, count-take-drop,
}
use nova_codex_bootstrap.Sql.{place, order_by, doomed_ids, is_listed, delete_beyond}

module _ {ℓ} {A : Type ℓ} (le : A → A → Bool) (p : A → Bool) where
  pub count-place : (r : A) (rs : List A) → count p (place le r rs) ≡ count p (r ∷ rs)
  unfolding place
  count-place r [] = refl
  count-place r (s ∷ rs) = ground (arith, count-place r rs)

  -- Sorting keeps how many rows pass a test.
  pub count-order_by : (rs : List A) → count p (order_by le rs) ≡ count p rs
  unfolding order_by
  count-order_by [] = refl
  count-order_by (r ∷ rs) = omega (arith, count-place r (order_by le rs), count-order_by rs)

module _ {ℓ} {A : Type ℓ} (id : A → String) where
  -- A row of a list has its id among the list's.
  none_kept :
      (p : A → Bool) (rs : List A) → count (λ r. not (is_listed (map id rs) (id r)) && p r) rs ≡ 0
  none_kept p rs = go rs (map id rs) (λ r h. h)
    where
      step :
          (ids : List String) (r : A) (rest : List A)
          → ((key : String) → is_listed (map id (r ∷ rest)) key ≡ true → is_listed ids key ≡ true)
          → (key : String) → is_listed (map id rest) key ≡ true
          → is_listed ids key ≡ true
      step ids r rest sub key h = sub key (ground arith)

      go :
          (xs : List A) (ids : List String)
          → ((key : String) → is_listed (map id xs) key ≡ true → is_listed ids key ≡ true)
          → count (λ r. not (is_listed ids (id r)) && p r) xs ≡ 0
      go [] ids sub = refl
      go (x ∷ xs) ids sub =
          ground (arith, go xs ids (step ids x xs sub), sub (id x), eq_refl (id x))

  count-and-le : (p q : A → Bool) (rs : List A) → count (λ r. q r && p r) rs ≤ count p rs
  count-and-le p q [] = omega arith
  count-and-le p q (r ∷ rs) = ground (arith, count-and-le p q rs)

  -- The rows that pass the test are at most `k` after the deletion.
  pub count-delete_beyond :
      (p : A → Bool) (le : A → A → Bool) (k : ℕ) (rows : List A)
      → count p (delete_beyond id p le k rows) ≤ k
  unfolding delete_beyond doomed_ids
  count-delete_beyond p le k rows = omega (
    arith,
    count-select p kept rows,
    count_swap kept rows,
    count-select kept p rows,
    count-reverse kept (select p rows),
    count-order_by le kept (reverse (select p rows)),
    count-take-drop kept k sorted,
    count-le-length kept (take k sorted),
    length-take-le k sorted,
    none_left,
  )
    where
      sorted : List A
      sorted = order_by le (reverse (select p rows))

      kept : A → Bool
      kept r = not (is_listed (map id (drop k sorted)) (id r))

      count_swap :
          (q : A → Bool) (xs : List A) → count (λ r. q r && p r) xs ≡ count (λ r. p r && q r) xs
      count_swap q [] = refl
      count_swap q (x ∷ xs) = ground (arith, count_swap q xs)

      count_true : (q : A → Bool) (xs : List A) → count (λ r. q r && true) xs ≡ count q xs
      count_true q [] = refl
      count_true q (x ∷ xs) = ground (arith, count_true q xs)

      none_left : count kept (drop k sorted) ≡ 0
      none_left =
          omega (arith, none_kept (λ _. true) (drop k sorted), count_true kept (drop k sorted))

  -- The deletion adds no row that passes a test.
  pub count-delete_beyond_le :
      (q p : A → Bool) (le : A → A → Bool) (k : ℕ) (rows : List A)
      → count q (delete_beyond id p le k rows) ≤ count q rows
  unfolding delete_beyond doomed_ids
  count-delete_beyond_le q p le k rows =
      omega (arith, count-select q kept rows, count-and-le q kept rows)
    where
      kept : A → Bool
      kept r = not (is_listed (doomed_ids id p le k rows) (id r))
