-- ===== src/Sql/First.antt =====
-- The first row of ORDER BY ... LIMIT 1.
use nova_codex_bootstrap.Prelude.{
  ◌≤◌, ◌≡◌, refl, ap, inl, inr, Bool, true, false, not, List, [], ◌∷◌, none, some, head?, select,
  count, arith, Bool-cases, if◌then◌else◌, ◌⊎◌,
}
use nova_codex_bootstrap.Sql.{place, order_by}
use nova_codex_bootstrap.Sql.Order.{count-order_by, count-place}

module _ {A : Type 0} where
  -- A row of the list.
  abbrev pub In : A → List A → Type 0
  In r [] = ⊥
  In r (s ∷ rs) = (s ≡ r) ⊎ In r rs

  In-if :
      (b : Bool) (p : A → Bool) (r x : A) (xs ys : List A)
      → p x ≡ b
      → (In r xs → In r ys × (p r ≡ true))
      → In r (if b then x ∷ xs else xs)
      → In r (x ∷ ys) × (p r ≡ true)
  In-if true p r x xs ys e rest (inl same) = (inl same, rw (← same) e)
  In-if true p r x xs ys e rest (inr m) = (inr (rest m).0, (rest m).1)
  In-if false p r x xs ys e rest m = (inr (rest m).0, (rest m).1)

  pub In-select : (p : A → Bool) (r : A) (xs : List A) → In r (select p xs) → In r xs × (p r ≡ true)
  In-select p r [] h = absurd h
  In-select p r (x ∷ xs) h = In-if (p x) p r x (select p xs) xs refl (In-select p r xs) h

  pub In-count : (p : A → Bool) (r : A) (xs : List A) → In r xs → p r ≡ true → 1 ≤ count p xs
  In-count p r [] h t = absurd h
  In-count p r (x ∷ xs) (inl same) t = rw same (rw t (omega arith))
  In-count p r (x ∷ xs) (inr m) t = omega (arith, In-count p r xs m t)

  In-put :
      (b : Bool) (r x s : A) (xs ys : List A)
      → (In r ys → In r (x ∷ xs))
      → In r (if b then x ∷ s ∷ xs else s ∷ ys)
      → In r (x ∷ s ∷ xs)
  In-put true r x s xs ys rest m = m
  In-put false r x s xs ys rest (inl same) = inr (inl same)
  In-put false r x s xs ys rest (inr m) = elim (rest m) [ inl e ↦ inl e | inr e ↦ inr (inr e) ]

  In-place : (le : A → A → Bool) (r x : A) (xs : List A) → In r (place le x xs) → In r (x ∷ xs)
  unfolding place
  In-place le r x [] h = h
  In-place le r x (s ∷ xs) h = In-put (le x s) r x s xs (place le x xs) (In-place le r x xs) h

  pub In-order_by : (le : A → A → Bool) (r : A) (xs : List A) → In r (order_by le xs) → In r xs
  unfolding order_by
  In-order_by le r [] h = h
  In-order_by le r (x ∷ xs) h = elim (In-place le r x (order_by le xs) h) [
    | inl e ↦ inl e
    | inr m ↦ inr (In-order_by le r xs m)
  ]

  pub In-head : (r : A) (xs : List A) → head? xs ≡ some r → In r xs
  In-head r [] h = cc
  In-head r (x ∷ xs) h = inl (ground arith)

  module _ (le : A → A → Bool) (total : (a b : A) → le a b ≡ false → le b a ≡ true)
      (trans : (a b c : A) → le a b ≡ true → le b c ≡ true → le a c ≡ true) where
    -- No row is below `r`.
    abbrev IsFirst : A → List A → Type 0
    IsFirst r xs = count (λ s. not (le r s)) xs ≡ 0

    reflexive : (a : A) → le a a ≡ true
    reflexive a = ground (arith, total a a)

    above : (a b : A) (xs : List A) → le a b ≡ true → IsFirst b xs → IsFirst a xs
    above a b [] h z = refl
    above a b (x ∷ xs) h z = ground (arith, trans a b x h, above a b xs h)

    place-front :
        (x : A) (ys : List A)
        → ((r : A) → head? ys ≡ some r → IsFirst r ys)
        → (r : A) → head? (place le x ys) ≡ some r
        → IsFirst r (place le x ys)
    unfolding place
    place-front x [] front r h = ground (arith, reflexive x)
    place-front x (s ∷ rs) front r h = elim (Bool-cases (le x s)) [
      | inl e ↦
          ground
            (arith, e, reflexive x, reflexive s, front s refl, above x s (s ∷ rs) e (front s refl))
      | inr e ↦ ground (
        arith,
        e,
        reflexive s,
        total x s e,
        front s refl,
        count-place le (λ t. not (le s t)) x rs,
      )
    ]

    order_by-front :
        (xs : List A) (r : A) → head? (order_by le xs) ≡ some r → IsFirst r (order_by le xs)
    unfolding order_by
    order_by-front [] r h = refl
    order_by-front (x ∷ xs) r h = place-front x (order_by le xs) (order_by-front xs) r h

    -- No row is below the first row.
    pub head-order_by :
        (xs : List A) (r : A) → head? (order_by le xs) ≡ some r → count (λ s. not (le r s)) xs ≡ 0
    head-order_by xs r h =
        omega (arith, order_by-front xs r h, count-order_by le (λ s. not (le r s)) xs)

  head-none : (xs : List A) → head? xs ≡ none → xs ≡ []
  head-none [] h = refl
  head-none (x ∷ xs) h = cc

  -- There is no first row only if there is no row.
  pub order_by-none :
      (le : A → A → Bool) (p : A → Bool) (xs : List A)
      → head? (order_by le xs) ≡ none
      → count p xs ≡ 0
  order_by-none le p xs h =
      omega (arith, ap (count p) (head-none (order_by le xs) h), count-order_by le p xs)
