-- ===== src/Base/Sort/Laws.antt =====
-- Sorting keeps the elements, and sorts numbers.
use Prim.Native.Nat.{ℕ, suc, ◌+◌, ◌≤◌}
use mathlib.Core.Path.{◌≡◌, refl}
use mathlib.Core.Logic.{inl, inr}
use mathlib.Core.Bool.{Bool, true, false}
use mathlib.Core.List.{List, [], ◌∷◌}
use native.Mathlib.Omega.{arith}
use patrol_x.Base.Tests.{leb, of_bool, Bool-cases, leb→le}
use patrol_x.Base.Lists.{All, count_if, length, sum_of}
use patrol_x.Base.Sort.{insert, sort}

module _ {ℓ} {A : Type ℓ} (le : A → A → Bool) where
  count_if-insert :
      (p : A → Bool) (x : A) (xs : List A)
      → count_if p (insert le x xs) ≡ of_bool (p x) + count_if p xs
  unfolding insert
  count_if-insert p x [] = refl
  count_if-insert p x (y ∷ ys) = ground (arith, count_if-insert p x ys)

  pub count_if-sort : (p : A → Bool) (xs : List A) → count_if p (sort le xs) ≡ count_if p xs
  unfolding sort
  count_if-sort p [] = refl
  count_if-sort p (x ∷ xs) = omega (arith, count_if-insert p x (sort le xs), count_if-sort p xs)

  length-insert : (x : A) (xs : List A) → length (insert le x xs) ≡ suc (length xs)
  unfolding insert
  length-insert x [] = refl
  length-insert x (y ∷ ys) = ground (arith, length-insert x ys)

  pub length-sort : (xs : List A) → length (sort le xs) ≡ length xs
  unfolding sort
  length-sort [] = refl
  length-sort (x ∷ xs) = omega (arith, length-insert x (sort le xs), length-sort xs)

  pub All-insert {κ} :
      (P : A → Type κ) (x : A) (xs : List A) → P x → All P xs → All P (insert le x xs)
  unfolding insert
  All-insert P x [] h k = (h, tt)
  All-insert P x (y ∷ ys) h k = elim (Bool-cases (le x y)) [
    | inl first ↦ rw first (h, k)
    | inr later ↦ rw later (k.0, All-insert P x ys h k.1)
  ]

  pub All-sort {κ} : (P : A → Type κ) (xs : List A) → All P xs → All P (sort le xs)
  unfolding sort
  All-sort P [] h = tt
  All-sort P (x ∷ xs) h = All-insert P x (sort le xs) h.0 (All-sort P xs h.1)

  sum_of-insert : (f : A → ℕ) (x : A) (xs : List A) → sum_of f (insert le x xs) ≡ f x + sum_of f xs
  unfolding insert
  sum_of-insert f x [] = refl
  sum_of-insert f x (y ∷ ys) = ground (arith, sum_of-insert f x ys)

  pub sum_of-sort : (f : A → ℕ) (xs : List A) → sum_of f (sort le xs) ≡ sum_of f xs
  unfolding sort
  sum_of-sort f [] = refl
  sum_of-sort f (x ∷ xs) = omega (arith, sum_of-insert f x (sort le xs), sum_of-sort f xs)

  -- In ascending order of a number
  abbrev pub Ascends : (A → ℕ) → List A → Type 0
  Ascends rank [] = Unit
  Ascends rank (x ∷ xs) = All (λ y. rank x ≤ rank y) xs × Ascends rank xs

  All-ranks_trans :
      (rank : A → ℕ) (x y : A) (ys : List A)
      → rank x ≤ rank y
      → All (λ z. rank y ≤ rank z) ys
      → All (λ z. rank x ≤ rank z) ys
  All-ranks_trans rank x y [] h k = tt
  All-ranks_trans rank x y (z ∷ ys) h k = (omega (arith, k.0), All-ranks_trans rank x y ys h k.1)

  module _ (rank : A → ℕ) (above : (x y : A) → le x y ≡ true → rank x ≤ rank y)
      (below : (x y : A) → le x y ≡ false → rank y ≤ rank x) where
    insert-Ascends : (x : A) (xs : List A) → Ascends rank xs → Ascends rank (insert le x xs)
    unfolding insert
    insert-Ascends x [] h = (tt, tt)
    insert-Ascends x (y ∷ ys) h = elim (Bool-cases (le x y)) [
      | inl first ↦
          rw first ((above x y first, All-ranks_trans rank x y ys (above x y first) h.0), h)
      | inr later ↦
          rw later
            (All-insert (λ z. rank y ≤ rank z) x ys (below x y later) h.0, insert-Ascends x ys h.1)
    ]

    -- An order that refines a rank sorts by the rank.
    pub sort-Ascends : (xs : List A) → Ascends rank (sort le xs)
    unfolding sort
    sort-Ascends [] = tt
    sort-Ascends (x ∷ xs) = insert-Ascends x (sort le xs) (sort-Ascends xs)

abbrev pub IsSorted : List ℕ → Type 0
IsSorted [] = Unit
IsSorted (x ∷ xs) = All (λ y. x ≤ y) xs × IsSorted xs

All-le_trans : (x y : ℕ) (ys : List ℕ) → x ≤ y → All (λ z. y ≤ z) ys → All (λ z. x ≤ z) ys
All-le_trans x y [] h k = tt
All-le_trans x y (z ∷ ys) h k = (omega (arith, k.0), All-le_trans x y ys h k.1)

insert-IsSorted : (x : ℕ) (xs : List ℕ) → IsSorted xs → IsSorted (insert leb x xs)
unfolding insert
insert-IsSorted x [] h = (tt, tt)
insert-IsSorted x (y ∷ ys) h = elim (Bool-cases (leb x y)) [
  | inl first ↦
      let below : x ≤ y = leb→le x y first in rw first ((below, All-le_trans x y ys below h.0), h)
  | inr later ↦
      rw later (All-insert leb (λ z. y ≤ z) x ys (ground arith) h.0, insert-IsSorted x ys h.1)
]

pub sort-IsSorted : (xs : List ℕ) → IsSorted (sort leb xs)
unfolding sort
sort-IsSorted [] = tt
sort-IsSorted (x ∷ xs) = insert-IsSorted x (sort leb xs) (sort-IsSorted xs)
