-- ===== src/Prelude/Sort.antt =====
-- The sorts of Go's `slices` package, as a stable insertion sort, and the laws that callers need.
use Prim.Native.Nat.{ℕ, suc, ◌+◌}
use mathlib.Core.Path.{◌≡◌, refl}
use mathlib.Core.Logic.{inl, inr}
use mathlib.Core.Bool.{Bool, true, false}
use mathlib.Core.List.{List, [], ◌∷◌}
use native.Mathlib.Omega.{arith}
use docsearch.Prelude.Tests.{if◌then◌else◌, Bool-cases}
use docsearch.Prelude.Lists.{any, length, sum_by, count_if, Chained}

module _ {ℓ} {A : Type ℓ} (le : A → A → Bool) where
  unfoldable pub insert_sorted : A → List A → List A
  insert_sorted x [] = x ∷ []
  insert_sorted x (y ∷ ys) =
      let later = y ∷ insert_sorted x ys in if le x y then x ∷ y ∷ ys else later

  unfoldable pub sort : List A → List A
  unfolding insert_sorted
  sort [] = []
  sort (x ∷ xs) = insert_sorted x (sort xs)

  count_if-insert :
      (p : A → Bool) (x : A) (ys : List A) → count_if p (insert_sorted x ys) ≡ count_if p (x ∷ ys)
  unfolding insert_sorted
  count_if-insert p x [] = refl
  count_if-insert p x (y ∷ ys) = ground (arith, count_if-insert p x ys)

  -- Sorting keeps the members: as many pass any test as before.
  pub count_if-sort : (p : A → Bool) (xs : List A) → count_if p (sort xs) ≡ count_if p xs
  unfolding sort
  count_if-sort p [] = refl
  count_if-sort p (x ∷ xs) = ground (arith, count_if-insert p x (sort xs), count_if-sort p xs)

  sum_by-insert :
      (f : A → ℕ) (x : A) (ys : List A) → sum_by f (insert_sorted x ys) ≡ f x + sum_by f ys
  unfolding insert_sorted
  sum_by-insert f x [] = refl
  sum_by-insert f x (y ∷ ys) = ground (arith, sum_by-insert f x ys)

  pub sum_by-sort : (f : A → ℕ) (xs : List A) → sum_by f (sort xs) ≡ sum_by f xs
  unfolding sort
  sum_by-sort f [] = refl
  sum_by-sort f (x ∷ xs) = omega (arith, sum_by-insert f x (sort xs), sum_by-sort f xs)

  length-insert : (x : A) (ys : List A) → length (insert_sorted x ys) ≡ suc (length ys)
  unfolding insert_sorted
  length-insert x [] = refl
  length-insert x (y ∷ ys) = ground (arith, length-insert x ys)

  pub length-sort : (xs : List A) → length (sort xs) ≡ length xs
  unfolding sort
  length-sort [] = refl
  length-sort (x ∷ xs) = omega (arith, length-insert x (sort xs), length-sort xs)

  any-insert : (p : A → Bool) (x : A) (ys : List A) → any p (insert_sorted x ys) ≡ any p (x ∷ ys)
  unfolding insert_sorted
  any-insert p x [] = refl
  any-insert p x (y ∷ ys) = ground (arith, any-insert p x ys)

  pub any-sort : (p : A → Bool) (xs : List A) → any p (sort xs) ≡ any p xs
  unfolding sort
  any-sort p [] = refl
  any-sort p (x ∷ xs) = ground (arith, any-insert p x (sort xs), any-sort p xs)

  module _ (total : (x y : A) → le x y ≡ false → le y x ≡ true) where
    insert-Chained_after :
        (z x : A) (ys : List A)
        → le z x ≡ true
        → Chained (λ a b. le a b ≡ true) (z ∷ ys)
        → Chained (λ a b. le a b ≡ true) (z ∷ insert_sorted x ys)
    unfolding insert_sorted
    insert-Chained_after z x [] h k = (h, tt)
    insert-Chained_after z x (y ∷ ys) h k = elim (Bool-cases (le x y)) [
      | inl e ↦ rw e ((h, (e, k.1)))
      | inr e ↦ rw e ((k.0, insert-Chained_after y x ys (total x y e) k.1))
    ]

    insert-Chained :
        (x : A) (ys : List A)
        → Chained (λ a b. le a b ≡ true) ys
        → Chained (λ a b. le a b ≡ true) (insert_sorted x ys)
    unfolding insert_sorted
    insert-Chained x [] k = tt
    insert-Chained x (y ∷ ys) k = elim (Bool-cases (le x y)) [
      | inl e ↦ rw e ((e, k))
      | inr e ↦ rw e (insert-Chained_after y x ys (total x y e) k)
    ]

    pub sort-Chained : (xs : List A) → Chained (λ a b. le a b ≡ true) (sort xs)
    unfolding sort
    sort-Chained [] = tt
    sort-Chained (x ∷ xs) = insert-Chained x (sort xs) (sort-Chained xs)
