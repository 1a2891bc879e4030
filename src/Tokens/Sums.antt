-- ===== src/Tokens/Sums.antt =====
-- Sizes of pieces against the size of the whole.
use docsearch.Tokens.{tokens_from_atoms}
use docsearch.Prelude.{ℕ, ◌+◌, ◌≤◌, List, [], ◌∷◌, arith, length, sum_by}

pub tokens_from_atoms_mono : {a b : ℕ} → a ≤ b → tokens_from_atoms a ≤ tokens_from_atoms b
unfolding tokens_from_atoms
tokens_from_atoms_mono h = omega arith

tokens_from_atoms-add :
    (a b : ℕ)
    → (tokens_from_atoms a + tokens_from_atoms b ≤ tokens_from_atoms (a + b))
      × (tokens_from_atoms (a + b) ≤ tokens_from_atoms a + tokens_from_atoms b + 1)
unfolding tokens_from_atoms
tokens_from_atoms-add a b = omega arith

module _ {ℓ} {A : Type ℓ} (atoms : A → ℕ) where
  -- Summing estimates in place of atoms never counts too much, and loses at most one token for
  -- each piece.
  pub tokens_from_atoms-sum_by :
      (xs : List A)
      → (sum_by (λ x. tokens_from_atoms (atoms x)) xs ≤ tokens_from_atoms (sum_by atoms xs))
        × (tokens_from_atoms (sum_by atoms xs)
            ≤ sum_by (λ x. tokens_from_atoms (atoms x)) xs + length xs)
  unfolding tokens_from_atoms
  tokens_from_atoms-sum_by [] = omega arith
  tokens_from_atoms-sum_by (x ∷ xs) =
      omega (arith, tokens_from_atoms-sum_by xs, tokens_from_atoms-add (atoms x) (sum_by atoms xs))
