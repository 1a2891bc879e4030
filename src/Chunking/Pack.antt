-- ===== src/Chunking/Pack.antt =====
-- `packByAtoms`: greedy packing of any items up to the cap.
pub mod Laws
use docsearch.Chunking.Units.{max_tokens}
use docsearch.Tokens.{tokens_from_atoms}
use docsearch.Prelude.{ℕ, ◌+◌, not, ◌&&◌, List, [], ◌∷◌, ◌++◌, arith, ltb, if◌then◌else◌, is_empty}

-- The loop; `cur` and `total` are the group in hand and its atoms.
module _ {ℓ} {A : Type ℓ} (atoms : A → ℕ) where
  unfoldable pub pack_from : List A → ℕ → List A → List (List A)
  unfolding tokens_from_atoms
  pack_from cur total [] = if is_empty cur then [] else cur ∷ []
  pack_from cur total (item ∷ items) =
      let n = atoms item in
      let flushed = cur ∷ pack_from (item ∷ []) n items in
      let grown = pack_from (cur ++ item ∷ []) (total + n) items in
      if not (is_empty cur) && ltb max_tokens (tokens_from_atoms (total + n))
      then flushed
      else grown

  unfoldable pub pack_by_atoms : List A → List (List A)
  unfolding pack_from
  pack_by_atoms items = pack_from [] 0 items
