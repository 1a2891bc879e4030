-- ===== src/Chunking/Kinds/Marks.antt =====
-- What the second loop of `ClassifyKinds` does to a chunk.
use docsearch.Enums.{ChunkKind}
use docsearch.Pystr.{Unicode}
use docsearch.Chunking.Kinds.{
  mark_at, mark_all, ChunkKind, mark_families, classify_kinds, is_reference_listing, gather,
}
use docsearch.Document.{Chunk}
use docsearch.Prelude.{
  ℕ, zero, suc, ◌≡◌, refl, ap, ◌∙◌, inl, inr, List, [], ◌∷◌, map, Bool-cases, Text,
}

-- A chunk up to its kind.
abbrev pub erase_kind : Chunk → Chunk
erase_kind c = record c { kind = ChunkKind.unset }

mark_at-erase : (i : ℕ) (cs : List Chunk) → map erase_kind (mark_at i cs) ≡ map erase_kind cs
unfolding mark_at
mark_at-erase i [] = refl
mark_at-erase zero (c ∷ cs) = refl
mark_at-erase (suc i) (c ∷ cs) = ap (◌∷◌ (erase_kind c)) (mark_at-erase i cs)

mark_all-erase :
    (is : List ℕ) (cs : List Chunk) → map erase_kind (mark_all is cs) ≡ map erase_kind cs
unfolding mark_all
mark_all-erase [] cs = refl
mark_all-erase (i ∷ is) cs = mark_all-erase is (mark_at i cs) ∙ mark_at-erase i cs

module _ ⦃u : Unicode⦄ where
  mark_families-erase :
      (families : List (Text × List ℕ)) (cs : List Chunk)
      → map erase_kind (mark_families families cs) ≡ map erase_kind cs
  unfolding mark_families
  mark_families-erase [] cs = refl
  mark_families-erase ((key, members) ∷ rest) cs =
      elim (Bool-cases (is_reference_listing cs members)) [
        | inl h ↦ rw h (mark_families-erase rest (mark_all members cs) ∙ mark_all-erase members cs)
        | inr h ↦ rw h (mark_families-erase rest cs)
      ]

  -- Classifying marks chunks and drops none: all but their kinds stays as it was.
  pub classify_kinds-erase :
      (cs : List Chunk) → map erase_kind (classify_kinds cs) ≡ map erase_kind cs
  unfolding classify_kinds
  classify_kinds-erase cs = mark_families-erase (gather 0 cs []) cs
