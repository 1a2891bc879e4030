-- ===== src/Chunking/Kinds/Entries.antt =====
-- The test `isReferenceListing` on the entries of a family.
use docsearch.Chunking.Kinds.Families.{in_family}
use docsearch.Chunking.Kinds.{reference_family_min, is_reference_listing, is_named}
use docsearch.Chunking.Kinds.Positions.{
  mark_if, positions, select-map, length-positions, members_of-positions,
}
use docsearch.Pystr.{Unicode}
use docsearch.Document.{Chunk}
use docsearch.Prelude.{
  suc, ◌*◌, ◌≡◌, refl, ap, ◌∙◌, inl, inr, Bool, false, not, ◌&&◌, List, [], ◌∷◌, map, arith, ltb,
  leb, if◌then◌else◌, Bool-cases, length, is_empty, select, count_if, any, Text,
}

-- A change of chunks that keeps their heading paths.
abbrev pub KeepsPath : (Chunk → Chunk) → Type 0
KeepsPath f = (c : Chunk) → (f c).heading_path ≡ c.heading_path

pub mark_if-KeepsPath : (p : Chunk → Bool) → KeepsPath (mark_if p)
mark_if-KeepsPath p c = elim (Bool-cases (p c)) [ inl h ↦ rw h refl | inr h ↦ rw h refl ]

any-select : (p : Chunk → Bool) (cs : List Chunk) → any p cs ≡ not (is_empty (select p cs))
any-select p [] = refl
any-select p (c ∷ cs) = ground (arith, any-select p cs)

module _ ⦃u : Unicode⦄ where
  -- 30 entries or more, of which three fifths have short names.
  abbrev pub is_index : List Chunk → Bool
  is_index entries =
      if ltb (length entries) reference_family_min
      then false
      else leb (length entries * 6) (count_if is_named entries * 10)

  pub is_reference_listing-positions :
      (p : Chunk → Bool) (cs : List Chunk)
      → is_reference_listing cs (positions p 0 cs) ≡ is_index (select p cs)
  unfolding is_reference_listing
  is_reference_listing-positions p cs = rw (length-positions p 0 cs, members_of-positions p cs) refl

  module _ (f : Chunk → Chunk) (keeps : KeepsPath f) where
    pub in_family-same : (key : Text) (c : Chunk) → in_family key (f c) ≡ in_family key c
    in_family-same key c = rw (keeps c) refl

    count_if-named : (cs : List Chunk) → count_if is_named (map f cs) ≡ count_if is_named cs
    unfolding is_named
    count_if-named [] = refl
    count_if-named (c ∷ cs) = ground (arith, keeps c, count_if-named cs)

    length-map : (cs : List Chunk) → length (map f cs) ≡ length cs
    length-map [] = refl
    length-map (c ∷ cs) = ap suc (length-map cs)

    is_index-map : (cs : List Chunk) → is_index (map f cs) ≡ is_index cs
    is_index-map cs = rw (length-map cs, count_if-named cs) refl

    pub is_index-family :
        (key : Text) (cs : List Chunk)
        → is_index (select (in_family key) (map f cs)) ≡ is_index (select (in_family key) cs)
    is_index-family key cs =
        ap is_index (select-map (in_family key) f (in_family-same key) cs)
        ∙ is_index-map (select (in_family key) cs)

  some_entry : (xs : List Chunk) → (not (is_empty xs) && is_index xs) ≡ is_index xs
  some_entry [] = refl
  some_entry (x ∷ xs) = refl

  pub any-is_index :
      (p : Chunk → Bool) (cs : List Chunk)
      → (any p cs && is_index (select p cs)) ≡ is_index (select p cs)
  any-is_index p cs =
      ap (λ b. b && is_index (select p cs)) (any-select p cs) ∙ some_entry (select p cs)
