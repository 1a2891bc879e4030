-- ===== src/Chunking/Kinds/Positions.antt =====
-- The positions of the chunks that pass a test, as members of a family.
use docsearch.Chunking.Kinds.{mark, members_of, mark_all, mark_at}
use docsearch.Document.{Chunk}
use docsearch.Prelude.{
  ℕ, suc, ◌≡◌, refl, ap, ◌∙◌, inl, inr, Bool, List, [], ◌∷◌, map, if◌then◌else◌, Bool-cases, length,
  get_elem?, select, none, some, ◌++◌,
}

module _ (p : Chunk → Bool) where
  abbrev pub positions : ℕ → List Chunk → List ℕ
  positions n [] = []
  positions n (c ∷ cs) = let rest = positions (suc n) cs in if p c then n ∷ rest else rest

  abbrev pub mark_if : Chunk → Chunk
  mark_if c = if p c then mark c else c

  members_of-later :
      (c : Chunk) (cs : List Chunk) (n : ℕ) (xs : List Chunk)
      → members_of (c ∷ cs) (positions (suc n) xs) ≡ members_of cs (positions n xs)
  unfolding members_of
  members_of-later c cs n [] = refl
  members_of-later c cs n (x ∷ xs) = elim (Bool-cases (p x)) [
    | inl h ↦ rw h (
        ap (λ ms. elim (get_elem? cs n) [ none ↦ ms | some d ↦ d ∷ ms ])
          (members_of-later c cs (suc n) xs))
    | inr h ↦ rw h (members_of-later c cs (suc n) xs)
  ]

  pub members_of-positions : (cs : List Chunk) → members_of cs (positions 0 cs) ≡ select p cs
  unfolding members_of
  members_of-positions [] = refl
  members_of-positions (c ∷ cs) = elim (Bool-cases (p c)) [
    | inl h ↦ rw (h, select) (ap (◌∷◌ c) (members_of-later c cs 0 cs ∙ members_of-positions cs))
    | inr h ↦ rw (h, select) (members_of-later c cs 0 cs ∙ members_of-positions cs)
  ]

  mark_all-later :
      (c : Chunk) (cs : List Chunk) (n : ℕ) (xs : List Chunk)
      → mark_all (positions (suc n) xs) (c ∷ cs) ≡ c ∷ mark_all (positions n xs) cs
  unfolding mark_all
  mark_all-later c cs n [] = refl
  mark_all-later c cs n (x ∷ xs) = elim (Bool-cases (p x)) [
    | inl h ↦ rw h (mark_all-later c (mark_at n cs) (suc n) xs)
    | inr h ↦ rw h (mark_all-later c cs (suc n) xs)
  ]

  pub mark_all-positions : (cs : List Chunk) → mark_all (positions 0 cs) cs ≡ map mark_if cs
  unfolding mark_all
  mark_all-positions [] = refl
  mark_all-positions (c ∷ cs) = elim (Bool-cases (p c)) [
    | inl h ↦ rw h (mark_all-later (mark c) cs 0 cs ∙ ap (◌∷◌ (mark c)) (mark_all-positions cs))
    | inr h ↦ rw h (mark_all-later c cs 0 cs ∙ ap (◌∷◌ c) (mark_all-positions cs))
  ]

  pub length-positions : (n : ℕ) (cs : List Chunk) → length (positions n cs) ≡ length (select p cs)
  length-positions n [] = refl
  length-positions n (c ∷ cs) = elim (Bool-cases (p c)) [
    | inl h ↦ rw (h, select) (ap suc (length-positions (suc n) cs))
    | inr h ↦ rw (h, select) (length-positions (suc n) cs)
  ]

  -- A change that the test does not see.
  module _ (f : Chunk → Chunk) (same : (c : Chunk) → p (f c) ≡ p c) where
    pub positions-map : (n : ℕ) (cs : List Chunk) → positions n (map f cs) ≡ positions n cs
    positions-map n [] = refl
    positions-map n (c ∷ cs) = elim (Bool-cases (p c)) [
      | inl h ↦ rw (same c, h) (ap (◌∷◌ n) (positions-map (suc n) cs))
      | inr h ↦ rw (same c, h) (positions-map (suc n) cs)
    ]

    pub select-map : (cs : List Chunk) → select p (map f cs) ≡ map f (select p cs)
    select-map [] = refl
    select-map (c ∷ cs) = elim (Bool-cases (p c)) [
      | inl h ↦ rw (same c, h, select) (ap (◌∷◌ (f c)) (select-map cs))
      | inr h ↦ rw (same c, h, select) (select-map cs)
    ]

  pub positions-cons :
      (n : ℕ) (c : Chunk) (cs : List Chunk)
      → positions n (c ∷ cs) ≡ (if p c then n ∷ [] else []) ++ positions (suc n) cs
  positions-cons n c cs = elim (Bool-cases (p c)) [ inl h ↦ rw h refl | inr h ↦ rw h refl ]
