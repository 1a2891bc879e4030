-- ===== src/Chunking/Pack/Laws.antt =====
-- What greedy packing guarantees, whatever the items and their sizes.
use mathlib.Core.Bool.{false≢true}
use docsearch.Chunking.Pack.{pack_from, pack_by_atoms}
use docsearch.Chunking.Units.{max_tokens}
use docsearch.Tokens.{tokens_from_atoms}
use docsearch.Prelude.{
  ℕ, ◌+◌, ◌≤◌, ◌<◌, ◌≡◌, ◌⊎◌, false, List, [], ◌∷◌, length, is_empty, sum_by, refl, ap, ◌∙◌, inl,
  inr, true, not, ◌&&◌, ◌++◌, append_assoc, arith, ltb, ltb→lt, ltb→le, Bool-cases, &&-eq-true,
  flatten, sum_by-append, All, Chained,
}

module _ {ℓ} {A : Type ℓ} (atoms : A → ℕ) where
  -- A group holds an item, and one with several items is within the cap.
  pub record IsPacked (g : List A) : Type ℓ where
    pub ne_nil : is_empty g ≡ false
    pub within : (length g ≤ 1) ⊎ (tokens_from_atoms (sum_by atoms g) ≤ max_tokens)

  -- The group after `g` starts with an item that would have taken `g` over the cap.
  abbrev pub Overflows : List A → List A → Type 0
  Overflows g [] = ⊥
  Overflows g (item ∷ items) = max_tokens < tokens_from_atoms (sum_by atoms g + atoms item)

  pack_from-flatten :
      (cur : List A) (total : ℕ) (items : List A)
      → flatten (pack_from atoms cur total items) ≡ cur ++ items
  unfolding pack_from
  pack_from-flatten [] total [] = refl
  pack_from-flatten (c ∷ cs) total [] = refl
  pack_from-flatten cur total (item ∷ items) =
      elim (Bool-cases
        (not (is_empty cur) && ltb max_tokens (tokens_from_atoms (total + atoms item)))) [
          | inl over ↦ rw over (ap (◌++◌ cur) (pack_from-flatten (item ∷ []) (atoms item) items))
          | inr fits ↦ rw fits (
              pack_from-flatten (cur ++ item ∷ []) (total + atoms item) items
              ∙ append_assoc cur (item ∷ []) items)
        ]

  is_empty-concat : (xs : List A) (x : A) → is_empty (xs ++ x ∷ []) ≡ false
  is_empty-concat [] x = refl
  is_empty-concat (y ∷ xs) x = refl

  sum-concat :
      (cur : List A) (item : A) → sum_by atoms (cur ++ item ∷ []) ≡ sum_by atoms cur + atoms item
  sum-concat cur item = omega (arith, sum_by-append atoms cur (item ∷ []))

  -- The group grows only within the cap, or out of nothing.
  grow-IsPacked :
      (cur : List A) (item : A) (total : ℕ)
      → total ≡ sum_by atoms cur
      → (not (is_empty cur) && ltb max_tokens (tokens_from_atoms (total + atoms item))) ≡ false
      → IsPacked (cur ++ item ∷ [])
  grow-IsPacked [] item total e f = record { ne_nil = refl; within = inl (omega arith) }
  grow-IsPacked (c ∷ cs) item total e f = record {
    ne_nil = refl;
    within = inr (rw (sum-concat (c ∷ cs) item, ← e) (ltb→le _ _ f));
  }

  pack_from-IsPacked :
      (cur : List A) (total : ℕ) (items : List A)
      → total ≡ sum_by atoms cur
      → (is_empty cur ≡ true) ⊎ IsPacked cur
      → All IsPacked (pack_from atoms cur total items)
  unfolding pack_from
  pack_from-IsPacked [] total [] e h = tt
  pack_from-IsPacked (c ∷ cs) total [] e (inl h) = absurd (false≢true h)
  pack_from-IsPacked (c ∷ cs) total [] e (inr h) = (h, tt)
  pack_from-IsPacked cur total (item ∷ items) e h =
      elim (Bool-cases
        (not (is_empty cur) && ltb max_tokens (tokens_from_atoms (total + atoms item)))) [
          | inl over ↦ rw over (
              (
                full over h,
                pack_from-IsPacked (item ∷ []) (atoms item) items (omega arith)
                    (inr (record { ne_nil = refl; within = inl (omega arith) })),
              ))
          | inr fits ↦ rw fits (
              pack_from-IsPacked (cur ++ item ∷ []) (total + atoms item) items
                (omega (arith, sum-concat cur item)) (inr (grow-IsPacked cur item total e fits)))
        ]
    where
      full :
          (not (is_empty cur) && ltb max_tokens (tokens_from_atoms (total + atoms item))) ≡ true
          → (is_empty cur ≡ true) ⊎ IsPacked cur
          → IsPacked cur
      full over (inl none_yet) = absurd (ground (arith, over, none_yet))
      full over (inr packed) = packed

  Overflows-append : (g xs ys : List A) → Overflows g xs → Overflows g (xs ++ ys)
  Overflows-append g [] ys h = absurd h
  Overflows-append g (x ∷ xs) ys h = h

  over-Overflows :
      (cur : List A) (item : A) (total : ℕ)
      → total ≡ sum_by atoms cur
      → (not (is_empty cur) && ltb max_tokens (tokens_from_atoms (total + atoms item))) ≡ true
      → Overflows cur (item ∷ [])
  over-Overflows cur item total e h = rw (← e) (ltb→lt _ _ (&&-eq-true (not (is_empty cur)) _ h).1)

  pack_from-Chained :
      (g cur : List A) (total : ℕ) (items : List A)
      → total ≡ sum_by atoms cur
      → Overflows g cur
      → Chained Overflows (g ∷ pack_from atoms cur total items)
  unfolding pack_from
  pack_from-Chained g [] total items e h = absurd h
  pack_from-Chained g (c ∷ cs) total [] e h = (h, tt)
  pack_from-Chained g (c ∷ cs) total (item ∷ items) e h =
      elim (Bool-cases (ltb max_tokens (tokens_from_atoms (total + atoms item)))) [
        | inl over ↦ rw over (
            (
              h,
              pack_from-Chained (c ∷ cs) (item ∷ []) (atoms item) items (omega arith)
                  (over-Overflows (c ∷ cs) item total e over),
            ))
        | inr fits ↦ rw fits (
            pack_from-Chained g (c ∷ (cs ++ item ∷ [])) (total + atoms item) items
              (omega (arith, sum-concat (c ∷ cs) item)) h)
      ]

  pack_from-Chained_first :
      (cur : List A) (total : ℕ) (items : List A)
      → total ≡ sum_by atoms cur
      → Chained Overflows (pack_from atoms cur total items)
  unfolding pack_from
  pack_from-Chained_first [] total [] e = tt
  pack_from-Chained_first (c ∷ cs) total [] e = tt
  pack_from-Chained_first cur total (item ∷ items) e =
      elim (Bool-cases
        (not (is_empty cur) && ltb max_tokens (tokens_from_atoms (total + atoms item)))) [
          | inl over ↦ rw over (
              pack_from-Chained cur (item ∷ []) (atoms item) items (omega arith)
                (over-Overflows cur item total e over))
          | inr fits ↦ rw fits (
              pack_from-Chained_first (cur ++ item ∷ []) (total + atoms item) items
                (omega (arith, sum-concat cur item)))
        ]

  -- Greedy packing keeps every item in its order, makes no empty group, keeps each group of
  -- several items within the cap, and starts a new group only where the next item would have
  -- taken the group over the cap.
  pub pack_by_atoms-IsGreedy :
      (items : List A)
      → (flatten (pack_by_atoms atoms items) ≡ items)
        × All IsPacked (pack_by_atoms atoms items)
        × Chained Overflows (pack_by_atoms atoms items)
  unfolding pack_by_atoms
  pack_by_atoms-IsGreedy items = (
    pack_from-flatten [] 0 items,
    pack_from-IsPacked [] 0 items (omega arith) (inl refl),
    pack_from-Chained_first [] 0 items (omega arith),
  )
