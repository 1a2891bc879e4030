-- ===== src/Chunking/Parts/Cover.antt =====
-- The ink of the parts that `unitParts` cuts a unit into.
use mathlib.Core.Bool.{false≢true}
use docsearch.Strings.Laws.{join-split}
use docsearch.Chunking.Pack.Laws.{pack_by_atoms-IsGreedy}
use docsearch.Chunking.Pack.{pack_by_atoms}
use docsearch.Tokens.{estimate_tokens, count_atoms}
use mathlib.Core.Path.{ap₂}
use docsearch.Strings.{join, split}
use docsearch.Pystr.Strip.{
  ink, ink_texts, is_empty-strip, ink-split_lines, ink_nil-join, ink_texts-append,
}
use docsearch.Pystr.{Unicode, is_space}
use docsearch.Chunking.Units.{join_texts, TextUnit, max_tokens, unit_text}
use docsearch.Chunking.Parts.{
  Part, runs_from, subheading_runs, run_blocks, any_text, Run, run_of, block_pieces, join,
  split_block, split_blocks, cap_part, cap_at_blocks, subdivide_at_headings, split, estimate_tokens,
  packed_path, TextUnit, max_tokens, pack_by_atoms, count_atoms, block_atoms, run_atoms, unit_text,
  unit_parts,
}
use docsearch.Document.{Block}
use docsearch.Prelude.{
  ◌≡◌, refl, sym, ap, ◌∙◌, inl, inr, false, not, ◌&&◌, List, [], ◌∷◌, ◌++◌, map, append-nil,
  append_assoc, arith, leb, ◌==◌, Bool-cases, length, is_empty, flatten, Text, codes, select, All,
  true,
}

abbrev pub block_ink : List Block → Text
block_ink [] = []
block_ink (b ∷ bs) = ink b.text ++ block_ink bs

abbrev pub part_ink : List Part → Text
part_ink [] = []
part_ink (p ∷ ps) = block_ink p.blocks ++ part_ink ps

pub block_ink-append : (xs ys : List Block) → block_ink (xs ++ ys) ≡ block_ink xs ++ block_ink ys
block_ink-append [] ys = refl
block_ink-append (x ∷ xs) ys = simp (block_ink-append xs ys, append_assoc)

part_ink-append : (xs ys : List Part) → part_ink (xs ++ ys) ≡ part_ink xs ++ part_ink ys
part_ink-append [] ys = refl
part_ink-append (x ∷ xs) ys = simp (part_ink-append xs ys, append_assoc)

ink_texts-block_ink : (bs : List Block) → ink_texts (map (λ (b : Block). b.text) bs) ≡ block_ink bs
ink_texts-block_ink [] = refl
ink_texts-block_ink (b ∷ bs) = ap (◌++◌ (ink b.text)) (ink_texts-block_ink bs)

pub ink-join_texts : (bs : List Block) → ink (join_texts bs) ≡ block_ink bs
unfolding join_texts ink is_space
ink-join_texts bs =
    ink_nil-join (codes "\n\n") (map (λ (b : Block). b.text) bs) refl ∙ ink_texts-block_ink bs

-- A part that holds a block and some ink.
pub record IsSolid (p : Part) : Type 0 where
  pub ne_nil : is_empty p.blocks ≡ false
  pub inked : is_empty (block_ink p.blocks) ≡ false

run_of-blocks : (b : Block) → (run_of b).blocks ≡ b ∷ []
unfolding run_of
run_of-blocks b = refl

runs_from-blocks : (r : Run) (bs : List Block) → run_blocks (runs_from r bs) ≡ r.blocks ++ bs
unfolding runs_from run_blocks
runs_from-blocks r [] = refl
runs_from-blocks r (b ∷ bs) = elim (Bool-cases (b.subdivision && not b.figure_only)) [
  | inl h ↦ rw h (
      ap (◌++◌ r.blocks) (runs_from-blocks (run_of b) bs ∙ ap (λ bs'. bs' ++ bs) (run_of-blocks b)))
  | inr h ↦ rw h (
      runs_from-blocks (record r { blocks = r.blocks ++ b ∷ [] }) bs
      ∙ append_assoc r.blocks (b ∷ []) bs)
]

-- Cutting at subheadings keeps every block in its order.
pub subheading_runs-blocks : (bs : List Block) → run_blocks (subheading_runs bs) ≡ bs
unfolding subheading_runs run_blocks
subheading_runs-blocks [] = refl
subheading_runs-blocks (b ∷ bs) = runs_from-blocks (run_of b) bs

run_blocks-append : (xs ys : List Run) → run_blocks (xs ++ ys) ≡ run_blocks xs ++ run_blocks ys
unfolding run_blocks
run_blocks-append [] ys = refl
run_blocks-append (x ∷ xs) ys = simp (run_blocks-append xs ys, append_assoc)

module _ ⦃u : Unicode⦄ where
  ink-block_pieces : (b : Block) → ink_texts (block_pieces b) ≡ ink b.text
  unfolding block_pieces
  ink-block_pieces b = elim (Bool-cases (length (split (codes "\n\n") b.text) == 1)) [
    | inl h ↦ rw h (ink-split_lines b.text)
    | inr h ↦ rw h (
        sym
          (ink_nil-join (codes "\n\n") (split (codes "\n\n") b.text) (unfold ink is_space in refl))
        ∙ ap ink (join-split 0xa (codes "\n") b.text))
  ]

  ink-groups :
      (b : Block) (groups : List (List Text))
      → block_ink (map (λ group. record b { text = join (codes "\n") group }) groups)
        ≡ ink_texts (flatten groups)
  ink-groups b [] = refl
  ink-groups b (g ∷ gs) =
      ap₂ ◌++◌ (ink_nil-join (codes "\n") g (unfold ink is_space in refl)) (ink-groups b gs)
      ∙ sym (ink_texts-append g (flatten gs))

  -- Splitting an oversized block loses white space only.
  pub ink-split_block : (b : Block) → block_ink (split_block b) ≡ ink b.text
  unfolding split_block
  ink-split_block b = elim (Bool-cases (leb (estimate_tokens b.text) max_tokens)) [
    | inl h ↦ rw h (append-nil (ink b.text))
    | inr h ↦ rw h (
        ink-groups b (pack_by_atoms count_atoms (block_pieces b))
        ∙ ap ink_texts (pack_by_atoms-IsGreedy count_atoms (block_pieces b)).0
        ∙ ink-block_pieces b)
  ]

  ink-split_blocks : (bs : List Block) → block_ink (split_blocks bs) ≡ block_ink bs
  unfolding split_blocks
  ink-split_blocks [] = refl
  ink-split_blocks (b ∷ bs) =
      block_ink-append (split_block b) (split_blocks bs)
      ∙ ap₂ ◌++◌ (ink-split_block b) (ink-split_blocks bs)

  ink-packed_blocks :
      (path : List Text) (groups : List (List Block))
      → part_ink (map (λ blocks. record { path = path; blocks = blocks }) groups)
        ≡ block_ink (flatten groups)
  ink-packed_blocks path [] = refl
  ink-packed_blocks path (g ∷ gs) =
      ap (◌++◌ (block_ink g)) (ink-packed_blocks path gs) ∙ sym (block_ink-append g (flatten gs))

  ink-cap_part : (p : Part) → part_ink (cap_part p) ≡ block_ink p.blocks
  unfolding cap_part
  ink-cap_part p = elim (Bool-cases (leb (estimate_tokens (join_texts p.blocks)) max_tokens)) [
    | inl h ↦ rw h (append-nil (block_ink p.blocks))
    | inr h ↦ rw h (
        ink-packed_blocks p.path (pack_by_atoms block_atoms (split_blocks p.blocks))
        ∙ ap block_ink (pack_by_atoms-IsGreedy block_atoms (split_blocks p.blocks)).0
        ∙ ink-split_blocks p.blocks)
  ]

  ink-cap_at_blocks : (ps : List Part) → part_ink (cap_at_blocks ps) ≡ part_ink ps
  unfolding cap_at_blocks
  ink-cap_at_blocks [] = refl
  ink-cap_at_blocks (p ∷ ps) =
      part_ink-append (cap_part p) (cap_at_blocks ps)
      ∙ ap₂ ◌++◌ (ink-cap_part p) (ink-cap_at_blocks ps)

  ink-packed_runs :
      (path : List Text) (groups : List (List Run))
      → part_ink (
          map
            (λ packed. record { path = packed_path path packed; blocks = run_blocks packed })
            groups)
        ≡ block_ink (run_blocks (flatten groups))
  ink-packed_runs path [] = unfold run_blocks in refl
  ink-packed_runs path (g ∷ gs) =
      ap (◌++◌ (block_ink (run_blocks g))) (ink-packed_runs path gs)
      ∙ sym (block_ink-append (run_blocks g) (run_blocks (flatten gs)))
      ∙ ap block_ink (sym (run_blocks-append g (flatten gs)))

  ink-subdivide : (t : TextUnit) → part_ink (subdivide_at_headings t) ≡ block_ink t.blocks
  unfolding subdivide_at_headings
  ink-subdivide t = elim (Bool-cases (leb (length (subheading_runs t.blocks)) 1)) [
    | inl h ↦ rw h (append-nil (block_ink t.blocks))
    | inr h ↦ rw h (
        ink-packed_runs t.heading_path (pack_by_atoms run_atoms (subheading_runs t.blocks))
        ∙ ap (λ rs. block_ink (run_blocks rs))
            (pack_by_atoms-IsGreedy run_atoms (subheading_runs t.blocks)).0
        ∙ ap block_ink (subheading_runs-blocks t.blocks))
  ]

any_text-ink : (bs : List Block) → any_text bs ≡ not (is_empty (block_ink bs))
unfolding any_text
any_text-ink [] = refl
any_text-ink (b ∷ bs) = ground (arith, any_text-ink bs, is_empty-strip b.text)

eq-nil : {A : Type 0} (xs : List A) → is_empty xs ≡ true → xs ≡ []
eq-nil [] h = refl
eq-nil (x ∷ xs) h = absurd (false≢true h)

inked-blocks : (bs : List Block) → is_empty (block_ink bs) ≡ false → is_empty bs ≡ false
inked-blocks [] h = absurd (false≢true (sym h))
inked-blocks (b ∷ bs) h = refl

inked-IsSolid : (p : Part) → is_empty (block_ink p.blocks) ≡ false → IsSolid p
inked-IsSolid p h = record { ne_nil = inked-blocks p.blocks h; inked = h }

select-IsSolid : (ps : List Part) → All IsSolid (select (λ (p : Part). any_text p.blocks) ps)
select-IsSolid [] = tt
select-IsSolid (p ∷ ps) = elim (Bool-cases (any_text p.blocks)) [
  | inl h ↦
      rw (h, select)
        ((inked-IsSolid p (ground (arith, any_text-ink p.blocks, h)), select-IsSolid ps))
  | inr h ↦ rw (h, select) (select-IsSolid ps)
]

ink-select : (ps : List Part) → part_ink (select (λ (p : Part). any_text p.blocks) ps) ≡ part_ink ps
ink-select [] = refl
ink-select (p ∷ ps) = elim (Bool-cases (any_text p.blocks)) [
  | inl h ↦ rw (h, select) (ap (◌++◌ (block_ink p.blocks)) (ink-select ps))
  | inr h ↦
      let none_left : block_ink p.blocks ≡ [] =
        eq-nil (block_ink p.blocks) (ground (arith, any_text-ink p.blocks, h)) in
      rw (h, select) (ink-select ps ∙ ap (λ s. s ++ part_ink ps) (sym none_left))
]

is_empty-unit_text : (t : TextUnit) → is_empty (unit_text t) ≡ is_empty (block_ink t.blocks)
unfolding unit_text
is_empty-unit_text t = is_empty-strip (join_texts t.blocks) ∙ ap is_empty (ink-join_texts t.blocks)

module _ ⦃u : Unicode⦄ where
  -- The parts of a unit hold all of its ink in its order, and each part holds a block and some ink.
  pub unit_parts-Cover :
      (t : TextUnit) → All IsSolid (unit_parts t) × (part_ink (unit_parts t) ≡ block_ink t.blocks)
  unfolding unit_parts
  unit_parts-Cover t = elim (Bool-cases (is_empty (unit_text t))) [
    | inl h ↦ rw h ((tt, sym (eq-nil (block_ink t.blocks) (sym (is_empty-unit_text t) ∙ h))))
    | inr h ↦ elim (Bool-cases (leb (estimate_tokens (unit_text t)) max_tokens)) [
      | inl fits ↦
          rw (h, fits)
            ((
              (inked-IsSolid _ (sym (is_empty-unit_text t) ∙ h), tt),
              append-nil (block_ink t.blocks),
            ))
      | inr over ↦
          rw (h, over)
            ((
              select-IsSolid (cap_at_blocks (subdivide_at_headings t)),
              ink-select (cap_at_blocks (subdivide_at_headings t))
                  ∙ ink-cap_at_blocks (subdivide_at_headings t)
                  ∙ ink-subdivide t,
            ))
    ]
  ]
