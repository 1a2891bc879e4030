-- ===== src/Chunking/Units/Merge.antt =====
-- What `mergeSmall` makes of the units.
use docsearch.Chunking.Units.Group.{IsUniform, same_section_iff, unit_blocks}
use docsearch.Document.{Block}
use docsearch.Pystr.{Unicode}
use mathlib.Core.Bool.{false≢true}
use docsearch.Chunking.Units.{
  TextUnit, mergeable, Block, absorb, min_tokens, absorb_following, unit_tokens, merge_loop,
  merge_small,
}
use docsearch.Prelude.{
  ℕ, ◌≤◌, ◌≡◌, refl, sym, ◌∙◌, ◌⊎◌, inl, inr, true, false, ◌&&◌, List, [], ◌∷◌, ◌++◌, arith, ltb,
  Bool-cases, &&-eq-true, length, is_empty, All, All-append, All-imp, zero, suc, ap, append_assoc,
}

-- A unit holds a block, and no block of another section.
pub record HasSection (u : TextUnit) : Type 0 where
  pub ne_nil : is_empty u.blocks ≡ false
  pub one_section : All (λ (b : Block). b.section ≡ u.section) u.blocks

pub IsUniform-HasSection : (u : TextUnit) → IsUniform u → HasSection u
IsUniform-HasSection u h = record {
  ne_nil = h.ne_nil;
  one_section = All-imp (λ b k. k.0) u.blocks h.shared;
}

pub is_empty-append {ℓ} :
    {A : Type ℓ} (xs ys : List A) → is_empty xs ≡ false → is_empty (xs ++ ys) ≡ false
is_empty-append [] ys h = absurd (false≢true (sym h))
is_empty-append (x ∷ xs) ys h = refl

mergeable-section : (cur next : TextUnit) → mergeable cur next ≡ true → next.section ≡ cur.section
unfolding mergeable
mergeable-section cur next h = (same_section_iff next.section cur.section).0 (&&-eq-true _ _ h).0

absorb-HasSection :
    (cur next : TextUnit)
    → mergeable cur next ≡ true
    → HasSection cur
    → HasSection next
    → HasSection (absorb cur next)
absorb-HasSection cur next m h k = record {
  ne_nil = is_empty-append cur.blocks next.blocks h.ne_nil;
  one_section =
      All-append (λ (b : Block). b.section ≡ cur.section) cur.blocks next.blocks h.one_section
        (All-imp (λ b e. e ∙ mergeable-section cur next m) next.blocks k.one_section);
}

module _ ⦃u : Unicode⦄ where
  -- Why a unit is not grown further.
  abbrev pub Stops : TextUnit → List TextUnit → Type 0
  Stops cur [] = Unit
  Stops cur (next ∷ rest) = (min_tokens ≤ unit_tokens cur) ⊎ (mergeable cur next ≡ false)

  -- What growing `cur` by units of `rest` guarantees of its result.
  pub record Grown (cur : TextUnit) (rest : List TextUnit) (out : TextUnit × List TextUnit)
      : Type 0 where
    pub blocks_kept : out.0.blocks ++ unit_blocks out.1 ≡ cur.blocks ++ unit_blocks rest
    pub shorter : length out.1 ≤ length rest
    pub merged_sound : HasSection cur → All HasSection rest → HasSection out.0
    pub rest_sound : All HasSection rest → All HasSection out.1
    pub section_kept : out.0.section ≡ cur.section
    pub stops : Stops out.0 out.1

  Grown-more :
      (cur next : TextUnit) (rest : List TextUnit) (out : TextUnit × List TextUnit)
      → mergeable cur next ≡ true
      → Grown (absorb cur next) rest out
      → Grown cur (next ∷ rest) out
  Grown-more cur next rest out m g = record {
    blocks_kept = g.blocks_kept ∙ append_assoc cur.blocks next.blocks (unit_blocks rest);
    shorter = omega arith;
    merged_sound = λ h k. g.merged_sound (absorb-HasSection cur next m h k.0) k.1;
    rest_sound = λ k. g.rest_sound k.1;
    section_kept = g.section_kept;
    stops = g.stops;
  }

  -- Growing a unit loses no block, stays in its section, and ends at the end of the units, at the
  -- minimum size or at a unit that may not be merged.
  pub absorb_following-Grown :
      (cur : TextUnit) (rest : List TextUnit) → Grown cur rest (absorb_following cur rest)
  unfolding absorb_following
  absorb_following-Grown cur [] = record {
    blocks_kept = refl;
    shorter = omega arith;
    merged_sound = λ h k. h;
    rest_sound = λ k. k;
    section_kept = refl;
    stops = tt;
  }
  absorb_following-Grown cur (next ∷ rest) =
      elim (Bool-cases (ltb (unit_tokens cur) min_tokens && mergeable cur next)) [
        | inl h ↦ rw h (
            Grown-more cur next rest (absorb_following (absorb cur next) rest)
              (&&-eq-true (ltb (unit_tokens cur) min_tokens) _ h).1
              (absorb_following-Grown (absorb cur next) rest))
        | inr h ↦ rw h (record {
          blocks_kept = refl;
          shorter = omega arith;
          merged_sound = λ k l. k;
          rest_sound = λ k. k;
          section_kept = refl;
          stops = ground (arith, h);
        })
      ]

  merge_loop-blocks :
      (fuel : ℕ) (units : List TextUnit)
      → length units ≤ fuel
      → unit_blocks (merge_loop fuel units) ≡ unit_blocks units
  unfolding merge_loop
  merge_loop-blocks zero [] h = refl
  merge_loop-blocks zero (cur ∷ rest) h = absurd (omega arith)
  merge_loop-blocks (suc fuel) [] h = refl
  merge_loop-blocks (suc fuel) (cur ∷ rest) h =
      let g = absorb_following-Grown cur rest in
      ap (◌++◌ (absorb_following cur rest).0.blocks)
        (merge_loop-blocks fuel (absorb_following cur rest).1 (omega (arith, g.shorter)))
      ∙ g.blocks_kept

  merge_loop-HasSection :
      (fuel : ℕ) (units : List TextUnit)
      → All HasSection units
      → All HasSection (merge_loop fuel units)
  unfolding merge_loop
  merge_loop-HasSection zero units k = tt
  merge_loop-HasSection (suc fuel) [] k = tt
  merge_loop-HasSection (suc fuel) (cur ∷ rest) k =
      let g = absorb_following-Grown cur rest in
      (
        g.merged_sound k.0 k.1,
        merge_loop-HasSection fuel (absorb_following cur rest).1 (g.rest_sound k.1),
      )

  -- Merging small units keeps every block in its order and never crosses a section: units that each
  -- hold the blocks of one section become units that do.
  pub merge_small-HasSection :
      (units : List TextUnit)
      → All HasSection units
      → (unit_blocks (merge_small units) ≡ unit_blocks units) × All HasSection (merge_small units)
  unfolding merge_small
  merge_small-HasSection units k = (
    merge_loop-blocks (length units) units (omega arith),
    merge_loop-HasSection (length units) units k,
  )
