-- ===== src/Chunking/Units/Stubs.antt =====
-- What `foldChapterStubs` makes of the units.
use docsearch.Strings.Laws.{starts_with-append, starts_with_trans}
use docsearch.Chunking.Units.Group.{unit_blocks, group-IsPartition}
use docsearch.Chunking.Units.Merge.{
  HasSection, is_empty-append, merge_small-HasSection, IsUniform-HasSection,
}
use mathlib.Core.Bool.{false≢true}
use docsearch.Pystr.{Unicode}
use docsearch.Document.{Block}
use docsearch.Chunking.Units.{
  is_descendant, TextUnit, is_stub, fold_from, fold_chapter_stubs, fold_into, merge_small, group,
}
use docsearch.Prelude.{
  ◌≡◌, refl, ap, ◌∙◌, ◌⊎◌, inl, inr, true, false, Option, none, some, List, [], ◌∷◌, ◌++◌,
  append_assoc, arith, Bool-cases, is_empty, All, All-append, All-imp, Text,
}

-- A subsection of a subsection is a subsection.
pub is_descendant_trans :
    (a b c : Option Text)
    → is_descendant c b ≡ true
    → is_descendant b a ≡ true
    → is_descendant c a ≡ true
unfolding is_descendant
is_descendant_trans (some a) (some b) (some c) h k = ground (
  arith,
  starts_with-append (a ++ b'.' ∷ []) b (b'.' ∷ []),
  starts_with_trans (a ++ b'.' ∷ []) (b ++ b'.' ∷ []) c,
)
is_descendant_trans (some a) (some b) none h k = absurd (false≢true h)
is_descendant_trans (some a) none c h k = absurd (false≢true k)
is_descendant_trans none (some b) c h k = absurd (false≢true k)
is_descendant_trans none none c h k = absurd (false≢true k)

-- The unit's section, or one that it is a subsection of.
abbrev pub SelfOrAbove : Option Text → Block → Type 0
SelfOrAbove section b = (b.section ≡ section) ⊎ (is_descendant section b.section ≡ true)

pub record Covers (u : TextUnit) : Type 0 where
  pub ne_nil : is_empty u.blocks ≡ false
  pub above : All (SelfOrAbove u.section) u.blocks

HasSection-Covers : (u : TextUnit) → HasSection u → Covers u
HasSection-Covers u h = record {
  ne_nil = h.ne_nil;
  above = All-imp (λ b e. inl e) u.blocks h.one_section;
}

module _ ⦃u : Unicode⦄ where
  is_stub-descendant :
      (cur next : TextUnit)
      → is_stub cur next ≡ true
      → is_descendant next.section cur.section ≡ true
  unfolding is_stub
  is_stub-descendant cur next h = ground (arith, h)

  fold_into-Covers :
      (cur next : TextUnit)
      → is_stub cur next ≡ true
      → Covers cur
      → Covers next
      → Covers (fold_into cur next)
  fold_into-Covers cur next s h k = record {
    ne_nil = is_empty-append cur.blocks next.blocks h.ne_nil;
    above =
        All-append (SelfOrAbove next.section) cur.blocks next.blocks
          (All-imp raise cur.blocks h.above) k.above;
  }
    where
      below : is_descendant next.section cur.section ≡ true
      below = is_stub-descendant cur next s

      raise : (b : Block) → SelfOrAbove cur.section b → SelfOrAbove next.section b
      raise b (inl e) = inr (rw e below)
      raise b (inr d) = inr (is_descendant_trans b.section cur.section next.section below d)

  fold_from-Covers :
      (cur : TextUnit) (rest : List TextUnit)
      → Covers cur
      → All Covers rest
      → (unit_blocks (fold_from cur rest) ≡ cur.blocks ++ unit_blocks rest)
        × All Covers (fold_from cur rest)
  unfolding fold_from
  fold_from-Covers cur [] h k = (refl, (h, tt))
  fold_from-Covers cur (next ∷ rest) h k = elim (Bool-cases (is_stub cur next)) [
    | inl s ↦
        let (kept, sound) =
          fold_from-Covers (fold_into cur next) rest (fold_into-Covers cur next s h k.0) k.1 in
        rw s ((kept ∙ append_assoc cur.blocks next.blocks (unit_blocks rest), sound))
    | inr s ↦
        let (kept, sound) = fold_from-Covers next rest k.0 k.1 in
        rw s ((ap (◌++◌ cur.blocks) kept, (h, sound)))
  ]

  -- Folding chapter stubs keeps every block in its order, and files a block only under its own
  -- section or a subsection of it.
  pub fold_chapter_stubs-Covers :
      (units : List TextUnit)
      → All HasSection units
      → (unit_blocks (fold_chapter_stubs units) ≡ unit_blocks units)
        × All Covers (fold_chapter_stubs units)
  unfolding fold_chapter_stubs
  fold_chapter_stubs-Covers [] k = (refl, tt)
  fold_chapter_stubs-Covers (cur ∷ rest) k =
      fold_from-Covers cur rest (HasSection-Covers cur k.0) (All-imp HasSection-Covers rest k.1)

  -- The units that are cut into chunks: no block of the document is lost or moved, every unit holds
  -- a block, and a block stands only under its own section or a subsection of it.
  pub units-Covers :
      (bs : List Block)
      → (unit_blocks (fold_chapter_stubs (merge_small (group bs))) ≡ bs)
        × All Covers (fold_chapter_stubs (merge_small (group bs)))
  units-Covers bs =
      let (grouped, uniform, apart) = group-IsPartition bs in
      let (merged, sound) =
        merge_small-HasSection (group bs) (All-imp IsUniform-HasSection (group bs) uniform) in
      let (folded, covers) = fold_chapter_stubs-Covers (merge_small (group bs)) sound in
      (folded ∙ merged ∙ grouped, covers)
