-- ===== src/Chunking/Emit/Total.antt =====
-- The chunks that `Chunks` of chunking.go returns: their numbers, their texts and their ink.
use docsearch.Chunking.Units.Stubs.{units-Covers}
use docsearch.Chunking.Kinds.{classify_kinds}
use docsearch.Chunking.Units.Group.{unit_blocks}
use docsearch.Chunking.Units.{TextUnit, fold_chapter_stubs, merge_small, join_texts, group}
use mathlib.Core.Path.{transport}
use mathlib.Core.Bool.{false≢true}
use docsearch.Chunking.Kinds.Marks.{erase_kind, classify_kinds-erase}
use docsearch.Chunking.Parts.{Part, unit_parts}
use docsearch.Chunking.Parts.Cover.{
  block_ink, IsSolid, part_ink, unit_parts-Cover, ink-join_texts, block_ink-append,
}
use docsearch.Pystr.Strip.{ink, ink-strip, is_empty-strip}
use docsearch.Pystr.{Unicode}
use docsearch.Chunking.Emit.{
  emit, emit_parts, Part, emit_units, chunks, TextUnit, fold_chapter_stubs, merge_small, join_texts,
  group, unit_parts, classify_kinds,
}
use docsearch.Document.{Chunk, Block}
use docsearch.Prelude.{
  ℕ, suc, ◌+◌, ◌≡◌, refl, sym, ap, ◌∙◌, false, Option, some, List, [], ◌∷◌, ◌++◌, map, append-nil,
  append_assoc, arith, length, is_empty, All, All-append, Text,
}

-- Chunk `i` of the list has the ordinal `n + i`.
abbrev pub NumberedFrom : ℕ → List Chunk → Type 0
NumberedFrom n [] = Unit
NumberedFrom n (c ∷ cs) = (c.ordinal ≡ n) × NumberedFrom (suc n) cs

abbrev pub chunk_ink : List Chunk → Text
chunk_ink [] = []
chunk_ink (c ∷ cs) = ink c.text ++ chunk_ink cs

abbrev pub HasText : Chunk → Type 0
HasText c = is_empty c.text ≡ false

chunk_ink-append : (xs ys : List Chunk) → chunk_ink (xs ++ ys) ≡ chunk_ink xs ++ chunk_ink ys
chunk_ink-append [] ys = refl
chunk_ink-append (x ∷ xs) ys = simp (chunk_ink-append xs ys, append_assoc)

NumberedFrom-concat :
    (n k : ℕ) (cs : List Chunk) (c : Chunk)
    → NumberedFrom n cs
    → c.ordinal ≡ k
    → k ≡ n + length cs
    → NumberedFrom n (cs ++ c ∷ [])
NumberedFrom-concat n k [] c h e l = (omega arith, tt)
NumberedFrom-concat n k (d ∷ ds) c h e l =
    (h.0, NumberedFrom-concat (suc n) k ds c h.1 e (omega arith))

-- What `emit` makes of a part that holds some ink.
record Emitted (n : ℕ) (blocks : List Block) (section : Option Text) (c : Chunk) : Type 0 where
  numbered : c.ordinal ≡ n
  ink_kept : ink c.text ≡ block_ink blocks
  has_text : HasText c
  section_kept : c.section ≡ section

emit-Emitted :
    (n : ℕ) (path : List Text) (blocks : List Block) (section : Option Text)
    → is_empty (block_ink blocks) ≡ false
    → (c : Chunk) × (emit n path blocks section ≡ some c) × Emitted n blocks section c
unfolding emit
emit-Emitted n path [] section h = absurd (false≢true (sym h))
emit-Emitted n path (b ∷ bs) section h = (
  _,
  refl,
  record {
    numbered = refl;
    ink_kept = ink-strip (join_texts (b ∷ bs)) ∙ ink-join_texts (b ∷ bs);
    has_text = is_empty-strip (join_texts (b ∷ bs)) ∙ ap is_empty (ink-join_texts (b ∷ bs)) ∙ h;
    section_kept = refl;
  },
)

-- A list of chunks that is numbered from 0, each with some text.
pub record IsCut (cs : List Chunk) : Type 0 where
  pub numbered : NumberedFrom 0 cs
  pub texts : All HasText cs

IsCut-concat :
    (cs : List Chunk) (c : Chunk)
    → IsCut cs
    → c.ordinal ≡ length cs
    → HasText c
    → IsCut (cs ++ c ∷ [])
IsCut-concat cs c h e k = record {
  numbered = NumberedFrom-concat 0 (length cs) cs c h.numbered e (omega arith);
  texts = All-append HasText cs (c ∷ []) h.texts (k, tt);
}

emit_parts-total :
    (done : List Chunk) (section : Option Text) (ps : List Part)
    → All IsSolid ps
    → IsCut done
    → (cs : List Chunk) × (emit_parts done section ps ≡ some cs)
      × IsCut cs
      × (chunk_ink cs ≡ chunk_ink done ++ part_ink ps)
unfolding emit_parts
emit_parts-total done section [] h k = (done, refl, k, sym (append-nil (chunk_ink done)))
emit_parts-total done section (p ∷ ps) h k =
    let (c, e, out) = emit-Emitted (length done) p.path p.blocks section h.0.inked in
    let (cs, f, cut, inked) =
      emit_parts-total (done ++ c ∷ []) section ps h.1
        (IsCut-concat done c k out.numbered out.has_text) in
    (
      cs,
      rw e f,
      cut,
      inked
          ∙ ap (λ s. s ++ part_ink ps)
              (chunk_ink-append done (c ∷ [])
                ∙ ap (◌++◌ (chunk_ink done)) (append-nil (ink c.text) ∙ out.ink_kept))
          ∙ append_assoc (chunk_ink done) (block_ink p.blocks) (part_ink ps),
    )

erase-NumberedFrom :
    (n : ℕ) (cs : List Chunk) → NumberedFrom n (map erase_kind cs) ≡ NumberedFrom n cs
erase-NumberedFrom n [] = refl
erase-NumberedFrom n (c ∷ cs) = ap (λ T. (c.ordinal ≡ n) × T) (erase-NumberedFrom (suc n) cs)

erase-HasText : (cs : List Chunk) → All HasText (map erase_kind cs) ≡ All HasText cs
erase-HasText [] = refl
erase-HasText (c ∷ cs) = ap (λ T. HasText c × T) (erase-HasText cs)

erase-chunk_ink : (cs : List Chunk) → chunk_ink (map erase_kind cs) ≡ chunk_ink cs
erase-chunk_ink [] = refl
erase-chunk_ink (c ∷ cs) = ap (◌++◌ (ink c.text)) (erase-chunk_ink cs)

-- A change of kinds keeps what was cut.
same_but_kind :
    (cs ds : List Chunk)
    → map erase_kind ds ≡ map erase_kind cs
    → IsCut cs
    → IsCut ds × (chunk_ink ds ≡ chunk_ink cs)
same_but_kind cs ds e h = (
  record {
    numbered =
        transport
          (sym (erase-NumberedFrom 0 cs) ∙ ap (NumberedFrom 0) (sym e) ∙ erase-NumberedFrom 0 ds)
          h.numbered;
    texts =
        transport (sym (erase-HasText cs) ∙ ap (All HasText) (sym e) ∙ erase-HasText ds) h.texts;
  },
  sym (erase-chunk_ink ds) ∙ ap chunk_ink e ∙ erase-chunk_ink cs,
)

module _ ⦃u : Unicode⦄ where
  emit_units-total :
      (done : List Chunk) (ts : List TextUnit)
      → IsCut done
      → (cs : List Chunk) × (emit_units done ts ≡ some cs)
        × IsCut cs
        × (chunk_ink cs ≡ chunk_ink done ++ block_ink (unit_blocks ts))
  unfolding emit_units
  emit_units-total done [] k = (done, refl, k, sym (append-nil (chunk_ink done)))
  emit_units-total done (t ∷ ts) k =
      let (solid, covered) = unit_parts-Cover t in
      let (next, e, cut, inked) = emit_parts-total done t.section (unit_parts t) solid k in
      let (cs, f, cut', inked') = emit_units-total next ts cut in
      (
        cs,
        rw e f,
        cut',
        inked'
            ∙ ap (λ s. s ++ block_ink (unit_blocks ts)) (inked ∙ ap (◌++◌ (chunk_ink done)) covered)
            ∙ append_assoc (chunk_ink done) (block_ink t.blocks) (block_ink (unit_blocks ts))
            ∙ ap (◌++◌ (chunk_ink done)) (sym (block_ink-append t.blocks (unit_blocks ts))),
      )

  -- Chunking succeeds on every extraction. Its chunks are numbered 0, 1, 2 and so on, each has some
  -- text, and their texts together hold every character of the blocks that is not white space, in
  -- the order of the document.
  pub chunks-total :
      (blocks : List Block)
      → (cs : List Chunk) × (chunks blocks ≡ some cs) × IsCut cs × (chunk_ink cs ≡ block_ink blocks)
  unfolding chunks
  chunks-total blocks =
      let units = fold_chapter_stubs (merge_small (group blocks)) in
      let (cut, e, sound, inked) =
        emit_units-total [] units (record { numbered = tt; texts = tt }) in
      let (sound', inked') =
        same_but_kind cut (classify_kinds cut) (classify_kinds-erase cut) sound in
      (classify_kinds cut, rw e, sound', inked' ∙ inked ∙ ap block_ink (units-Covers blocks).0)
