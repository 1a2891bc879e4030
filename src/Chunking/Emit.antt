-- ===== src/Chunking/Emit.antt =====
-- `emit` and `Chunks`. `none` is the panic of `blocks[0]` on an empty slice.
pub mod Total
pub mod Pages
use docsearch.Enums.{ChunkKind}
use docsearch.Chunking.Parts.{Part, unit_parts}
use docsearch.Chunking.Kinds.{path_sep, classify_kinds}
use docsearch.Pystr.{Unicode, strip}
use docsearch.Chunking.Units.{join_texts, fold_chapter_stubs, TextUnit, merge_small, group}
use docsearch.Strings.{join}
use docsearch.Document.{locate, Block, Chunk}
use docsearch.Prelude.{
  ℕ, not, Option, none, some, List, [], ◌∷◌, ◌++◌, arith, ltb, if◌then◌else◌, length, is_empty,
  sum_by, select, Text, codes, path_eq, ◌>>=◌,
}

unfoldable pub lower : Option ℕ → ℕ → Option ℕ
lower none v = some v
lower (some cur) v = if ltb v cur then some v else some cur

unfoldable pub higher : Option ℕ → ℕ → Option ℕ
higher none v = some v
higher (some cur) v = if ltb cur v then some v else some cur

-- One round of the loop in `pageRange`.
unfoldable pub widen : Option ℕ × Option ℕ → Block → Option ℕ × Option ℕ
unfolding lower higher locate
widen (first, last) b = elim (locate (codes "page") b.locator) [
  | none ↦ (first, last)
  | some page ↦ elim (locate (codes "page_end") b.locator) [
    | none ↦ (lower first page, higher last page)
    | some page_end ↦ (lower first page, higher last page_end)
  ]
]

unfoldable pub page_range_from : Option ℕ × Option ℕ → List Block → Option ℕ × Option ℕ
unfolding widen
page_range_from range [] = range
page_range_from range (b ∷ bs) = page_range_from (widen range b) bs

unfoldable pub page_range : List Block → Option ℕ × Option ℕ
unfolding page_range_from
page_range = page_range_from (none, none)

unfoldable pub printed_from : Option ℕ → List Block → Option ℕ
unfolding lower
printed_from first [] = first
printed_from first (b ∷ bs) =
    printed_from (elim (b.printed_page) [ none ↦ first | some page ↦ lower first page ]) bs

unfoldable pub first_printed_page : List Block → Option ℕ
unfolding printed_from
first_printed_page = printed_from none

unfoldable pub image_total : List Block → ℕ
image_total = sum_by (λ (b : Block). b.image_count)

unfoldable pub join_path : List Text → Text
unfolding join
join_path path = join path_sep (select (λ p. not (is_empty p)) path)

unfoldable pub emit : ℕ → List Text → List Block → Option Text → Option Chunk
unfolding page_range first_printed_page image_total join_path join_texts strip
emit ordinal path [] section = none
emit ordinal path (b ∷ bs) section =
    let blocks = b ∷ bs in
    some (record {
      section = section;
      page_start = (page_range blocks).0;
      page_end = (page_range blocks).1;
      printed_page_start = first_printed_page blocks;
      url = b.url;
      fragment = b.fragment;
      heading_path = join_path path;
      text = strip (join_texts blocks);
      ordinal = ordinal;
      image_count = image_total blocks;
      kind = ChunkKind.prose;
    })

-- The inner loop of `Chunks`: `done` are the chunks so far, which number the next one.
unfoldable pub emit_parts : List Chunk → Option Text → List Part → Option (List Chunk)
unfolding emit
emit_parts done section [] = some done
emit_parts done section (p ∷ ps) = do
  c ← emit (length done) p.path p.blocks section
  emit_parts (done ++ c ∷ []) section ps

module _ ⦃u : Unicode⦄ where
  unfoldable pub emit_units : List Chunk → List TextUnit → Option (List Chunk)
  unfolding emit_parts unit_parts
  emit_units done [] = some done
  emit_units done (t ∷ ts) = do next ← emit_parts done t.section (unit_parts t); emit_units next ts

  -- `Chunks`, on the blocks of the extraction, which are all that it reads.
  unfoldable pub chunks : List Block → Option (List Chunk)
  unfolding emit_units fold_chapter_stubs merge_small group classify_kinds
  chunks blocks = do
    cut ← emit_units [] (fold_chapter_stubs (merge_small (group blocks)))
    some (classify_kinds cut)
