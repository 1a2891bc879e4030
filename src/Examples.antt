-- ===== src/Examples.antt =====
-- Concrete documents, as tests.
pub mod Sites
pub mod Guards
pub mod Reports
pub mod Stored
pub mod Crawls
pub mod Syncs
pub mod Settings
pub mod Accounts
pub mod Workers
use docsearch.Pystr.Strip.{ink_texts, ink, ink-split_lines}
use docsearch.Measure.Pages.{ordinal_gaps-chunks}
use docsearch.Heading.Depth.{entry, push_all-le-cap, push_heading-zero, push_heading-Ancestry}
use docsearch.Measure.{ordinal_gaps}
use docsearch.Chunking.Units.Stubs.{Covers, units-Covers, fold_chapter_stubs-Covers}
use docsearch.Chunking.Emit.Total.{IsCut, chunk_ink, chunks-total}
use docsearch.Tokens.Sums.{tokens_from_atoms-sum_by}
use docsearch.Tokens.Atoms.{blank_line, count_atoms-joined, NoCjk, count_atoms-strip}
use docsearch.Chunking.Parts.{unit_parts}
use docsearch.Chunking.Pack.Laws.{IsPacked, Overflows, pack_by_atoms-IsGreedy}
use docsearch.Chunking.Emit.{chunks}
use docsearch.Heading.{push_heading, push_all, pos}
use docsearch.Pystr.Lines.{IsLines, split_lines_keep_ends-flatten, split_lines-IsLines}
use docsearch.Tokens.{count_atoms, tokens_from_atoms, is_cjk}
use docsearch.Chunking.Parts.Cover.{IsSolid, part_ink, block_ink, unit_parts-Cover}
use docsearch.Chunking.Pack.{pack_by_atoms}
use docsearch.Chunking.Units.Group.{unit_blocks, group-IsPartition, IsUniform, SameKey}
use docsearch.Chunking.Units.Merge.{
  HasSection, Grown, IsUniform-HasSection, merge_small-HasSection, absorb_following-Grown,
}
use docsearch.Chunking.Units.{
  TextUnit, group, fold_chapter_stubs, merge_small, unit_of, absorb_following,
}
use docsearch.Document.{Block, Chunk}
use docsearch.Pystr.{Unicode, split_lines_keep_ends, is_space, split_lines, in_table, strip}
use Prim.Native.String.{String}
use docsearch.Prelude.{
  ℕ, ◌+◌, ◌≤◌, ◌<◌, ◌≡◌, false, ◌&&◌, ◌||◌, none, some, List, [], ◌∷◌, ◌++◌, arith, ltb, length,
  flatten, sum_by, All, All-imp, Chained, Text, codes, refl, Bool, true,
}

abbrev ascii_letter : ℕ → Bool
ascii_letter r = ltb 64 r && ltb r 91 || ltb 96 r && ltb r 123

abbrev ascii_number : ℕ → Bool
ascii_number r = ltb 47 r && ltb r 58

ascii_space-not_letter : (r : ℕ) → is_space r ≡ true → ascii_letter r ≡ false
unfolding is_space in_table
ascii_space-not_letter r h = ground arith

ascii_space-not_number : (r : ℕ) → is_space r ≡ true → ascii_number r ≡ false
unfolding is_space in_table
ascii_space-not_number r h = ground arith

-- Go's tables, cut down to ASCII.
instance pub ascii : Unicode
ascii = record {
  is_letter = ascii_letter;
  is_number = ascii_number;
  in_nl_no = λ r. false;
  space-not_letter = ascii_space-not_letter;
  space-not_number = ascii_space-not_number;
}

abbrev block : String → ℕ → String → Block
block number page text = record {
  locator = (codes "page", page) ∷ [];
  section = some (codes number);
  printed_page = none;
  url = none;
  fragment = none;
  text = codes text;
  heading_path = codes "Guide" ∷ codes number ∷ [];
  image_count = 0;
  figure_only = false;
  subdivision = false;
}

abbrev manual : List Block
manual =
    block "1" 1 "1 Start"
    ∷ block "1.1" 1 "1.1 Install\nRun the installer."
    ∷ block "1.1" 2 "Then restart."
    ∷ block "2" 4 "2 Use"
    ∷ []

abbrev manual_units : List TextUnit
manual_units = group manual

manual_units-HasSection : All HasSection manual_units
manual_units-HasSection = All-imp IsUniform-HasSection manual_units (group-IsPartition manual).1

chunks-total_example :
    (cs : List Chunk) × (chunks manual ≡ some cs) × IsCut cs × (chunk_ink cs ≡ block_ink manual)
chunks-total_example = chunks-total manual

units-Covers_example :
    (unit_blocks (fold_chapter_stubs (merge_small (group manual))) ≡ manual)
    × All Covers (fold_chapter_stubs (merge_small (group manual)))
units-Covers_example = units-Covers manual

pack_by_atoms-IsGreedy_example :
    let groups = pack_by_atoms (λ n. n) (400 ∷ 90 ∷ 700 ∷ 3 ∷ []) in
    (flatten groups ≡ 400 ∷ 90 ∷ 700 ∷ 3 ∷ [])
    × All (IsPacked (λ n. n)) groups
    × Chained (Overflows (λ n. n)) groups
pack_by_atoms-IsGreedy_example = pack_by_atoms-IsGreedy (λ n. n) (400 ∷ 90 ∷ 700 ∷ 3 ∷ [])

group-IsPartition_example :
    (unit_blocks (group manual) ≡ manual)
    × All IsUniform (group manual)
    × Chained (λ a b. ¬ (SameKey a b)) (group manual)
group-IsPartition_example = group-IsPartition manual

merge_small-HasSection_example :
    (unit_blocks (merge_small manual_units) ≡ unit_blocks manual_units)
    × All HasSection (merge_small manual_units)
merge_small-HasSection_example = merge_small-HasSection manual_units manual_units-HasSection

unit_parts-Cover_example :
    All IsSolid (unit_parts (unit_of (block "1" 1 "1 Start")))
    × (part_ink (unit_parts (unit_of (block "1" 1 "1 Start")))
        ≡ block_ink (block "1" 1 "1 Start" ∷ []))
unit_parts-Cover_example = unit_parts-Cover (unit_of (block "1" 1 "1 Start"))

abbrev words : Text
words = codes "Run the setup.\nThen restart."

abbrev word : Text
word = codes "Run"

word-NoCjk : NoCjk word
unfolding is_cjk in_table
word-NoCjk = (refl, (refl, (refl, tt)))

split_lines-IsLines_example : IsLines (split_lines words) words
split_lines-IsLines_example = split_lines-IsLines words
