-- ===== src/Chunking/Parts.antt =====
-- The parts of a unit: itself when it fits, and otherwise its subdivisions at subheadings and at
-- block boundaries.
pub mod Cover
use docsearch.Chunking.Units.{unit_text, TextUnit, join_texts, max_tokens}
use docsearch.Chunking.Pack.{pack_by_atoms}
use docsearch.Strings.{split, join}
use docsearch.Tokens.{count_atoms, estimate_tokens}
use docsearch.Pystr.{split_lines, strip, Unicode}
use docsearch.Document.{Block}
use docsearch.Prelude.{
  ℕ, Bool, not, ◌&&◌, List, [], ◌∷◌, ◌++◌, map, arith, leb, ◌==◌, if◌then◌else◌, length, is_empty,
  sum_by, select, any, Text, codes,
}

pub record Part : Type 0 where
  pub path : List Text
  pub blocks : List Block

-- A run without a subheading has an empty label.
pub record Run : Type 0 where
  pub label : Text
  pub blocks : List Block

unfoldable pub first_line : Text → Text
unfolding split_lines strip
first_line text = elim (split_lines text) [ [] ↦ [] | line ∷ lines ↦ strip line ]

unfoldable pub any_text : List Block → Bool
unfolding strip
any_text = any (λ (b : Block). not (is_empty (strip b.text)))

abbrev starts_run : Block → Bool
starts_run b = b.subdivision && not b.figure_only

unfoldable pub run_of : Block → Run
unfolding first_line
run_of b = record { label = if starts_run b then first_line b.text else []; blocks = b ∷ [] }

abbrev extend_run : Run → Block → Run
extend_run r b = record r { blocks = r.blocks ++ b ∷ [] }

-- The loop of `subheadingRuns`; `r` is the last run so far.
unfoldable pub runs_from : Run → List Block → List Run
runs_from r [] = r ∷ []
runs_from r (b ∷ bs) =
    let opened = r ∷ runs_from (run_of b) bs in
    let grown = runs_from (extend_run r b) bs in if starts_run b then opened else grown

unfoldable pub subheading_runs : List Block → List Run
unfolding runs_from run_of
subheading_runs [] = []
subheading_runs (b ∷ bs) = runs_from (run_of b) bs

unfoldable pub run_blocks : List Run → List Block
run_blocks [] = []
run_blocks (r ∷ rs) = r.blocks ++ run_blocks rs

-- The labels that name a subheading.
unfoldable pub named_labels : List Run → List Text
named_labels runs = select (λ l. not (is_empty l)) (map (λ (r : Run). r.label) runs)

unfoldable pub packed_path : List Text → List Run → List Text
unfolding named_labels
packed_path heading_path runs = elim (named_labels runs) [
  | [] ↦ heading_path
  | label ∷ others ↦ if is_empty others then heading_path ++ label ∷ [] else heading_path
]

module _ ⦃u : Unicode⦄ where
  unfoldable pub block_atoms : Block → ℕ
  unfolding count_atoms
  block_atoms b = count_atoms b.text

  unfoldable pub run_atoms : Run → ℕ
  unfolding block_atoms
  run_atoms r = sum_by block_atoms r.blocks

  unfoldable pub block_pieces : Block → List Text
  unfolding split split_lines
  block_pieces b =
      let pieces = split (codes "\n\n") b.text in
      if length pieces == 1 then split_lines b.text else pieces

  unfoldable pub split_block : Block → List Block
  unfolding estimate_tokens block_pieces pack_by_atoms count_atoms join
  split_block b =
      if leb (estimate_tokens b.text) max_tokens
      then b ∷ []
      else map (λ group. record b { text = join (codes "\n") group })
          (pack_by_atoms count_atoms (block_pieces b))

  unfoldable pub split_blocks : List Block → List Block
  unfolding split_block
  split_blocks [] = []
  split_blocks (b ∷ bs) = split_block b ++ split_blocks bs

  unfoldable pub subdivide_at_headings : TextUnit → List Part
  unfolding subheading_runs pack_by_atoms run_atoms packed_path run_blocks
  subdivide_at_headings t =
      let runs = subheading_runs t.blocks in
      if leb (length runs) 1
      then (record { path = t.heading_path; blocks = t.blocks }) ∷ []
      else map
          (λ packed. record {
            path = packed_path t.heading_path packed;
            blocks = run_blocks packed;
          })
          (pack_by_atoms run_atoms runs)

  unfoldable pub cap_part : Part → List Part
  unfolding estimate_tokens join_texts split_blocks pack_by_atoms block_atoms
  cap_part p =
      if leb (estimate_tokens (join_texts p.blocks)) max_tokens
      then p ∷ []
      else map (λ blocks. record { path = p.path; blocks = blocks })
          (pack_by_atoms block_atoms (split_blocks p.blocks))

  unfoldable pub cap_at_blocks : List Part → List Part
  unfolding cap_part
  cap_at_blocks [] = []
  cap_at_blocks (p ∷ ps) = cap_part p ++ cap_at_blocks ps

  unfoldable pub unit_parts : TextUnit → List Part
  unfolding unit_text estimate_tokens cap_at_blocks subdivide_at_headings any_text
  unit_parts t =
      let text = unit_text t in
      if is_empty text
      then []
      else if leb (estimate_tokens text) max_tokens
      then (record { path = t.heading_path; blocks = t.blocks }) ∷ []
      else select (λ (p : Part). any_text p.blocks) (cap_at_blocks (subdivide_at_headings t))
