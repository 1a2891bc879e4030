-- ===== src/Grade.antt =====
-- internal/domain/grade.go: whether chunking produced a searchable document. A finding's message is
-- data: a constructor for each format, with the values it is given. Rates are compared in whole
-- numbers, as in Structure.
pub mod Lines
pub mod Verdicts
pub mod Agrees
use docsearch.Chunking.Kinds.{path_sep}
use docsearch.Document.{Chunk}
use docsearch.Strings.{split}
use docsearch.Enums.Tables.{verdict_code}
use docsearch.Tokens.{estimate_tokens}
use docsearch.Paths.{path_counts}
use docsearch.Structure.{share_at_least}
use docsearch.Chunking.Units.{max_tokens, min_tokens}
use docsearch.Pystr.{Unicode, strip}
use docsearch.Enums.{StructureSource, Verdict, marked_up}
use docsearch.Prelude.{
  ℕ, max, Bool, false, not, ◌&&◌, ◌||◌, Option, none, some, List, [], ◌∷◌, map, arith, ltb, ◌==◌,
  if◌then◌else◌, length, take, is_empty, count_if, Text, path_eq,
}

abbrev pub grade_min_chunks : ℕ
grade_min_chunks = 25

abbrev pub flat_min_chunks : ℕ
flat_min_chunks = 50

abbrev pub figure_max_tokens : ℕ
figure_max_tokens = 40

pub record ChunkFacts : Type 0 where
  pub text : Text
  pub heading_path : Text
  pub tokens : ℕ
  pub image_count : ℕ
  pub depth : ℕ
  pub numbered : Bool

-- A constructor for each code, with what its message reports.
pub data Defect : Type 0 where
  -- count, chunks, biggest
  oversized_defect : ℕ → ℕ → ℕ → Defect
  -- fragments, mergeable
  fragmented_defect : ℕ → ℕ → Defect
  flat_defect : ℕ → Defect
  figure_defect : ℕ → ℕ → Defect
  -- largest, chunks
  no_heading_defect : ℕ → ℕ → Defect
  -- largest, chunks, path, headless
  one_heading_defect : ℕ → ℕ → Text → ℕ → Defect
  -- chunks, distinct, source, headless
  few_headings_defect : ℕ → ℕ → StructureSource → ℕ → Defect
  -- lines, worst count, chunks, example
  boilerplate_defect : ℕ → ℕ → ℕ → Text → Defect

pub record Finding : Type 0 where
  pub defect : Defect
  pub severity : Verdict

unfoldable pub figure_dominated_chunk : ChunkFacts → Bool
figure_dominated_chunk c = ltb 0 c.image_count && ltb c.tokens figure_max_tokens

module _ ⦃u : Unicode⦄ where
  unfoldable pub facts_of : Chunk → ChunkFacts
  unfolding estimate_tokens split
  facts_of c = record {
    text = c.text;
    heading_path = c.heading_path;
    tokens = estimate_tokens c.text;
    image_count = c.image_count;
    depth = length (split path_sep c.heading_path);
    numbered = elim (c.section) [ none ↦ false | some s ↦ not (is_empty s) ];
  }

unfoldable pub severity_of : Bool → Verdict
severity_of unusable = if unusable then Verdict.unusable else Verdict.degraded

unfoldable pub is_oversized : ChunkFacts → Bool
is_oversized c = ltb max_tokens c.tokens

unfoldable pub biggest_from : ℕ → List ChunkFacts → ℕ
unfolding is_oversized
biggest_from biggest [] = biggest
biggest_from biggest (c ∷ cs) =
    biggest_from (if is_oversized c then max biggest c.tokens else biggest) cs

unfoldable pub oversized : List ChunkFacts → Option Finding
unfolding is_oversized biggest_from severity_of
oversized chunks =
    let count = count_if is_oversized chunks in
    if count == 0 || not (share_at_least count (length chunks) 1 10)
    then none
    else some (record {
      defect = oversized_defect count (length chunks) (biggest_from 0 chunks);
      severity = severity_of (share_at_least count (length chunks) 35 100);
    })

unfoldable pub is_mergeable : ChunkFacts → Bool
unfolding figure_dominated_chunk
is_mergeable c = not (c.numbered || figure_dominated_chunk c)

unfoldable pub is_fragment : ChunkFacts → Bool
unfolding is_mergeable
is_fragment c = is_mergeable c && ltb c.tokens min_tokens

unfoldable pub fragmented : List ChunkFacts → Option Finding
unfolding is_mergeable is_fragment severity_of
fragmented chunks =
    let mergeable = count_if is_mergeable chunks in
    let fragments = count_if is_fragment chunks in
    if ltb mergeable grade_min_chunks || fragments == 0
    then none
    else if not (share_at_least fragments mergeable 30 100)
    then none
    else some (record {
      defect = fragmented_defect fragments mergeable;
      severity = severity_of (share_at_least fragments mergeable 60 100);
    })

unfoldable pub deepest_from : ℕ → List ChunkFacts → ℕ
deepest_from deepest [] = deepest
deepest_from deepest (c ∷ cs) = deepest_from (max deepest c.depth) cs

unfoldable pub flat_hierarchy : List ChunkFacts → Option Finding
unfolding deepest_from
flat_hierarchy chunks =
    if ltb (length chunks) flat_min_chunks
    then none
    else if ltb 1 (deepest_from 0 chunks)
    then none
    else some (record { defect = flat_defect (length chunks); severity = Verdict.degraded })

unfoldable pub figure_dominated : List ChunkFacts → Option Finding
unfolding figure_dominated_chunk
figure_dominated chunks =
    let count = count_if figure_dominated_chunk chunks in
    if count == 0 || not (share_at_least count (length chunks) 25 100)
    then none
    else some (record { defect = figure_defect count (length chunks); severity = Verdict.degraded })

-- The check `unaddressable` of grade.go.
unfoldable pub grade_unaddressable : List ChunkFacts → StructureSource → Option Finding
grade_unaddressable chunks source =
    let sections = path_counts (map (λ (c : ChunkFacts). c.heading_path) chunks) in
    let many = length chunks in
    let undivided = share_at_least sections.largest many 1 2 in
    let severity = severity_of (not (share_at_least sections.distinct many 35 100)) in
    if not undivided && (marked_up source || share_at_least sections.distinct many 50 100)
    then none
    else if undivided && is_empty (strip sections.largest_path)
    then some (record { defect = no_heading_defect sections.largest many; severity = severity })
    else if undivided
    then some (record {
      defect =
          one_heading_defect sections.largest many (take 80 sections.largest_path)
            sections.headless;
      severity = severity;
    })
    else some (record {
      defect = few_headings_defect many sections.distinct source sections.headless;
      severity = severity;
    })

-- `GradeVerdict`, and one round of its loop.
unfoldable pub worse : Verdict → Finding → Verdict
worse worst f = if ltb (verdict_code worst) (verdict_code f.severity) then f.severity else worst

unfoldable pub worst_from : Verdict → List Finding → Verdict
unfolding worse
worst_from worst [] = worst
worst_from worst (f ∷ fs) = worst_from (worse worst f) fs

unfoldable pub grade_verdict : List Finding → Verdict
unfolding worst_from
grade_verdict = worst_from Verdict.good
