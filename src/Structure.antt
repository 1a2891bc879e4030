-- ===== src/Structure.antt =====
-- internal/domain/structure.go: the report on a document's structure, and the policy that grades
-- it. The source compares float64 shares with constants; a quotient of two counts that are below
-- 2^50, correctly rounded, is at least the rounded constant exactly when it is in whole numbers, as
-- written here. Messages are data: a constructor for each format, with the values it is given.
pub mod Policy
pub mod Told
use docsearch.Strings.{join}
use docsearch.Tokens.{is_uncalibrated}
use docsearch.Paths.{path_counts}
use docsearch.Document.{Chunk}
use docsearch.Pystr.{strip, Unicode, is_letter}
use docsearch.Measure.{text_leb, scattered_sections}
use docsearch.Enums.{StructureSource, marked_up, Quality}
use docsearch.Prelude.{
  ℕ, zero, suc, ◌-◌, ◌*◌, ◌/◌, min, max, Bool, true, false, not, ◌&&◌, ◌||◌, List, [], ◌∷◌, ◌++◌,
  map, arith, ltb, leb, ◌==◌, if◌then◌else◌, length, take, is_empty, count_if, any, sort, Text,
  codes, text_eq,
}

-- The share `n / d` is at least `num / den`.
abbrev pub share_at_least : ℕ → ℕ → ℕ → ℕ → Bool
share_at_least n d num den = leb (d * num) (n * den)

abbrev pub addressability_min_chunks : ℕ
addressability_min_chunks = 25

pub record StructureReport : Type 0 where
  pub largest_section_path : Text
  pub in_toc_not_in_body : List Text
  pub in_body_not_in_toc : List Text
  pub detected_more_than_once : List Text
  pub scattered : List Text
  pub candidates_rejected_by_ordering : List Text
  pub unreachable_pages : List Text
  pub placed_by_path : List Text
  pub toc_sections : ℕ
  pub body_sections : ℕ
  pub chunk_total : ℕ
  pub distinct_heading_paths : ℕ
  pub largest_section_chunks : ℕ
  pub headless_chunks : ℕ
  -- in thousandths
  pub uncalibrated_script_share : ℕ
  pub pages_declared : ℕ
  pub pages_fetched : ℕ
  pub pipeline_version : ℕ
  pub structure_source : StructureSource

unfoldable pub is_declared : StructureSource → Bool
is_declared StructureSource.front_toc = true
is_declared StructureSource.sidebar_dom = true
is_declared StructureSource.index_page = true
is_declared _ = false

unfoldable pub validatable : StructureReport → Bool
unfolding is_declared
validatable r = is_declared r.structure_source

unfoldable pub cross_validated : StructureReport → Bool
unfolding validatable
cross_validated r = validatable r && ltb 0 r.toc_sections && ltb 0 r.body_sections

unfoldable pub undivided : StructureReport → Bool
undivided r =
    leb addressability_min_chunks r.chunk_total
    && share_at_least r.largest_section_chunks r.chunk_total 1 2

unfoldable pub unaddressable : StructureReport → Bool
unfolding undivided marked_up
unaddressable r =
    undivided r
    || leb addressability_min_chunks r.chunk_total
      && not (marked_up r.structure_source)
      && not (share_at_least r.distinct_heading_paths r.chunk_total 1 2)

unfoldable pub incomplete : StructureReport → Bool
incomplete r =
    ltb 0 r.pages_declared && share_at_least (length r.unreachable_pages) r.pages_declared 1 5

unfoldable pub mostly_headless : StructureReport → Bool
mostly_headless r = ltb 0 r.chunk_total && share_at_least r.headless_chunks r.chunk_total 1 50

-- The keys of the set, each once: a Go map from a section to `true`.
unfoldable pub add_key : Text → List Text → List Text
add_key s keys = if any (λ k. text_eq k s) keys then keys else s ∷ keys

unfoldable pub key_set : List Text → List Text
unfolding add_key
key_set [] = []
key_set (s ∷ ss) = add_key s (key_set ss)

unfoldable pub symmetric_difference : StructureReport → List Text
unfolding key_set sort text_leb text_eq
symmetric_difference r = sort text_leb (key_set (r.in_toc_not_in_body ++ r.in_body_not_in_toc))

unfoldable pub fatal : StructureReport → Bool
fatal r = validatable r && not (is_empty (symmetric_difference r)) || incomplete r

unfoldable pub is_degraded : StructureReport → Bool
is_degraded r =
    not (is_empty r.detected_more_than_once)
    || not (is_empty r.scattered)
    || unaddressable r
    || mostly_headless r
    || leb 500 r.uncalibrated_script_share

unfoldable pub quality : StructureReport → Quality
quality r =
    if fatal r then Quality.failed else if is_degraded r then Quality.degraded else Quality.ok

pub data Note : Type 0 where
  -- unreachable, declared
  unreachable : ℕ → ℕ → Note
  placed : ℕ → Note
  -- largest, chunks
  no_heading : ℕ → ℕ → Note
  one_heading : ℕ → ℕ → Text → Note
  few_headings : ℕ → ℕ → StructureSource → Note
  headless_note : ℕ → Note
  uncalibrated : ℕ → Note
  not_cross_validated : StructureSource → ℕ → ℕ → Note
  -- a list of the report: how many, the first of them
  subjects : Text → ℕ → List Text → Note

unfoldable pub addressability_note : StructureReport → List Note
addressability_note r =
    if undivided r && is_empty (strip r.largest_section_path)
    then no_heading r.largest_section_chunks r.chunk_total ∷ []
    else if undivided r
    then one_heading r.largest_section_chunks r.chunk_total (take 80 r.largest_section_path) ∷ []
    else if unaddressable r
    then few_headings r.chunk_total r.distinct_heading_paths r.structure_source ∷ []
    else []

unfoldable pub scale_notes : StructureReport → List Note
scale_notes r =
    (if ltb 0 r.headless_chunks then headless_note r.headless_chunks ∷ [] else [])
    ++ (if leb 100 r.uncalibrated_script_share
        then uncalibrated r.uncalibrated_script_share ∷ []
        else [])
    ++ (if validatable r && not (cross_validated r)
        then not_cross_validated r.structure_source r.toc_sections r.body_sections ∷ []
        else [])

unfoldable pub notes : StructureReport → List Note
notes r =
    (if not (is_empty r.unreachable_pages)
      then unreachable (length r.unreachable_pages) r.pages_declared ∷ []
      else [])
    ++ (if not (is_empty r.placed_by_path) then placed (length r.placed_by_path) ∷ [] else [])
    ++ addressability_note r
    ++ scale_notes r

-- `uncalibrated` runes of the text and its letters, as the loop of `UncalibratedLetterShare` in
-- tokens.go counts them.
module _ ⦃u : Unicode⦄ where
  unfoldable pub uncalibrated_share : Text → ℕ × ℕ
  unfolding is_letter is_uncalibrated
  uncalibrated_share text = (count_if is_uncalibrated text, count_if is_letter text)

-- Every `stride`-th text, the first one after `wait` others.
unfoldable pub sample_from : ℕ → ℕ → List Chunk → List Text
sample_from stride wait [] = []
sample_from stride (suc wait) (c ∷ cs) = sample_from stride wait cs
sample_from stride zero (c ∷ cs) = c.text ∷ sample_from stride (stride - 1) cs

-- `round3` of a quotient, in thousandths, is Go's formatting and parsing of a float64.
module _ ⦃u : Unicode⦄ (round3 : ℕ → ℕ → ℕ) where
  unfoldable pub measure_chunks : StructureReport → List Chunk → StructureReport
  unfolding scattered_sections sample_from uncalibrated_share join
  measure_chunks r chunks =
      let paths = path_counts (map (λ (c : Chunk). c.heading_path) chunks) in
      let (uncal, letters) =
        uncalibrated_share
          (join (codes "\n") (sample_from (max 1 (length chunks / 200)) 0 chunks)) in
      record r {
        scattered = scattered_sections chunks;
        chunk_total = length chunks;
        headless_chunks = paths.headless;
        distinct_heading_paths = paths.distinct;
        largest_section_path = paths.largest_path;
        largest_section_chunks = paths.largest;
        uncalibrated_script_share = if letters == 0 then 0 else round3 uncal letters;
      }

-- summary.go: a stored report as a caller sees it.
abbrev pub shown_per_finding : ℕ
shown_per_finding = 10

unfoldable pub finding_note : Text → List Text → List Note
finding_note label items =
    if is_empty items
    then []
    else subjects label (length items) (take (min (length items) shown_per_finding) items) ∷ []

-- The notes of `Summary` over a report that was stored by `JSON` and decodes.
unfoldable pub summary_notes : StructureReport → List Note
unfolding finding_note
summary_notes r =
    finding_note (codes "sections in the table of contents but not the body") r.in_toc_not_in_body
    ++ finding_note (codes "headings in the body but not the table of contents")
        r.in_body_not_in_toc
    ++ finding_note (codes "sections detected more than once") r.detected_more_than_once
    ++ finding_note (codes "sections spanning non-adjacent chunks") r.scattered
    ++ notes r
