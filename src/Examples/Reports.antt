-- ===== src/Examples/Reports.antt =====
-- Reports on concrete documents.
use docsearch.Strings.{split}
use docsearch.Chunking.Kinds.Listed.{reclassified, classify_kinds-map}
use docsearch.Chunking.Kinds.Shallowest.{IsShallowest}
use docsearch.Chunking.Kinds.{classify_kinds, path_sep, reference_family}
use docsearch.Examples.{ascii}
use docsearch.Grade.Agrees.{unaddressable-grade}
use docsearch.Enums.{ChunkKind, StructureSource, Verdict, Quality}
use docsearch.Grade.Lines.{grade}
use docsearch.Structure.Told.{quality-told}
use docsearch.Grade.Verdicts.{grade-good_iff}
use docsearch.Grade.{Finding, grade_verdict, flat_defect, grade_unaddressable, facts_of}
use docsearch.Structure.{
  StructureReport, unaddressable, quality, summary_notes, fatal, symmetric_difference,
  measure_chunks, validatable, is_declared, key_set, add_key,
}
use docsearch.Document.{Chunk}
use docsearch.Prelude.{
  ℕ, zero, suc, ◌+◌, ◌*◌, ◌/◌, ◌≡◌, ◌≢◌, ◌↔◌, false, none, some, List, [], ◌∷◌, map, arith, is_some,
  is_empty, codes, Text,
}

abbrev numbered_chunk : ℕ → ℕ → Chunk
numbered_chunk n page = record {
  section = some (codes "1");
  page_start = some page;
  page_end = some (page + 1);
  printed_page_start = none;
  url = none;
  fragment = none;
  heading_path = codes "Guide";
  text = codes "Run it.";
  ordinal = n;
  image_count = 0;
  kind = ChunkKind.prose;
}

abbrev three : List Chunk
three = numbered_chunk 0 1 ∷ numbered_chunk 1 3 ∷ numbered_chunk 3 9 ∷ []

abbrev many : ℕ → List Chunk
many zero = []
many (suc n) = numbered_chunk n 1 ∷ many n

abbrev report : StructureReport
report = record {
  largest_section_path = [];
  in_toc_not_in_body = codes "1" ∷ codes "2" ∷ [];
  in_body_not_in_toc = codes "2" ∷ [];
  detected_more_than_once = [];
  scattered = [];
  candidates_rejected_by_ordering = [];
  unreachable_pages = [];
  placed_by_path = [];
  toc_sections = 2;
  body_sections = 1;
  chunk_total = 0;
  distinct_heading_paths = 0;
  largest_section_chunks = 0;
  headless_chunks = 0;
  uncalibrated_script_share = 0;
  pages_declared = 0;
  pages_fetched = 0;
  pipeline_version = 1;
  structure_source = StructureSource.front_toc;
}

unaddressable-grade_example :
    unaddressable (measure_chunks (λ n d. n * 1000 / d) report (many 26))
    ≡ is_some (grade_unaddressable (map facts_of (many 26)) StructureSource.front_toc)
unaddressable-grade_example =
    unaddressable-grade (λ n d. n * 1000 / d) report (many 26) (omega arith)

report-not_ok : quality report ≢ Quality.ok
unfolding quality fatal validatable is_declared symmetric_difference key_set add_key
report-not_ok h = cc h

quality-told_example : is_empty (summary_notes report) ≡ false
quality-told_example = quality-told report report-not_ok

abbrev flat_finding : Finding
flat_finding = record { defect = flat_defect 60; severity = Verdict.degraded }

grade-good_iff_example :
    (grade_verdict (grade (map facts_of (many 26)) StructureSource.blank_lines) ≡ Verdict.good)
    ↔ (grade (map facts_of (many 26)) StructureSource.blank_lines ≡ [])
grade-good_iff_example = grade-good_iff (map facts_of (many 26)) StructureSource.blank_lines

abbrev entries : ℕ → List Chunk
entries zero = []
entries (suc n) = record (numbered_chunk n 1) { heading_path = codes "Keywords > set" } ∷ entries n

classify_kinds-map_example :
    (classify_kinds (entries 31) ≡ map (reclassified (entries 31)) (entries 31))
    × ((path : Text) → IsShallowest [] (split path_sep path) (reference_family path))
classify_kinds-map_example = classify_kinds-map (entries 31)
