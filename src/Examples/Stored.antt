-- ===== src/Examples/Stored.antt =====
-- Stored texts and page ranges of concrete data.
use docsearch.Inspect.{byte_len, rune_len}
use docsearch.Pystr.{strip, is_space}
use docsearch.Chunking.Units.{join_texts}
use docsearch.Enums.Stored.{marshal-parse_iff, Unique}
use docsearch.Chunking.Emit.{emit, page_range, first_printed_page, image_total, join_path}
use docsearch.Document.{Block, Chunk}
use docsearch.Enums.Tables.{
  structure_source_text, marshal, source_code, new_enum_text, lookup, parse, invert,
}
use docsearch.Enums.{StructureSource, ChunkKind}
use docsearch.Prelude.{
  ℕ, ◌≡◌, refl, sym, ap, ◌∙◌, ◌↔◌, Bool, true, false, none, some, List, [], ◌∷◌, ◌==◌, ==_iff,
  codes, text_eq, if◌then◌else◌, ◌≤◌, arith, All, Text,
}

abbrev source_of : ℕ → StructureSource
source_of n =
    if n == 1
    then StructureSource.outline
    else if n == 2
    then StructureSource.front_toc
    else if n == 3
    then StructureSource.sidebar_dom
    else if n == 4
    then StructureSource.index_page
    else if n == 5
    then StructureSource.font_heuristic
    else if n == 6
    then StructureSource.url_path
    else if n == 7
    then StructureSource.atx_headings
    else if n == 8
    then StructureSource.html_nesting
    else if n == 9
    then StructureSource.heading_styles
    else if n == 10
    then StructureSource.blank_lines
    else if n == 11
    then StructureSource.unknown
    else StructureSource.unset

source_of-code : (s : StructureSource) → source_of (source_code s) ≡ s
source_of-code StructureSource.unset = refl
source_of-code StructureSource.outline = refl
source_of-code StructureSource.front_toc = refl
source_of-code StructureSource.sidebar_dom = refl
source_of-code StructureSource.index_page = refl
source_of-code StructureSource.font_heuristic = refl
source_of-code StructureSource.url_path = refl
source_of-code StructureSource.atx_headings = refl
source_of-code StructureSource.html_nesting = refl
source_of-code StructureSource.heading_styles = refl
source_of-code StructureSource.blank_lines = refl
source_of-code StructureSource.unknown = refl

abbrev source_eq : StructureSource → StructureSource → Bool
source_eq a b = source_code a == source_code b

source_eq_iff : (a b : StructureSource) → (source_eq a b ≡ true) ↔ (a ≡ b)
source_eq_iff a b = (
  λ h.
      sym (source_of-code a)
      ∙ ap source_of ((==_iff (source_code a) (source_code b)).0 h)
      ∙ source_of-code b,
  λ e. (==_iff (source_code a) (source_code b)).1 (ap source_code e),
)

source_names-Unique : Unique source_eq structure_source_text.names
unfolding structure_source_text new_enum_text lookup invert text_eq
source_names-Unique = (
  refl,
  refl,
  (
    refl,
    refl,
    (
      refl,
      refl,
      (
        refl,
        refl,
        (
          refl,
          refl,
          (refl, refl, (refl, refl, (refl, refl, (refl, refl, (refl, refl, (refl, refl, tt)))))),
        ),
      ),
    ),
  ),
)

marshal-parse_iff_example :
    (marshal (new_enum_text source_eq structure_source_text.names) StructureSource.html_nesting
      ≡ some (codes "h1_h6_nesting"))
    ↔ (parse (new_enum_text source_eq structure_source_text.names) (codes "h1_h6_nesting")
        ≡ some StructureSource.html_nesting)
marshal-parse_iff_example =
    marshal-parse_iff source_eq source_eq_iff structure_source_text.names
      StructureSource.html_nesting (codes "h1_h6_nesting") source_names-Unique

abbrev figure : ℕ → ℕ → Block
figure page page_end = record {
  locator = (codes "page", page) ∷ (codes "page_end", page_end) ∷ [];
  section = none;
  printed_page = none;
  url = none;
  fragment = none;
  text = codes "Figure";
  heading_path = [];
  image_count = 1;
  figure_only = true;
  subdivision = false;
}

abbrev figures : List Block
figures = figure 7 8 ∷ figure 3 4 ∷ []

abbrev figures_chunk : Chunk
figures_chunk = record {
  section = none;
  page_start = some 3;
  page_end = some 8;
  printed_page_start = none;
  url = none;
  fragment = none;
  heading_path = codes "Plates";
  text = codes "Figure\n\nFigure";
  ordinal = 5;
  image_count = 2;
  kind = ChunkKind.prose;
}

figures-emitted : emit 5 (codes "Plates" ∷ []) figures none ≡ some figures_chunk
unfolding emit page_range first_printed_page image_total join_path join_texts strip is_space
figures-emitted = refl

abbrev detail : List Text
detail = codes "no" ∷ codes "outline" ∷ codes "found" ∷ []

abbrev Short : Text → Type 0
Short word = byte_len word ≤ 7

detail-Short : All Short detail
unfolding byte_len rune_len
detail-Short = (omega arith, (omega arith, (omega arith, tt)))
