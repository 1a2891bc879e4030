-- ===== src/Enums.antt =====
-- internal/domain/enums.go, with the enums of grade.go and inspect.go: the closed sets of values
-- and the text each persists as. `unset` is the zero value of a Go enum, which has no text; no
-- code makes any other number.
pub mod Tables
pub mod Stored
use docsearch.Prelude.{Bool, true, false, arith}

pub data Quality : Type 0 where
  unset ok degraded failed : Quality

pub data ChunkKind : Type 0 where
  unset prose keyword_reference : ChunkKind

pub data SourceKind : Type 0 where
  unset file site upload : SourceKind

pub data StructureSource : Type 0 where
  unset outline front_toc sidebar_dom index_page font_heuristic url_path : StructureSource
  atx_headings html_nesting heading_styles blank_lines unknown : StructureSource

pub data Verdict : Type 0 where
  unset good degraded unusable : Verdict

pub data Level : Type 0 where
  unset ok warn blocked : Level

-- `StructureSource.MarkedUp`.
unfoldable pub marked_up : StructureSource → Bool
marked_up StructureSource.atx_headings = true
marked_up StructureSource.html_nesting = true
marked_up StructureSource.heading_styles = true
marked_up _ = false
