-- ===== src/Document.antt =====
-- internal/domain/document.go: what an adapter extracts and what is cut from it. Page numbers,
-- offsets and counts are natural numbers: no adapter produces a negative one. A locator is an
-- association list, and a pointer field that may be nil is an `Option`.
use docsearch.Prelude.{ℕ, Bool, Option, none, some, List, [], ◌∷◌, if◌then◌else◌, Text, text_eq}
use docsearch.Enums.{ChunkKind}

pub record Block : Type 0 where
  pub locator : List (Text × ℕ)
  pub section : Option Text
  pub printed_page : Option ℕ
  pub url : Option Text
  pub fragment : Option Text
  pub text : Text
  pub heading_path : List Text
  pub image_count : ℕ
  pub figure_only : Bool
  pub subdivision : Bool

pub record Chunk : Type 0 where
  pub section : Option Text
  pub page_start : Option ℕ
  pub page_end : Option ℕ
  pub printed_page_start : Option ℕ
  pub url : Option Text
  pub fragment : Option Text
  pub heading_path : Text
  pub text : Text
  pub ordinal : ℕ
  pub image_count : ℕ
  pub kind : ChunkKind

-- A read of a locator's map.
unfoldable pub locate : Text → List (Text × ℕ) → Option ℕ
unfolding text_eq
locate key [] = none
locate key ((k, v) ∷ rest) = if text_eq k key then some v else locate key rest
