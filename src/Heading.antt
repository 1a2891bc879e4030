-- ===== src/Heading.antt =====
-- internal/domain/heading.go: the ancestry of headings above a position. A Go `int` level is an
-- integer here, since a style may be named "Heading 0" and the source says what a level below 1
-- does. `NewOffsetBlock` builds a block without pages.
pub mod Depth
use docsearch.Document.{Block}
use docsearch.Prelude.{
  ℕ, zero, suc, ◌+◌, ◌-◌, false, none, List, [], ◌∷◌, ◌++◌, arith, ltb, if◌then◌else◌, length, take,
  replicate, Text, codes,
}

-- `negsuc n` is -(n + 1).
pub data ℤ : Type 0 where
  pos : ℕ → ℤ
  negsuc : ℕ → ℤ

-- The variable `cut`, against the length of the path: `level - 1`, or where that is negative so
-- many entries from the end.
unfoldable pub cut_at : ℕ → ℤ → ℕ
cut_at len (pos zero) = len - 1
cut_at len (pos (suc n)) = n
cut_at len (negsuc n) = len - (n + 2)

-- How many entries the padding loop brings the path to.
unfoldable pub padded_to : ℤ → ℕ
padded_to (pos zero) = 0
padded_to (pos (suc n)) = n
padded_to (negsuc n) = 0

-- `HeadingStack.Push`.
unfoldable pub push_heading : ℤ → Text → List Text → List Text
unfolding cut_at padded_to
push_heading level heading path =
    let cut = cut_at (length path) level in
    let kept = if ltb cut (length path) then take cut path else path in
    let padded = kept ++ replicate (padded_to level - length kept) [] in padded ++ heading ∷ []

-- A document read in order.
unfoldable pub push_all : List (ℤ × Text) → List Text → List Text
unfolding push_heading
push_all [] path = path
push_all ((level, heading) ∷ rest) path = push_all rest (push_heading level heading path)

unfoldable pub new_offset_block : List Text → ℕ → Text → Block
new_offset_block heading_path offset text = record {
  locator = (codes "offset", offset) ∷ [];
  section = none;
  printed_page = none;
  url = none;
  fragment = none;
  text = text;
  heading_path = heading_path;
  image_count = 0;
  figure_only = false;
  subdivision = false;
}
