-- ===== src/Pystr.antt =====
-- internal/pystr/pystr.go: rune classes, `Strip`, `SplitLines`. A string is its list of runes, so
-- the byte offsets and widths of the source are offsets and widths in runes here.
pub mod Lines
pub mod Strip
pub mod Numbers
pub mod Digits
use docsearch.Prelude.{
  ℕ, zero, suc, ◌+◌, Bool, true, false, not, ◌&&◌, ◌||◌, List, [], ◌∷◌, ◌++◌, ◌≡◌, Option, none,
  some, Text, length, take, drop, is_empty, leb, ◌==◌, if◌then◌else◌, arith,
}

-- `unicode.Is` on a table of ranges with stride 1.
unfoldable pub in_table : List (ℕ × ℕ) → ℕ → Bool
in_table [] r = false
in_table ((lo, hi) ∷ ranges) r = leb lo r && leb r hi || in_table ranges r

abbrev pub space_table : List (ℕ × ℕ)
space_table =
    (0x9, 0xd)
    ∷ (0x1c, 0x20)
    ∷ (0x85, 0x85)
    ∷ (0xa0, 0xa0)
    ∷ (0x1680, 0x1680)
    ∷ (0x2000, 0x200a)
    ∷ (0x2028, 0x2029)
    ∷ (0x202f, 0x202f)
    ∷ (0x205f, 0x205f)
    ∷ (0x3000, 0x3000)
    ∷ []

abbrev pub line_break_table : List (ℕ × ℕ)
line_break_table = (0xa, 0xd) ∷ (0x1c, 0x1e) ∷ (0x85, 0x85) ∷ (0x2028, 0x2029) ∷ []

unfoldable pub is_space : ℕ → Bool
unfolding in_table
is_space = in_table space_table

unfoldable pub is_line_break : ℕ → Bool
unfolding in_table
is_line_break = in_table line_break_table

-- The tables of Go's `unicode` package, which the source calls. The categories of Unicode are
-- disjoint, so no character that separates is a letter or a number.
pub record Unicode : Type 0 where
  pub is_letter : ℕ → Bool
  pub is_number : ℕ → Bool
  pub in_nl_no : ℕ → Bool
  pub space-not_letter : (r : ℕ) → is_space r ≡ true → is_letter r ≡ false
  pub space-not_number : (r : ℕ) → is_space r ≡ true → is_number r ≡ false

module _ ⦃u : Unicode⦄ where
  unfoldable pub is_word : ℕ → Bool
  is_word r = u.is_letter r || u.is_number r || r == b'_'

  unfoldable pub is_letter : ℕ → Bool
  is_letter r = u.is_letter r || u.in_nl_no r

unfoldable pub trim_left : Text → Text
trim_left [] = []
trim_left (r ∷ rs) = let rest = trim_left rs in elim (is_space r) [ true ↦ rest | false ↦ r ∷ rs ]

unfoldable pub trim_right : Text → Text
trim_right [] = []
trim_right (r ∷ rs) =
    let rest = trim_right rs in if is_space r && is_empty rest then [] else r ∷ rest

-- `strings.TrimFunc(s, IsSpace)`.
unfoldable pub strip : Text → Text
unfolding trim_left trim_right
strip s = trim_right (trim_left s)

unfoldable pub starts_with_rune : ℕ → Text → Bool
starts_with_rune r [] = false
starts_with_rune r (c ∷ cs) = c == r

abbrev shift : Option (ℕ × ℕ) → Option (ℕ × ℕ)
shift none = none
shift (some (at, width)) = some (suc at, width)

-- The offset and width of the first line break; `none` stands for the offset -1.
unfoldable pub first_line_break : Text → Option (ℕ × ℕ)
unfolding is_line_break starts_with_rune
first_line_break [] = none
first_line_break (r ∷ rs) =
    let later = shift (first_line_break rs) in
    if is_line_break r
    then if r == 0xd && starts_with_rune 0xa rs then some (0, 2) else some (0, 1)
    else later

-- The loop of `SplitLines`, on fuel: each round drops a rune at least.
unfoldable pub split_loop : ℕ → Text → List Text
unfolding first_line_break
split_loop zero s = []
split_loop (suc fuel) [] = []
split_loop (suc fuel) s = elim (first_line_break s) [
  | none ↦ s ∷ []
  | some (at, width) ↦ take at s ∷ split_loop fuel (drop (at + width) s)
]

unfoldable pub split_lines : Text → List Text
unfolding split_loop
split_lines s = split_loop (length s) s

-- The loop of `SplitLinesKeepEnds`.
unfoldable pub keep_ends_loop : ℕ → Text → List Text
unfolding first_line_break
keep_ends_loop zero s = []
keep_ends_loop (suc fuel) [] = []
keep_ends_loop (suc fuel) s = elim (first_line_break s) [
  | none ↦ s ∷ []
  | some (at, width) ↦ take (at + width) s ∷ keep_ends_loop fuel (drop (at + width) s)
]

unfoldable pub split_lines_keep_ends : Text → List Text
unfolding keep_ends_loop
split_lines_keep_ends s = keep_ends_loop (length s) s
