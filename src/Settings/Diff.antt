-- ===== src/Settings/Diff.antt =====
-- Which lines of a rewritten file a reader should look at.
pub mod Common
pub mod Numbers
pub mod Longest
use docsearch.Strings.{split}
use docsearch.Prelude.{
  ℕ, zero, suc, ◌+◌, max, Bool, true, false, ◌&&◌, List, [], ◌∷◌, map, arith, leb, ◌==◌,
  if◌then◌else◌, length, replicate, is_empty, Text, text_eq,
}

abbrev pub first : List ℕ → ℕ
first [] = 0
first (n ∷ ns) = n

abbrev pub rest_of {ℓ} : {A : Type ℓ} → List A → List A
rest_of [] = []
rest_of (x ∷ xs) = xs

-- `lengths[i]` of `shared`, from the right, for the line `x` and the row below.
unfoldable pub row : Text → List Text → List ℕ → List ℕ
unfolding text_eq
row x [] below = 0 ∷ []
row x (y ∷ b) below =
    let right = row x b (rest_of below) in
    (if text_eq x y then first (rest_of below) + 1 else max (first below) (first right)) ∷ right

abbrev pub first_row : List (List ℕ) → List ℕ
first_row [] = []
first_row (r ∷ rs) = r

-- The table from the row of `a[i:]` on, for every column.
unfoldable pub shared : List Text → List Text → List (List ℕ)
unfolding row
shared [] b = replicate (length b + 1) 0 ∷ []
shared (x ∷ a) b = row x b (first_row (shared a b)) ∷ shared a b

-- The loop of `common` at `i` and `j`, on `a[i:]`, `b[j:]` and the table from there on; it moves
-- `i` or `j` in each round.
unfoldable pub mark : ℕ → List Text → List Text → List (List ℕ) → List Bool
unfolding text_eq
mark zero a b rows = replicate (length b) false
mark (suc fuel) [] b rows = replicate (length b) false
mark (suc fuel) (x ∷ a) [] rows = []
mark (suc fuel) (x ∷ a) (y ∷ b) rows = elim (text_eq x y) [
  | true ↦ true ∷ mark fuel a b (map rest_of (rest_of rows))
  | false ↦ elim (leb (first (rest_of (first_row rows))) (first (first_row (rest_of rows)))) [
    | true ↦ mark fuel a (y ∷ b) (rest_of rows)
    | false ↦ false ∷ mark fuel (x ∷ a) b (map rest_of rows)
  ]
]

unfoldable pub common : List Text → List Text → List Bool
unfolding mark shared
common a b = mark (length a + length b) a b (shared a b)

abbrev newline : ℕ
newline = 10

-- `strings.TrimRight(s, "\n")`.
unfoldable pub trim_newlines : Text → Text
trim_newlines [] = []
trim_newlines (c ∷ cs) =
    let kept = trim_newlines cs in if is_empty kept && c == newline then [] else c ∷ kept

unfoldable pub lines_of : Text → List Text
unfolding trim_newlines split
lines_of source = split (newline ∷ []) (trim_newlines source)

-- The 1-based positions of the lines that were not kept; `i` stand before them.
unfoldable pub changed_from : ℕ → List Bool → List ℕ
changed_from i [] = []
changed_from i (kept ∷ more) =
    let rest = changed_from (i + 1) more in if kept then rest else (i + 1) ∷ rest

unfoldable pub changed_lines : Text → Text → List ℕ
unfolding lines_of common changed_from
changed_lines before after = changed_from 0 (common (lines_of before) (lines_of after))
