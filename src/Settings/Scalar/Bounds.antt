-- ===== src/Settings/Scalar/Bounds.antt =====
-- Where the end of a scalar can lie.
use docsearch.Settings.Scalar.{
  double_from, single_from, trim_right_of, plain_length, plain_end, scalar_end, backslash,
  single_quote, is_ending, comment_in, Style, starts_quote, is_blank,
}
use docsearch.Prelude.{
  ℕ, ◌+◌, ◌≤◌, ◌<◌, ◌≡◌, Bool, false, not, ◌&&◌, Option, none, some, [], ◌∷◌, arith, ◌==◌, length,
  take, drop, length-take, length-drop, Text,
}

double_from-bounds :
    (skip : Bool) (i to : ℕ) (cs : Text)
    → double_from skip i cs ≡ some to
    → (i < to) × (to ≤ i + length cs)
unfolding double_from
double_from-bounds skip i to [] h = cc h
double_from-bounds skip i to (c ∷ cs) h =
    ground (arith, h, double_from-bounds (not skip && c == backslash) (i + 1) to cs)

single_from-bounds :
    (skip : Bool) (i to : ℕ) (cs : Text)
    → single_from skip i cs ≡ some to
    → (i < to) × (to ≤ i + length cs)
unfolding single_from
single_from-bounds skip i to [] h = cc h
single_from-bounds skip i to (c ∷ cs) h =
    ground (
      arith,
      h,
      single_from-bounds (not skip && c == single_quote && starts_quote cs) (i + 1) to cs,
    )

trim_right_of-length : (p : ℕ → Bool) (s : Text) → length (trim_right_of p s) ≤ length s
unfolding trim_right_of
trim_right_of-length p [] = omega arith
trim_right_of-length p (c ∷ cs) = ground (arith, trim_right_of-length p cs)

plain_length-bound : (rest : Text) (at : Option ℕ) → plain_length rest at ≤ length rest
unfolding plain_length
plain_length-bound rest none = trim_right_of-length is_ending rest
plain_length-bound rest (some i) =
    omega (arith, trim_right_of-length is_blank (take i rest), length-take i rest)

plain_end-bounds :
    (line : Text) (from : ℕ)
    → from ≤ length line
    → (from ≤ plain_end line from) × (plain_end line from ≤ length line)
unfolding plain_end
plain_end-bounds line from h = omega (
  arith,
  plain_length-bound (drop from line) (comment_in (drop from line)),
  length-drop from line,
  h,
)

-- The end of a scalar lies behind its start and within its line, so that neither slice of a splice
-- is out of range.
pub scalar_end-bounds :
    (line : Text) (from to : ℕ) (style : Style)
    → scalar_end line from style ≡ some to
    → (from ≤ to) × (to ≤ length line)
unfolding scalar_end
scalar_end-bounds line from to style h = ground (
  arith,
  h,
  plain_end-bounds line from,
  double_from-bounds false (from + 1) to (drop (from + 1) line),
  single_from-bounds false (from + 1) to (drop (from + 1) line),
  length-drop (from + 1) line,
)
