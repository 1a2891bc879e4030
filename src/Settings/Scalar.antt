-- ===== src/Settings/Scalar.antt =====
-- Where a scalar on one line ends, and the splice of a new value; a line is its bytes.
pub mod Bounds
use docsearch.Prelude.{
  ℕ, ◌+◌, ◌≤◌, ◌<◌, ◌≡◌, inl, inr, Bool, false, not, ◌&&◌, ◌||◌, Option, none, some, [], ◌∷◌, ◌++◌,
  arith, ◌>>=◌, ltb, ◌==◌, if◌then◌else◌, Option-cases, length, take, drop, is_empty, length-take,
  length-drop, Text,
}

abbrev pub backslash : ℕ
backslash = 92

abbrev pub double_quote : ℕ
double_quote = 34

abbrev pub single_quote : ℕ
single_quote = 39

abbrev hash : ℕ
hash = 35

abbrev pub is_blank : ℕ → Bool
is_blank c = c == 32 || c == 9

abbrev pub is_ending : ℕ → Bool
is_ending c = is_blank c || (c == 13 || c == 10)

-- The loop from the byte `i` on; `skip` says that the byte is passed over.
unfoldable pub double_from : Bool → ℕ → Text → Option ℕ
double_from skip i [] = none
double_from skip i (c ∷ cs) =
    let rest = double_from (not skip && c == backslash) (i + 1) cs in
    if not skip && c == double_quote then some (i + 1) else rest

unfoldable pub double_quoted_end : Text → ℕ → Option ℕ
unfolding double_from
double_quoted_end line from = double_from false (from + 1) (drop (from + 1) line)

abbrev pub starts_quote : Text → Bool
starts_quote [] = false
starts_quote (c ∷ cs) = c == single_quote

unfoldable pub single_from : Bool → ℕ → Text → Option ℕ
single_from skip i [] = none
single_from skip i (c ∷ cs) =
    let closing = not skip && c == single_quote in
    let rest = single_from (closing && starts_quote cs) (i + 1) cs in
    if closing && not (starts_quote cs) then some (i + 1) else rest

unfoldable pub single_quoted_end : Text → ℕ → Option ℕ
unfolding single_from
single_quoted_end line from = single_from false (from + 1) (drop (from + 1) line)

-- `strings.TrimRight` by a set of bytes.
unfoldable pub trim_right_of : (ℕ → Bool) → Text → Text
trim_right_of p [] = []
trim_right_of p (c ∷ cs) =
    let rest = trim_right_of p cs in if is_empty rest && p c then [] else c ∷ rest

-- The first `#` behind a blank, from the byte `i` on.
unfoldable pub comment_from : ℕ → ℕ → Text → Option ℕ
comment_from previous i [] = none
comment_from previous i (c ∷ cs) =
    let rest = comment_from c (i + 1) cs in if c == hash && is_blank previous then some i else rest

abbrev pub comment_in : Text → Option ℕ
comment_in [] = none
comment_in (c ∷ cs) = comment_from c 1 cs

-- The length of a plain scalar in what is left of its line, before a comment at a place.
unfoldable pub plain_length : Text → Option ℕ → ℕ
unfolding trim_right_of
plain_length rest (some i) = length (trim_right_of is_blank (take i rest))
plain_length rest none = length (trim_right_of is_ending rest)

unfoldable pub plain_end : Text → ℕ → ℕ
unfolding plain_length comment_from
plain_end line from = from + plain_length (drop from line) (comment_in (drop from line))

-- The flags of a node's style that are read.
pub record Style : Type 0 where
  pub double_quoted : Bool
  pub single_quoted : Bool
  pub literal : Bool
  pub folded : Bool

unfoldable pub scalar_end : Text → ℕ → Style → Option ℕ
unfolding double_quoted_end single_quoted_end plain_end
scalar_end line from style =
    if ltb (length line) from
    then none
    else if style.double_quoted
    then double_quoted_end line from
    else if style.single_quoted
    then single_quoted_end line from
    else if style.literal || style.folded
    then none
    else some (plain_end line from)

-- The line with a new text for its scalar: the end of `spliceOne`, once the node is found and its
-- new value is rendered.
unfoldable pub splice_line : Text → ℕ → Style → Text → Option Text
unfolding scalar_end
splice_line line from style new =
    scalar_end line from style >>= λ to. some (take from line ++ (new ++ drop to line))
