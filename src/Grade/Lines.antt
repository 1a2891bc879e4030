-- ===== src/Grade/Lines.antt =====
-- `boilerplate`: short lines that many chunks repeat. Go's `\d` and `\s` are ASCII.
use docsearch.Enums.{StructureSource, Verdict}
use docsearch.Grade.{
  ChunkFacts, Finding, boilerplate_defect, StructureSource, grade_min_chunks, oversized, fragmented,
  flat_hierarchy, figure_dominated, grade_unaddressable,
}
use docsearch.Pystr.{Unicode, is_letter, strip, split_lines}
use docsearch.Measure.{text_leb}
use docsearch.Prelude.{
  ℕ, suc, ◌+◌, ◌*◌, ◌/◌, max, Bool, false, ◌&&◌, ◌||◌, Option, none, some, List, [], ◌∷◌, ltb, leb,
  ◌==◌, if◌then◌else◌, length, take, any, sort, Text, text_eq,
}

abbrev pub boilerplate_min_chunks : ℕ
boilerplate_min_chunks = 8

unfoldable pub ascii_space : ℕ → Bool
ascii_space r = leb 0x9 r && leb r 0xa || leb 0xc r && leb r 0xd || r == 0x20

unfoldable pub ascii_digit : ℕ → Bool
ascii_digit r = leb b'0' r && leb r b'9'

-- `ReplaceAllString` of each longest run of a class by one rune; `inside` says that one is open.
unfoldable pub squeeze : (ℕ → Bool) → ℕ → Bool → Text → Text
squeeze class mark inside [] = []
squeeze class mark inside (r ∷ rs) =
    let rest = squeeze class mark (class r) rs in
    if class r then if inside then rest else mark ∷ rest else r ∷ rest

unfoldable pub line_key : Text → Text
unfolding squeeze ascii_space ascii_digit
line_key line = squeeze ascii_digit b'#' false (squeeze ascii_space 0x20 false line)

-- A write to a Go map.
unfoldable pub put : Text → Text → List (Text × Text) → List (Text × Text)
unfolding text_eq
put key v [] = (key, v) ∷ []
put key v ((k, w) ∷ rest) = if text_eq k key then (k, v) ∷ rest else (k, w) ∷ put key v rest

pub record Repeat : Type 0 where
  pub example : Text
  pub count : ℕ

-- The maps `counts` and `example` have the same keys, so they are one here.
unfoldable pub tally : Text → Text → List (Text × Repeat) → List (Text × Repeat)
unfolding text_eq
tally key raw [] = (key, record { example = raw; count = 1 }) ∷ []
tally key raw ((k, r) ∷ rest) =
    if text_eq k key
    then (k, record r { count = r.count + 1 }) ∷ rest
    else (k, r) ∷ tally key raw rest

unfoldable pub tally_all : List (Text × Text) → List (Text × Repeat) → List (Text × Repeat)
unfolding tally
tally_all [] counts = counts
tally_all ((key, raw) ∷ rest) counts = tally_all rest (tally key raw counts)

unfoldable pub repeats_over : ℕ → List (Text × Repeat) → List Repeat
repeats_over floor [] = []
repeats_over floor ((k, r) ∷ rest) =
    let more = repeats_over floor rest in if leb floor r.count then r ∷ more else more

-- More frequent first, then by text.
unfoldable pub repeat_leb : Repeat → Repeat → Bool
unfolding text_leb
repeat_leb a b = ltb b.count a.count || a.count == b.count && text_leb a.example b.example

-- The findings of the checks, in their order.
unfoldable pub found : List (Option Finding) → List Finding
found [] = []
found (none ∷ rest) = found rest
found (some f ∷ rest) = f ∷ found rest

module _ ⦃u : Unicode⦄ where
  unfoldable pub boilerplate_candidate : Text → Bool
  unfolding is_letter
  boilerplate_candidate line = leb 20 (length line) && leb (length line) 120 && any is_letter line

  unfoldable pub candidates_from : List (Text × Text) → List Text → List (Text × Text)
  unfolding strip boilerplate_candidate put line_key
  candidates_from lines [] = lines
  candidates_from lines (raw ∷ raws) =
      let line = strip raw in
      candidates_from (if boilerplate_candidate line then put (line_key line) line lines else lines)
        raws

  unfoldable pub candidate_lines : Text → List (Text × Text)
  unfolding candidates_from split_lines
  candidate_lines text = candidates_from [] (split_lines text)

  unfoldable pub count_candidates : List (Text × Repeat) → List ChunkFacts → List (Text × Repeat)
  unfolding tally_all candidate_lines
  count_candidates counts [] = counts
  count_candidates counts (c ∷ cs) = count_candidates (tally_all (candidate_lines c.text) counts) cs

  unfoldable pub repeated_lines : List ChunkFacts → List Repeat
  unfolding count_candidates repeats_over repeat_leb sort
  repeated_lines chunks =
      let floor = max boilerplate_min_chunks (length chunks * 25 / 100) in
      sort repeat_leb (repeats_over floor (count_candidates [] chunks))

  unfoldable pub boilerplate : List ChunkFacts → Option Finding
  unfolding repeated_lines
  boilerplate chunks = elim (repeated_lines chunks) [
    | [] ↦ none
    | worst ∷ others ↦ some (record {
      defect =
          boilerplate_defect (suc (length others)) worst.count (length chunks)
            (take 80 worst.example);
      severity = Verdict.degraded;
    })
  ]

  unfoldable pub grade : List ChunkFacts → StructureSource → List Finding
  unfolding found
  grade chunks source =
      if ltb (length chunks) grade_min_chunks
      then []
      else found (
          oversized chunks
          ∷ fragmented chunks
          ∷ flat_hierarchy chunks
          ∷ figure_dominated chunks
          ∷ grade_unaddressable chunks source
          ∷ boilerplate chunks
          ∷ [])
