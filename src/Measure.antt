-- ===== src/Measure.antt =====
-- internal/domain/measure.go: what the stored chunks of a document show. The percentiles 0.5 and
-- 0.95 are fractions here; the product with a length, truncated, is the integer quotient on every
-- length below 2^49. `ScatteredSections` and `contiguous` are from structure.go.
pub mod Spread
pub mod Pages
pub mod Scatter
use docsearch.Tokens.{estimate_tokens}
use docsearch.Pystr.{strip, Unicode}
use docsearch.Document.{Chunk}
use mathlib.Core.List.{reverse}
use docsearch.Prelude.{
  ℕ, zero, suc, ◌+◌, ◌-◌, ◌*◌, ◌/◌, min, Bool, true, false, not, ◌&&◌, ◌||◌, Option, none, some,
  List, [], ◌∷◌, ◌++◌, map, arith, ltb, leb, ◌==◌, if◌then◌else◌, is_some, length, get_or, take,
  drop, is_empty, sum_by, count_if, any, sort, Text, text_eq,
}

pub record TokenSpread : Type 0 where
  pub min_size : ℕ
  pub median : ℕ
  pub p95 : ℕ
  pub max_size : ℕ
  pub mean : ℕ
  pub total : ℕ

pub record SizedChunk : Type 0 where
  pub heading_path : Text
  pub ordinal : ℕ
  pub tokens : ℕ

pub record Measurements : Type 0 where
  pub uncovered_pages : List ℕ
  pub ordinal_gaps : List ℕ
  pub scattered_sections : List Text
  pub longest : List SizedChunk
  pub shortest : List SizedChunk
  pub tokens : TokenSpread
  pub missing_locator : ℕ
  pub chunks_with_images : ℕ
  pub chunk_count : ℕ
  pub headless_chunks : ℕ

abbrev pub extremes : ℕ
extremes = 10

-- The index into a sorted slice; the fraction is `num / den`.
unfoldable pub percentile : List ℕ → ℕ → ℕ → ℕ
percentile sorted num den =
    if is_empty sorted
    then 0
    else get_or sorted (min (length sorted - 1) (length sorted * num / den)) 0

-- `sorted[0]`, and the other reads, are in range: the caller has a chunk at least.
unfoldable pub spread : List ℕ → TokenSpread
unfolding percentile sort
spread counts =
    let sorted = sort leb counts in
    let total = sum_by (λ n. n) sorted in
    record {
      min_size = get_or sorted 0 0;
      median = percentile sorted 1 2;
      p95 = percentile sorted 19 20;
      max_size = get_or sorted (length sorted - 1) 0;
      mean = total / length sorted;
      total = total;
    }

-- The longest, largest first, and the shortest, smallest first.
unfoldable pub extremes_of : List SizedChunk → List SizedChunk × List SizedChunk
unfolding sort
extremes_of sized =
    let by_size = sort (λ (a b : SizedChunk). leb a.tokens b.tokens) sized in
    (
      reverse (drop (length by_size - extremes) by_size),
      take (min (length by_size) extremes) by_size,
    )

-- Whether the chunk claims the page: the loop of `coveredPages` at one chunk.
unfoldable pub claims : ℕ → Chunk → Bool
claims page c = elim (c.page_start) [
  | none ↦ false
  | some first ↦ elim (c.page_end) [
    | none ↦ leb first page && leb page first
    | some last ↦ leb first page && leb page last
  ]
]

-- The pages `from`, `from + 1` and so on, `n` of them, that no chunk claims.
unfoldable pub uncovered_from : List Chunk → ℕ → ℕ → List ℕ
unfolding claims
uncovered_from chunks from zero = []
uncovered_from chunks from (suc n) =
    let rest = uncovered_from chunks (suc from) n in
    elim (any (claims from) chunks) [ true ↦ rest | false ↦ from ∷ rest ]

unfoldable pub uncovered_pages : List Chunk → Option ℕ → List ℕ
unfolding uncovered_from
uncovered_pages chunks none = []
uncovered_pages chunks (some page_count) = uncovered_from chunks 1 page_count

-- The loop of `ordinalGaps`; `before` is the chunk behind.
unfoldable pub gaps_from : Chunk → List Chunk → List ℕ
gaps_from before [] = []
gaps_from before (c ∷ cs) =
    let rest = gaps_from c cs in
    if c.ordinal == before.ordinal + 1 then rest else (before.ordinal + 1) ∷ rest

unfoldable pub ordinal_gaps : List Chunk → List ℕ
unfolding gaps_from
ordinal_gaps [] = []
ordinal_gaps (c ∷ cs) = gaps_from c cs

-- The loop of `contiguous`; `first` is `ordinals[0]`, and `i` the index.
unfoldable pub contiguous_from : ℕ → ℕ → List ℕ → Bool
contiguous_from first i [] = true
contiguous_from first i (o ∷ os) = o == first + i && contiguous_from first (i + 1) os

unfoldable pub contiguous : List ℕ → Bool
unfolding contiguous_from
contiguous [] = true
contiguous (o ∷ os) = contiguous_from o 0 (o ∷ os)

-- The map from a section to its chunks' ordinals, as an association list.
unfoldable pub add_ordinal : Text → ℕ → List (Text × List ℕ) → List (Text × List ℕ)
unfolding text_eq
add_ordinal key o [] = (key, o ∷ []) ∷ []
add_ordinal key o ((k, os) ∷ rest) =
    if text_eq k key then (k, os ++ o ∷ []) ∷ rest else (k, os) ∷ add_ordinal key o rest

-- The chunk's section, unless it has none or an empty one.
unfoldable pub section_key : Chunk → Option Text
section_key c = elim (c.section) [ none ↦ none | some s ↦ if is_empty s then none else some s ]

unfoldable pub note_ordinal : List (Text × List ℕ) → Chunk → List (Text × List ℕ)
unfolding add_ordinal
note_ordinal seen c = elim (section_key c) [
  | none ↦ seen
  | some key ↦ add_ordinal key c.ordinal seen
]

unfoldable pub section_ordinals : List (Text × List ℕ) → List Chunk → List (Text × List ℕ)
section_ordinals seen [] = seen
section_ordinals seen (c ∷ cs) = section_ordinals (note_ordinal seen c) cs

-- The order of Go's strings, which on UTF-8 is that of the runes.
unfoldable pub text_leb : Text → Text → Bool
text_leb [] t = true
text_leb (c ∷ cs) [] = false
text_leb (c ∷ cs) (d ∷ ds) = ltb c d || c == d && text_leb cs ds

unfoldable pub scattered_keys : List (Text × List ℕ) → List Text
unfolding contiguous
scattered_keys [] = []
scattered_keys ((key, os) ∷ rest) =
    let more = scattered_keys rest in if contiguous os then more else key ∷ more

unfoldable pub scattered_sections : List Chunk → List Text
unfolding sort text_leb scattered_keys section_ordinals note_ordinal section_key
scattered_sections chunks = sort text_leb (scattered_keys (section_ordinals [] chunks))

unfoldable pub has_images : Chunk → Bool
has_images c = ltb 0 c.image_count

unfoldable pub lacks_locator : Bool → Chunk → Bool
lacks_locator paginated c = paginated && not (is_some c.page_start)

unfoldable pub headless : Chunk → Bool
unfolding strip
headless c = is_empty (strip c.heading_path)

abbrev no_spread : TokenSpread
no_spread = record { min_size = 0; median = 0; p95 = 0; max_size = 0; mean = 0; total = 0 }

module _ ⦃u : Unicode⦄ where
  unfoldable pub sized : Chunk → SizedChunk
  unfolding estimate_tokens
  sized c = record {
    heading_path = c.heading_path;
    ordinal = c.ordinal;
    tokens = estimate_tokens c.text;
  }

  -- `Measure`; the three counts are those of `tally`.
  unfoldable pub measure : List Chunk → Option ℕ → Measurements
  unfolding sized spread extremes_of uncovered_pages ordinal_gaps scattered_sections has_images
      lacks_locator headless
  measure [] page_count = record {
    uncovered_pages = [];
    ordinal_gaps = [];
    scattered_sections = [];
    longest = [];
    shortest = [];
    tokens = no_spread;
    missing_locator = 0;
    chunks_with_images = 0;
    chunk_count = 0;
    headless_chunks = 0;
  }
  measure (c ∷ cs) page_count =
      let chunks = c ∷ cs in
      let named = map sized chunks in
      record {
        uncovered_pages = uncovered_pages chunks page_count;
        ordinal_gaps = ordinal_gaps chunks;
        scattered_sections = scattered_sections chunks;
        longest = (extremes_of named).0;
        shortest = (extremes_of named).1;
        tokens = spread (map (λ (s : SizedChunk). s.tokens) named);
        missing_locator = count_if (lacks_locator (is_some page_count)) chunks;
        chunks_with_images = count_if has_images chunks;
        chunk_count = length chunks;
        headless_chunks = count_if headless chunks;
      }
