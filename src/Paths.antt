-- ===== src/Paths.antt =====
-- The count of chunks under each heading path, which structure.go (`MeasureChunks`,
-- `largestSection`) and grade.go (`sectionsOf`) keep in the same map, and the largest of them.
pub mod Counts
use docsearch.Pystr.{strip}
use docsearch.Prelude.{
  ℕ, ◌+◌, Bool, List, [], ◌∷◌, arith, ltb, if◌then◌else◌, length, is_empty, count_if, Text, text_eq,
}

-- `perPath[path]++` on an association list.
unfoldable pub bump : Text → List (Text × ℕ) → List (Text × ℕ)
unfolding text_eq
bump key [] = (key, 1) ∷ []
bump key ((k, n) ∷ rest) = if text_eq k key then (k, n + 1) ∷ rest else (k, n) ∷ bump key rest

unfoldable pub per_path : List (Text × ℕ) → List Text → List (Text × ℕ)
unfolding bump
per_path counts [] = counts
per_path counts (p ∷ ps) = per_path (bump p counts) ps

-- A read of the map: a missing path counts 0.
unfoldable pub count_of : Text → List (Text × ℕ) → ℕ
unfolding text_eq
count_of key [] = 0
count_of key ((k, n) ∷ rest) = if text_eq k key then n else count_of key rest

-- The second loop: the path that holds the most, the first in document order where two hold as
-- many, with how many it holds.
unfoldable pub better : List (Text × ℕ) → Text × ℕ → Text → Text × ℕ
unfolding count_of
better counts best p = if ltb best.1 (count_of p counts) then (p, count_of p counts) else best

unfoldable pub largest_from : List (Text × ℕ) → Text × ℕ → List Text → Text × ℕ
unfolding better
largest_from counts best [] = best
largest_from counts best (p ∷ ps) = largest_from counts (better counts best p) ps

unfoldable pub headless_path : Text → Bool
unfolding strip
headless_path path = is_empty (strip path)

pub record PathCounts : Type 0 where
  pub largest_path : Text
  pub distinct : ℕ
  pub largest : ℕ
  pub headless : ℕ

unfoldable pub path_counts : List Text → PathCounts
unfolding per_path largest_from headless_path
path_counts paths =
    let counts = per_path [] paths in
    let best = largest_from counts ([], 0) paths in
    record {
      largest_path = best.0;
      distinct = length counts;
      largest = best.1;
      headless = count_if headless_path paths;
    }
