-- ===== src/Grade/Agrees.antt =====
-- The check `unaddressable` of grade.go beside `Unaddressable` of structure.go.
use docsearch.Document.{Chunk}
use docsearch.Paths.{path_counts}
use docsearch.Pystr.{Unicode}
use docsearch.Grade.{grade_unaddressable, ChunkFacts, path_counts, Chunk, facts_of}
use docsearch.Enums.{StructureSource, marked_up}
use docsearch.Structure.{
  share_at_least, unaddressable, addressability_min_chunks, undivided, measure_chunks,
  StructureReport,
}
use docsearch.Prelude.{
  ℕ, suc, ◌≤◌, ◌≡◌, refl, sym, ap, ◌∙◌, Bool, not, ◌&&◌, ◌||◌, List, [], ◌∷◌, map, arith, leb,
  is_some, length, Text,
}

paths_same {ℓ} :
    {A : Type 0} {B : Type ℓ} (f : A → B) (g : B → Text) (xs : List A)
    → map g (map f xs) ≡ map (λ x. g (f x)) xs
paths_same f g [] = refl
paths_same f g (x ∷ xs) = ap (◌∷◌ (g (f x))) (paths_same f g xs)

length-facts {ℓ} :
    {A : Type 0} {B : Type ℓ} (f : A → B) (xs : List A) → length (map f xs) ≡ length xs
length-facts f [] = refl
length-facts f (x ∷ xs) = ap suc (length-facts f xs)

half_same : (n d : ℕ) → share_at_least n d 50 100 ≡ share_at_least n d 1 2
half_same n d = ground arith

-- The two tests, on the counts that they read.
report_test : StructureSource → ℕ → ℕ → ℕ → Bool
report_test source many largest distinct =
    (leb addressability_min_chunks many && share_at_least largest many 1 2)
    || leb addressability_min_chunks many
      && not (marked_up source)
      && not (share_at_least distinct many 1 2)

unaddressable-test :
    (r : StructureReport)
    → unaddressable r
      ≡ report_test r.structure_source r.chunk_total r.largest_section_chunks
          r.distinct_heading_paths
unfolding unaddressable undivided report_test
unaddressable-test r = refl

grade-test :
    (facts : List ChunkFacts) (source : StructureSource) (many : ℕ)
    → length facts ≡ many
    → addressability_min_chunks ≤ many
    → let sections = path_counts (map (λ (c : ChunkFacts). c.heading_path) facts) in
      is_some (grade_unaddressable facts source)
      ≡ report_test source many sections.largest sections.distinct
unfolding grade_unaddressable report_test
grade-test facts source many e h = ground (arith, e, h)

module _ ⦃u : Unicode⦄ (round3 : ℕ → ℕ → ℕ) where
  -- On a document of 25 chunks or more, whatever its headings were read from, the grader finds it
  -- unaddressable exactly when its structure report does.
  pub unaddressable-grade :
      (r : StructureReport) (cs : List Chunk)
      → addressability_min_chunks ≤ length cs
      → unaddressable (measure_chunks round3 r cs)
        ≡ is_some (grade_unaddressable (map facts_of cs) r.structure_source)
  unfolding measure_chunks report_test facts_of
  unaddressable-grade r cs h =
      unaddressable-test (measure_chunks round3 r cs)
      ∙ sym (
          grade-test (map facts_of cs) r.structure_source (length cs) (length-facts facts_of cs) h
          ∙ ap
              (λ paths.
                report_test r.structure_source (length cs) (path_counts paths).largest
                  (path_counts paths).distinct)
              (paths_same facts_of (λ c. c.heading_path) cs))
