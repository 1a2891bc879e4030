-- ===== src/Grade/Verdicts.antt =====
-- The verdict on a document.
use mathlib.Core.List.{map}
use mathlib.Core.Bool.{◌&&◌}
use docsearch.Paths.{path_counts}
use docsearch.Grade.Lines.{found, boilerplate, grade, Repeat, repeated_lines}
use docsearch.Pystr.{Unicode, strip}
use native.Mathlib.Nat.{le_trans}
use docsearch.Structure.{share_at_least}
use docsearch.Enums.Tables.{verdict_code}
use docsearch.Grade.{
  worst_from, grade_verdict, Finding, severity_of, oversized, verdict_code, ChunkFacts,
  is_oversized, share_at_least, worse, fragmented, flat_hierarchy, figure_dominated,
  grade_unaddressable, Unicode, is_mergeable, flat_min_chunks, figure_dominated_chunk,
  grade_min_chunks, deepest_from, is_fragment, boilerplate_defect,
}
use docsearch.Enums.{Verdict, StructureSource, marked_up}
use docsearch.Prelude.{
  ℕ, ◌≤◌, inl, inr, Bool, true, false, not, ◌||◌, Option, none, some, List, [], ◌∷◌, arith, ltb,
  ◌==◌, ltb→lt, ltb→le, Bool-cases, length, count_if, All, suc, ◌≡◌, refl, ◌↔◌, take, is_empty,
}

abbrev pub rank : Verdict → ℕ
rank = verdict_code

abbrev pub NoWorse : Verdict → Finding → Type 0
NoWorse v f = rank f.severity ≤ rank v

worse-rank :
    (worst : Verdict) (f : Finding)
    → (rank worst ≤ rank (worse worst f)) × (rank f.severity ≤ rank (worse worst f))
unfolding worse
worse-rank worst f = elim (Bool-cases (ltb (rank worst) (rank f.severity))) [
  | inl h ↦ rw h ((omega (arith, ltb→lt _ _ h), omega arith))
  | inr h ↦ rw h ((omega arith, omega (arith, ltb→le _ _ h)))
]

worse-least :
    (v worst : Verdict) (f : Finding)
    → rank worst ≤ rank v
    → NoWorse v f
    → rank (worse worst f) ≤ rank v
unfolding worse
worse-least v worst f h k = elim (Bool-cases (ltb (rank worst) (rank f.severity))) [
  | inl e ↦ rw e k
  | inr e ↦ rw e h
]

worst_from-up : (worst : Verdict) (fs : List Finding) → rank worst ≤ rank (worst_from worst fs)
unfolding worst_from
worst_from-up worst [] = omega arith
worst_from-up worst (f ∷ fs) = le_trans (worse-rank worst f).0 (worst_from-up (worse worst f) fs)

worst_from-NoWorse : (worst : Verdict) (fs : List Finding) → All (NoWorse (worst_from worst fs)) fs
unfolding worst_from
worst_from-NoWorse worst [] = tt
worst_from-NoWorse worst (f ∷ fs) = (
  le_trans (worse-rank worst f).1 (worst_from-up (worse worst f) fs),
  worst_from-NoWorse (worse worst f) fs,
)

worst_from-least :
    (v worst : Verdict) (fs : List Finding)
    → rank worst ≤ rank v
    → All (NoWorse v) fs
    → rank (worst_from worst fs) ≤ rank v
unfolding worst_from
worst_from-least v worst [] h k = h
worst_from-least v worst (f ∷ fs) h k =
    worst_from-least v (worse worst f) fs (worse-least v worst f h k.0) k.1

-- The verdict is the worst severity: no finding is worse, and it is no worse than any verdict that
-- is at least good and no better than any finding.
pub grade_verdict-worst :
    (fs : List Finding) (v : Verdict)
    → rank Verdict.good ≤ rank v
    → All (NoWorse v) fs
    → All (NoWorse (grade_verdict fs)) fs × (rank (grade_verdict fs) ≤ rank v)
unfolding grade_verdict
grade_verdict-worst fs v h k =
    (worst_from-NoWorse Verdict.good fs, worst_from-least v Verdict.good fs h k)

-- Every finding costs something.
abbrev pub Costs : Finding → Type 0
Costs f = rank Verdict.degraded ≤ rank f.severity

abbrev CostsIf : Option Finding → Type 0
CostsIf none = Unit
CostsIf (some f) = Costs f

severity_of-costs : (b : Bool) → rank Verdict.degraded ≤ rank (severity_of b)
unfolding severity_of
severity_of-costs true = omega arith
severity_of-costs false = omega arith

oversized-costs : (cs : List ChunkFacts) → CostsIf (oversized cs)
unfolding oversized
oversized-costs cs =
    let count = count_if is_oversized cs in
    elim (Bool-cases (count == 0 || not (share_at_least count (length cs) 1 10))) [
      | inl h ↦ rw h tt
      | inr h ↦ rw h (severity_of-costs _)
    ]

fragmented-costs : (cs : List ChunkFacts) → CostsIf (fragmented cs)
unfolding fragmented
fragmented-costs cs =
    let mergeable = count_if is_mergeable cs in
    let fragments = count_if is_fragment cs in
    elim (Bool-cases (ltb mergeable grade_min_chunks || fragments == 0)) [
      | inl h ↦ rw h tt
      | inr h ↦ elim (Bool-cases (not (share_at_least fragments mergeable 30 100))) [
        | inl k ↦ rw (h, k) tt
        | inr k ↦ rw (h, k) (severity_of-costs _)
      ]
    ]

flat-costs : (cs : List ChunkFacts) → CostsIf (flat_hierarchy cs)
unfolding flat_hierarchy
flat-costs cs = elim (Bool-cases (ltb (length cs) flat_min_chunks)) [
  | inl h ↦ rw h tt
  | inr h ↦ elim (Bool-cases (ltb 1 (deepest_from 0 cs))) [
    | inl k ↦ rw (h, k) tt
    | inr k ↦ rw (h, k) (omega arith)
  ]
]

figure-costs : (cs : List ChunkFacts) → CostsIf (figure_dominated cs)
unfolding figure_dominated
figure-costs cs =
    let count = count_if figure_dominated_chunk cs in
    elim (Bool-cases (count == 0 || not (share_at_least count (length cs) 25 100))) [
      | inl h ↦ rw h tt
      | inr h ↦ rw h (omega arith)
    ]

unaddressable-costs :
    (cs : List ChunkFacts) (source : StructureSource) → CostsIf (grade_unaddressable cs source)
unfolding grade_unaddressable
unaddressable-costs cs source =
    let sections = path_counts (map (λ (c : ChunkFacts). c.heading_path) cs) in
    let undivided = share_at_least sections.largest (length cs) 1 2 in
    elim (Bool-cases (
      not undivided && (marked_up source || share_at_least sections.distinct (length cs) 50 100))) [
        | inl h ↦ rw h tt
        | inr h ↦ elim (Bool-cases (undivided && is_empty (strip sections.largest_path))) [
          | inl k ↦ rw (h, k) (severity_of-costs _)
          | inr k ↦ elim (Bool-cases undivided) [
            | inl l ↦ rw (h, k, l) (severity_of-costs _)
            | inr l ↦ rw (h, k, l) (severity_of-costs _)
          ]
        ]
      ]

module _ ⦃u : Unicode⦄ where
  boilerplate-costs : (cs : List ChunkFacts) → CostsIf (boilerplate cs)
  unfolding boilerplate
  boilerplate-costs cs = by_lines (repeated_lines cs)
    where
      by_lines :
          (lines : List Repeat)
          → CostsIf (elim lines [
            | [] ↦ none
            | worst ∷ others ↦ some (record {
              defect =
                  boilerplate_defect
                    (suc (length others))
                    worst.count
                    (length cs)
                    (take 80 worst.example);
              severity = Verdict.degraded;
            })
          ])
      by_lines [] = tt
      by_lines (worst ∷ others) = omega arith

found-Costs : (os : List (Option Finding)) → All CostsIf os → All Costs (found os)
unfolding found
found-Costs [] h = tt
found-Costs (none ∷ os) h = found-Costs os h.1
found-Costs (some f ∷ os) h = (h.0, found-Costs os h.1)

module _ ⦃u : Unicode⦄ where
  grade-Costs : (cs : List ChunkFacts) (source : StructureSource) → All Costs (grade cs source)
  unfolding grade
  grade-Costs cs source = elim (Bool-cases (ltb (length cs) grade_min_chunks)) [
    | inl h ↦ rw h tt
    | inr h ↦ rw h (
        found-Costs
          (oversized cs
            ∷ fragmented cs
            ∷ flat_hierarchy cs
            ∷ figure_dominated cs
            ∷ grade_unaddressable cs source
            ∷ boilerplate cs
            ∷ [])
          (
            oversized-costs cs,
            (
              fragmented-costs cs,
              (
                flat-costs cs,
                (figure-costs cs, (unaddressable-costs cs source, (boilerplate-costs cs, tt))),
              ),
            ),
          ))
  ]

  -- A document is graded good exactly when the grader has nothing to say of it.
  pub grade-good_iff :
      (cs : List ChunkFacts) (source : StructureSource)
      → (grade_verdict (grade cs source) ≡ Verdict.good) ↔ (grade cs source ≡ [])
  grade-good_iff cs source =
      (silent (grade cs source) (grade-Costs cs source), λ h. unfold grade_verdict in rw h)
    where
      silent : (fs : List Finding) → All Costs fs → grade_verdict fs ≡ Verdict.good → fs ≡ []
      silent [] costs h = refl
      silent (f ∷ fs) costs h =
          let worst : NoWorse (grade_verdict (f ∷ fs)) f =
            unfold grade_verdict in (worst_from-NoWorse Verdict.good (f ∷ fs)).0 in
          absurd (omega (arith, costs.0, rw h at worst))
