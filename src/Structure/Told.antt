-- ===== src/Structure/Told.antt =====
-- What a caller is told of a document whose structure is not graded as sound.
use docsearch.Enums.{Quality}
use docsearch.Structure.Policy.{is_empty-symmetric_difference}
use docsearch.Pystr.{strip}
use docsearch.Structure.{
  incomplete, addressability_note, scale_notes, StructureReport, mostly_headless, share_at_least,
  unaddressable, undivided, finding_note, summary_notes, notes, strip, is_degraded, fatal, quality,
  Quality,
}
use docsearch.Prelude.{
  ◌≡◌, refl, true, false, ◌&&◌, List, [], ◌∷◌, ◌++◌, arith, ltb, leb, length, is_empty, Text, inl,
  inr, Bool, Bool-cases, ◌∙◌, ◌≢◌,
}

is_empty-++ {ℓ} : {A : Type ℓ} (xs ys : List A) → is_empty (xs ++ ys) ≡ (is_empty xs && is_empty ys)
is_empty-++ [] ys = refl
is_empty-++ (x ∷ xs) ys = refl

incomplete-unreachable :
    (r : StructureReport) → incomplete r ≡ true → is_empty r.unreachable_pages ≡ false
unfolding incomplete
incomplete-unreachable r h = some_page r.unreachable_pages h
  where
    some_page :
        (pages : List Text)
        → (ltb 0 r.pages_declared && share_at_least (length pages) r.pages_declared 1 5) ≡ true
        → is_empty pages ≡ false
    some_page [] k = absurd (ground (arith, k))
    some_page (p ∷ ps) k = refl

unaddressable-note :
    (r : StructureReport) → unaddressable r ≡ true → is_empty (addressability_note r) ≡ false
unfolding addressability_note
unaddressable-note r h = elim (Bool-cases (undivided r)) [
  | inl u ↦ elim (Bool-cases (is_empty (strip r.largest_section_path))) [
    | inl e ↦ rw (u, e) refl
    | inr e ↦ rw (u, e) refl
  ]
  | inr u ↦ rw (u, h) refl
]

scale_note-headless :
    (r : StructureReport) → mostly_headless r ≡ true → is_empty (scale_notes r) ≡ false
unfolding scale_notes mostly_headless
scale_note-headless r h = ground (arith, h)

scale_note-uncalibrated :
    (r : StructureReport)
    → leb 500 r.uncalibrated_script_share ≡ true
    → is_empty (scale_notes r) ≡ false
unfolding scale_notes
scale_note-uncalibrated r h = ground (arith, h)

module _ (r : StructureReport) where
  -- The lists of a report that a caller is shown.
  abbrev lists_empty : Bool
  lists_empty =
      is_empty r.in_toc_not_in_body
      && is_empty r.in_body_not_in_toc
      && is_empty r.detected_more_than_once
      && is_empty r.scattered

  finding_note-empty :
      (label : Text) (items : List Text) → is_empty (finding_note label items) ≡ is_empty items
  unfolding finding_note
  finding_note-empty label [] = refl
  finding_note-empty label (x ∷ xs) = refl

  summary-empty : is_empty (summary_notes r) ≡ (lists_empty && is_empty (notes r))
  unfolding summary_notes
  summary-empty = simp (is_empty-++, finding_note-empty)

  notes-empty : is_empty (notes r) ≡ (
      is_empty r.unreachable_pages
      && is_empty r.placed_by_path
      && is_empty (addressability_note r)
      && is_empty (scale_notes r))
  unfolding notes
  notes-empty = simp is_empty-++ (ground arith)

  -- Every reason to degrade a document shows in a list of the report or as a note.
  degraded-told : is_degraded r ≡ true → (lists_empty && is_empty (notes r)) ≡ false
  unfolding is_degraded
  degraded-told h =
      ground
        (arith, notes-empty, unaddressable-note r, scale_note-headless r, scale_note-uncalibrated r)

  fatal-told : fatal r ≡ true → (lists_empty && is_empty (notes r)) ≡ false
  unfolding fatal
  fatal-told h =
      ground (arith, notes-empty, is_empty-symmetric_difference r, incomplete-unreachable r)

  -- A document whose structure is not graded as sound is shown to a caller with a reason at least.
  pub quality-told : quality r ≢ Quality.ok → is_empty (summary_notes r) ≡ false
  unfolding quality
  quality-told h = summary-empty ∙ elim (Bool-cases (fatal r)) [
    | inl f ↦ fatal-told f
    | inr f ↦ elim (Bool-cases (is_degraded r)) [
      | inl d ↦ degraded-told d
      | inr d ↦ absurd (h (rw (f, d)))
    ]
  ]
