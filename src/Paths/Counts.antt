-- ===== src/Paths/Counts.antt =====
-- The largest section, as `largestSection` and `sectionsOf` find it.
use mathlib.Core.Bool.{false≢true}
use docsearch.Paths.{count_of, per_path, largest_from, bump, better, path_counts}
use docsearch.Prelude.{
  ℕ, ◌+◌, ◌≤◌, ◌≡◌, refl, ◌⊎◌, inl, inr, true, false, List, [], ◌∷◌, arith, ltb, if◌then◌else◌,
  ltb→lt, ltb→le, Bool-cases, count_if, any, Text, text_eq, text_eq_iff, ◌<◌, sym, ◌∙◌,
}

abbrev pub occurrences : Text → List Text → ℕ
occurrences key = count_if (λ p. text_eq p key)

count_of-bump :
    (key p : Text) (m : List (Text × ℕ))
    → count_of key (bump p m) ≡ (if text_eq p key then count_of key m + 1 else count_of key m)
unfolding count_of bump
count_of-bump key p [] = ground arith
count_of-bump key p ((k, n) ∷ m) =
    ground (arith, count_of-bump key p m, text_eq_iff k p, text_eq_iff k key, text_eq_iff p key)

count_of-per_path :
    (key : Text) (m : List (Text × ℕ)) (paths : List Text)
    → count_of key (per_path m paths) ≡ count_of key m + occurrences key paths
unfolding per_path
count_of-per_path key m [] = omega arith
count_of-per_path key m (p ∷ ps) =
    ground (arith, count_of-per_path key (bump p m) ps, count_of-bump key p m)

-- What the second loop knows of its best path so far.
abbrev Counted : List (Text × ℕ) → Text × ℕ → Type 0
Counted counts best = (best.1 ≡ 0) ⊎ (count_of best.0 counts ≡ best.1)

better_sound :
    (counts : List (Text × ℕ)) (best : Text × ℕ) (p : Text)
    → Counted counts best
    → Counted counts (better counts best p)
unfolding better
better_sound counts best p h = elim (Bool-cases (ltb best.1 (count_of p counts))) [
  | inl e ↦ rw e (inr refl)
  | inr e ↦ rw e h
]

better-up :
    (counts : List (Text × ℕ)) (best : Text × ℕ) (p : Text)
    → (best.1 ≤ (better counts best p).1) × (count_of p counts ≤ (better counts best p).1)
unfolding better
better-up counts best p = elim (Bool-cases (ltb best.1 (count_of p counts))) [
  | inl e ↦ rw e ((omega (arith, ltb→lt _ _ e), omega arith))
  | inr e ↦ rw e ((omega arith, ltb→le _ _ e))
]

largest_from_sound :
    (counts : List (Text × ℕ)) (best : Text × ℕ) (ps : List Text)
    → Counted counts best
    → Counted counts (largest_from counts best ps)
unfolding largest_from
largest_from_sound counts best [] h = h
largest_from_sound counts best (p ∷ ps) h =
    largest_from_sound counts (better counts best p) ps (better_sound counts best p h)

largest_from-up :
    (counts : List (Text × ℕ)) (best : Text × ℕ) (ps : List Text)
    → best.1 ≤ (largest_from counts best ps).1
unfolding largest_from
largest_from-up counts best [] = omega arith
largest_from-up counts best (p ∷ ps) =
    omega (arith, largest_from-up counts (better counts best p) ps, (better-up counts best p).0)

largest_from-bound :
    (counts : List (Text × ℕ)) (best : Text × ℕ) (ps : List Text) (key : Text)
    → any (λ p. text_eq p key) ps ≡ true
    → count_of key counts ≤ (largest_from counts best ps).1
unfolding largest_from
largest_from-bound counts best [] key h = absurd (false≢true h)
largest_from-bound counts best (p ∷ ps) key h = elim (Bool-cases (text_eq p key)) [
  | inl e ↦
      rw (← (text_eq_iff p key).0 e) (
        omega
          (arith, (better-up counts best p).1, largest_from-up counts (better counts best p) ps))
  | inr e ↦ largest_from-bound counts (better counts best p) ps key (ground (arith, h, e))
]

absent :
    (key : Text) (ps : List Text) → any (λ p. text_eq p key) ps ≡ false → occurrences key ps ≡ 0
absent key [] h = refl
absent key (p ∷ ps) h = ground (arith, absent key ps)

count_of-all :
    (key : Text) (paths : List Text) → count_of key (per_path [] paths) ≡ occurrences key paths
unfolding count_of
count_of-all key paths = omega (arith, count_of-per_path key [] paths)

largest-bound :
    (key : Text) (paths : List Text)
    → occurrences key paths ≤ (largest_from (per_path [] paths) ([], 0) paths).1
largest-bound key paths = elim (Bool-cases (any (λ p. text_eq p key) paths)) [
  | inl e ↦
      omega
        (arith, largest_from-bound (per_path [] paths) ([], 0) paths key e, count_of-all key paths)
  | inr e ↦ omega (arith, absent key paths e)
]

occurs : (p : Text) (ps : List Text) → 0 < occurrences p (p ∷ ps)
occurs p ps = ground (arith, text_eq_iff p p)

largest-exact :
    (paths : List Text)
    → let best = largest_from (per_path [] paths) ([], 0) paths in
      (best.1 ≡ occurrences best.0 paths) ⊎ (paths ≡ [])
largest-exact [] = inr refl
largest-exact (p ∷ ps) =
    elim (largest_from_sound (per_path [] (p ∷ ps)) ([], 0) (p ∷ ps) (inl refl)) [
      | inl none_yet ↦ absurd (omega (arith, none_yet, largest-bound p (p ∷ ps), occurs p ps))
      | inr exact ↦ inl (sym exact ∙ count_of-all _ (p ∷ ps))
    ]

-- The largest section of a document: no heading path holds more chunks, and where the document has
-- a chunk the reported path holds exactly the reported number.
pub path_counts-largest :
    (paths : List Text)
    → ((key : Text) → occurrences key paths ≤ (path_counts paths).largest)
      × (((path_counts paths).largest ≡ occurrences (path_counts paths).largest_path paths)
          ⊎ (paths ≡ []))
unfolding path_counts
path_counts-largest paths = (λ key. largest-bound key paths, largest-exact paths)
