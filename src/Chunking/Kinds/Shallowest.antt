-- ===== src/Chunking/Kinds/Shallowest.antt =====
-- `referenceFamily`: which heading names the family.
use mathlib.Core.Path.{subst}
use docsearch.Strings.{join}
use docsearch.Chunking.Kinds.{declares_listing, family_from, join, path_sep}
use docsearch.Pystr.{Unicode}
use docsearch.Prelude.{
  ◌+◌, ◌≤◌, ◌≡◌, refl, sym, ap, ◌∙◌, inl, inr, true, false, Option, none, some, List, [], ◌∷◌, ◌++◌,
  append_assoc, arith, Bool-cases, if-false, if-true, length, take, All, Text,
}

module _ ⦃u : Unicode⦄ where
  -- The family is the path to the shallowest of the headings, which stand below those passed, that
  -- declares a listing; the last heading is not asked.
  abbrev pub IsShallowest : List Text → List Text → Option Text → Type 0
  IsShallowest passed headings none =
      (asked : List Text) × All (λ h. declares_listing h ≡ false) asked
      × (length headings ≤ length asked + 1)
      × (asked ≡ take (length asked) headings)
  IsShallowest passed headings (some family) =
      (above : List Text) × (h : Text) × (k : Text) × (below : List Text) × (headings
        ≡ above ++ (h ∷ k ∷ below))
      × All (λ h. declares_listing h ≡ false) above
      × (declares_listing h ≡ true)
      × (family ≡ join path_sep (passed ++ (above ++ h ∷ [])))

  IsShallowest-cons :
      (passed : List Text) (h k : Text) (below : List Text) (o : Option Text)
      → declares_listing h ≡ false
      → IsShallowest (passed ++ h ∷ []) (k ∷ below) o
      → IsShallowest passed (h ∷ k ∷ below) o
  IsShallowest-cons passed h k below none e (asked, silent, enough, same) =
      (h ∷ asked, (e, silent), omega (arith, enough), ap (◌∷◌ h) same)
  IsShallowest-cons passed h k below (some family) e
        (above, g, next, rest, same, silent, found, made) =
      (
        h ∷ above,
        g,
        next,
        rest,
        ap (◌∷◌ h) same,
        (e, silent),
        found,
        made ∙ ap (join path_sep) (append_assoc passed (h ∷ []) (above ++ g ∷ [])),
      )

  pub family_from-IsShallowest :
      (passed headings : List Text) → IsShallowest passed headings (family_from passed headings)
  unfolding family_from
  family_from-IsShallowest passed [] = ([], tt, omega arith, refl)
  family_from-IsShallowest passed (leaf ∷ []) = ([], tt, omega arith, refl)
  family_from-IsShallowest passed (h ∷ k ∷ below) = elim (Bool-cases (declares_listing h)) [
    | inl e ↦
        subst (IsShallowest passed (h ∷ k ∷ below)) (sym (if-true _ _ _ e))
          (([], h, k, below, refl, tt, e, refl))
    | inr e ↦ subst (IsShallowest passed (h ∷ k ∷ below)) (sym (if-false _ _ _ e)) (
        IsShallowest-cons passed h k below (family_from (passed ++ h ∷ []) (k ∷ below)) e
          (family_from-IsShallowest (passed ++ h ∷ []) (k ∷ below)))
  ]
