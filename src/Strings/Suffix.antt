-- ===== src/Strings/Suffix.antt =====
-- Texts put together and taken apart at their ends.
use docsearch.Strings.Pieces.{HasNot}
use docsearch.Strings.{ends_with, trim_suffix, cut}
use docsearch.Prelude.{
  ℕ, ◌-◌, ◌≡◌, refl, true, false, [], ◌∷◌, ◌++◌, arith, length, take, length-append, Text, ap, ◌∙◌,
  inl, inr, ◌==◌, Bool-cases, take-length-append, text_eq_refl,
}

pub ends_with-suffix : (t suffix : Text) → ends_with suffix (t ++ suffix) ≡ true
unfolding ends_with
ends_with-suffix [] [] = refl
ends_with-suffix [] (c ∷ cs) = rw (text_eq_refl (c ∷ cs)) refl
ends_with-suffix (c ∷ t) suffix = ground (arith, ends_with-suffix t suffix)

take-suffix : (t suffix : Text) → take (length (t ++ suffix) - length suffix) (t ++ suffix) ≡ t
take-suffix t suffix =
    ap (λ n. take n (t ++ suffix)) (omega (arith, length-append t suffix))
    ∙ take-length-append t suffix

pub trim_suffix-suffix : (suffix t : Text) → trim_suffix suffix (t ++ suffix) ≡ t
unfolding trim_suffix
trim_suffix-suffix suffix t = rw (ends_with-suffix t suffix) (take-suffix t suffix)

pub cut-none : (sep : ℕ) (s : Text) → HasNot sep s → cut sep s ≡ (s, [], false)
unfolding cut
cut-none sep [] h = refl
cut-none sep (c ∷ s) h = elim (Bool-cases (c == sep)) [
  | inl e ↦ absurd (ground (arith, h, e))
  | inr e ↦ rw (e, cut-none sep s (ground (arith, h))) refl
]

pub cut-here : (sep : ℕ) (s t : Text) → HasNot sep s → cut sep (s ++ sep ∷ t) ≡ (s, t, true)
unfolding cut
cut-here sep [] t h = ground arith
cut-here sep (c ∷ s) t h = elim (Bool-cases (c == sep)) [
  | inl e ↦ absurd (ground (arith, h, e))
  | inr e ↦ rw (e, cut-here sep s t (ground (arith, h))) refl
]
