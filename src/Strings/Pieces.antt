-- ===== src/Strings/Pieces.antt =====
-- Splitting by a separator of one rune, and suffixes.
use docsearch.Strings.{split, push, join, ends_with, split_from, starts_with}
use docsearch.Prelude.{
  ℕ, ◌≡◌, refl, sym, ap, ◌∙◌, inl, inr, true, false, List, [], ◌∷◌, ◌++◌, arith, ◌==◌, Bool-cases,
  is_empty, any, All, Text, text_eq, text_eq_iff,
}

abbrev pub HasNot : ℕ → Text → Type 0
HasNot c s = any (λ d. c == d) s ≡ false

module _ (c : ℕ) where
  split-nil : split (c ∷ []) [] ≡ [] ∷ []
  unfolding split split_from
  split-nil = refl

  split-here : (d : ℕ) (s : Text) → (c == d) ≡ true → split (c ∷ []) (d ∷ s) ≡ [] ∷ split (c ∷ []) s
  unfolding split split_from starts_with
  split-here d s h = rw h refl

  split-later :
      (d : ℕ) (s : Text) → (c == d) ≡ false → split (c ∷ []) (d ∷ s) ≡ push d (split (c ∷ []) s)
  unfolding split split_from starts_with
  split-later d s h = rw h refl

  push-append :
      (d : ℕ) (xs ys : List Text) → is_empty xs ≡ false → push d (xs ++ ys) ≡ push d xs ++ ys
  unfolding push
  push-append d [] ys h = cc h
  push-append d (x ∷ xs) ys h = refl

  push-ne_nil : (d : ℕ) (xs : List Text) → is_empty (push d xs) ≡ false
  unfolding push
  push-ne_nil d [] = refl
  push-ne_nil d (x ∷ xs) = refl

  split-ne_nil : (s : Text) → is_empty (split (c ∷ []) s) ≡ false
  split-ne_nil [] = rw split-nil refl
  split-ne_nil (d ∷ s) = elim (Bool-cases (c == d)) [
    | inl h ↦ rw (split-here d s h) refl
    | inr h ↦ rw (split-later d s h) (push-ne_nil d _)
  ]

  -- A text is split at a separator in it.
  pub split-append :
      (s t : Text) → split (c ∷ []) (s ++ c ∷ t) ≡ split (c ∷ []) s ++ split (c ∷ []) t
  split-append [] t = split-here c t (ground arith) ∙ rw split-nil refl
  split-append (d ∷ s) t = elim (Bool-cases (c == d)) [
    | inl h ↦ split-here d _ h ∙ ap (λ xs. [] ∷ xs) (split-append s t) ∙ rw (split-here d s h) refl
    | inr h ↦
        split-later d _ h
        ∙ ap (push d) (split-append s t)
        ∙ push-append d _ _ (split-ne_nil s)
        ∙ rw (split-later d s h) refl
  ]

  not_one : (d : ℕ) → (c == d) ≡ false → HasNot c (d ∷ [])
  not_one d h = ground (arith, h)

  not_more : (d : ℕ) (x : Text) → (c == d) ≡ false → HasNot c x → HasNot c (d ∷ x)
  not_more d x h k = ground (arith, h, k)

  push-All :
      (d : ℕ) (xs : List Text) → (c == d) ≡ false → All (HasNot c) xs → All (HasNot c) (push d xs)
  unfolding push
  push-All d [] h a = (not_one d h, tt)
  push-All d (x ∷ xs) h a = (not_more d x h a.0, a.1)

  push_one : (d : ℕ) (s : Text) → push d (s ∷ []) ≡ (d ∷ s) ∷ []
  unfolding push
  push_one d s = refl

  -- No piece holds the separator.
  pub split-All : (s : Text) → All (HasNot c) (split (c ∷ []) s)
  split-All [] = rw split-nil ((refl, tt))
  split-All (d ∷ s) = elim (Bool-cases (c == d)) [
    | inl h ↦ rw (split-here d s h) ((refl, split-All s))
    | inr h ↦ rw (split-later d s h) (push-All d _ h (split-All s))
  ]

  pub split-piece : (s : Text) → HasNot c s → split (c ∷ []) s ≡ s ∷ []
  split-piece [] h = split-nil
  split-piece (d ∷ s) h = elim (Bool-cases (c == d)) [
    | inl e ↦ absurd (ground (arith, h, e))
    | inr e ↦ split-later d s e ∙ ap (push d) (split-piece s (ground (arith, h, e))) ∙ push_one d s
  ]

  -- Pieces that hold no separator come back.
  pub split-join :
      (p : Text) (ps : List Text)
      → All (HasNot c) (p ∷ ps)
      → split (c ∷ []) (join (c ∷ []) (p ∷ ps)) ≡ p ∷ ps
  unfolding join
  split-join p [] h = split-piece p h.0
  split-join p (q ∷ ps) h =
      split-append p (join (c ∷ []) (q ∷ ps)) ∙ rw (split-piece p h.0, split-join q ps h.1) refl

pub ends_with-append :
    (suffix s : Text) → ends_with suffix s ≡ true → (t : Text) × (s ≡ t ++ suffix)
unfolding ends_with
ends_with-append [] [] h = ([], refl)
ends_with-append (x ∷ xs) [] h = cc h
ends_with-append suffix (c ∷ s) h = elim (Bool-cases (text_eq suffix (c ∷ s))) [
  | inl e ↦ ([], sym ((text_eq_iff suffix (c ∷ s)).0 e))
  | inr e ↦
      let (t, k) = ends_with-append suffix s (ground (arith, h, e)) in (c ∷ t, ap (λ r. c ∷ r) k)
]
