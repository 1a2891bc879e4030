-- ===== src/Settings/Diff/Common.antt =====
-- Common subsequences of two lists of lines.
use docsearch.Prelude.{
  ℕ, ◌+◌, ◌≤◌, max, ◌≡◌, refl, ◌⊎◌, inl, inr, List, [], ◌∷◌, arith, if◌then◌else◌, length, Text,
  text_eq, sym, ◌∙◌, text_eq_iff,
}

-- The first list is what is left of the second when lines are dropped from it.
abbrev pub Sub : List Text → List Text → Type 0
Sub [] t = Unit
Sub (z ∷ s) [] = ⊥
Sub (z ∷ s) (x ∷ t) = Sub (z ∷ s) t ⊎ ((z ≡ x) × Sub s t)

Sub-tail : (z : Text) (s t : List Text) → Sub (z ∷ s) t → Sub s t
Sub-tail z s [] h = absurd h
Sub-tail z [] (x ∷ t) h = tt
Sub-tail z (w ∷ s) (x ∷ t) (inl h) = inl (Sub-tail z (w ∷ s) t h)
Sub-tail z (w ∷ s) (x ∷ t) (inr (e, h)) = inl h

-- The length of a longest common subsequence, by the first lines of both.
unfoldable pub lcs_row : Text → (List Text → ℕ) → List Text → ℕ
unfolding text_eq
lcs_row x below [] = 0
lcs_row x below (y ∷ b) =
    if text_eq x y then below b + 1 else max (below (y ∷ b)) (lcs_row x below b)

unfoldable pub lcs : List Text → List Text → ℕ
unfolding lcs_row
lcs [] b = 0
lcs (x ∷ a) b = lcs_row x (lcs a) b

Sub-under : (z v : Text) (s t : List Text) → Sub (z ∷ s) t ⊎ ((z ≡ v) × Sub s t) → Sub s t
Sub-under z v s t (inl h) = Sub-tail z s t h
Sub-under z v s t (inr (e, h)) = h

pub lcs-step :
    (x y : Text) (a b : List Text)
    → lcs (x ∷ a) (y ∷ b)
      ≡ (if text_eq x y then lcs a b + 1 else max (lcs a (y ∷ b)) (lcs (x ∷ a) b))
unfolding lcs
lcs-step x y a b = refl

pub lcs-bounds : (a b s : List Text) → Sub s a → Sub s b → length s ≤ lcs a b
lcs-bounds a b [] p q = omega arith
lcs-bounds [] b (z ∷ s) p q = absurd p
lcs-bounds (x ∷ a) [] (z ∷ s) p q = absurd q
lcs-bounds (x ∷ a) (y ∷ b) (z ∷ s) p q =
    let under = lcs-bounds a b s (Sub-under z x s a p) (Sub-under z y s b q) in
    let above : Sub (z ∷ s) a → length (z ∷ s) ≤ lcs a (y ∷ b) =
      λ p. lcs-bounds a (y ∷ b) (z ∷ s) p q in
    let left : Sub (z ∷ s) b → length (z ∷ s) ≤ lcs (x ∷ a) b =
      λ q. lcs-bounds (x ∷ a) b (z ∷ s) p q in
    rw (lcs-step x y a b) (by_first p q under above left)
  where
    by_first :
        Sub (z ∷ s) a ⊎ ((z ≡ x) × Sub s a)
        → Sub (z ∷ s) b ⊎ ((z ≡ y) × Sub s b)
        → length s ≤ lcs a b
        → (Sub (z ∷ s) a → length (z ∷ s) ≤ lcs a (y ∷ b))
        → (Sub (z ∷ s) b → length (z ∷ s) ≤ lcs (x ∷ a) b)
        → length (z ∷ s)
          ≤ (if text_eq x y then lcs a b + 1 else max (lcs a (y ∷ b)) (lcs (x ∷ a) b))
    by_first (inl p) q under above left = ground (arith, above p, under)
    by_first (inr (e, p)) (inl q) under above left = ground (arith, left q, under)
    by_first (inr (e, p)) (inr (f, q)) under above left =
        ground (arith, under, (text_eq_iff x y).1 (sym e ∙ f))
