-- ===== src/Strings/Laws.antt =====
-- Splitting and joining.
use mathlib.Core.Bool.{false≢true}
use docsearch.Strings.{starts_with, split_from, join, split, push}
use docsearch.Prelude.{
  ℕ, zero, suc, ◌-◌, ◌≡◌, refl, ap, ◌∙◌, inl, inr, true, List, [], ◌∷◌, ◌++◌, arith, Bool-cases,
  length, drop, Text,
}

pub starts_with_trans :
    (a b c : Text) → starts_with a b ≡ true → starts_with b c ≡ true → starts_with a c ≡ true
unfolding starts_with
starts_with_trans [] b c h k = refl
starts_with_trans (x ∷ xs) [] c h k = absurd (false≢true h)
starts_with_trans (x ∷ xs) (y ∷ ys) [] h k = absurd (false≢true k)
starts_with_trans (x ∷ xs) (y ∷ ys) (z ∷ zs) h k = ground (arith, starts_with_trans xs ys zs)

pub starts_with-append : (a b r : Text) → starts_with a b ≡ true → starts_with a (b ++ r) ≡ true
unfolding starts_with
starts_with-append [] b r h = refl
starts_with-append (x ∷ xs) [] r h = absurd (false≢true h)
starts_with-append (x ∷ xs) (y ∷ ys) r h = ground (arith, starts_with-append xs ys r)

pub starts_with-split : (p s : Text) → starts_with p s ≡ true → p ++ drop (length p) s ≡ s
unfolding starts_with
starts_with-split [] s h = refl
starts_with-split (x ∷ xs) [] h = absurd (false≢true h)
starts_with-split (x ∷ xs) (y ∷ ys) h = ground (arith, starts_with-split xs ys)

-- A split has a first piece.
split_from-cons :
    (sep : Text) (skip : ℕ) (s : Text)
    → (l : Text) × (ls : List Text) × (split_from sep skip s ≡ l ∷ ls)
unfolding split_from push
split_from-cons sep zero [] = ([], [], refl)
split_from-cons sep (suc skip) [] = ([], [], refl)
split_from-cons sep (suc skip) (c ∷ cs) = split_from-cons sep skip cs
split_from-cons sep zero (c ∷ cs) = elim (Bool-cases (starts_with sep (c ∷ cs))) [
  | inl h ↦ ([], split_from sep (length sep - 1) cs, rw h)
  | inr h ↦ let (l, ls, e) = split_from-cons sep 0 cs in (c ∷ l, ls, rw h (rw (e, push)))
]

join-push :
    (sep : Text) (c : ℕ) (lines : List Text) {l : Text} {ls : List Text}
    → lines ≡ l ∷ ls
    → join sep (push c lines) ≡ c ∷ join sep lines
unfolding join push
join-push sep c [] e = cc
join-push sep c (l ∷ []) e = refl
join-push sep c (l ∷ m ∷ ms) e = refl

join-nil_cons :
    (sep : Text) (lines : List Text) {l : Text} {ls : List Text}
    → lines ≡ l ∷ ls
    → join sep ([] ∷ lines) ≡ sep ++ join sep lines
unfolding join
join-nil_cons sep [] e = cc
join-nil_cons sep (l ∷ ls) e = refl

drop-nil {ℓ} : {A : Type ℓ} (n : ℕ) → drop {A = A} n [] ≡ []
drop-nil zero = refl
drop-nil (suc n) = refl

join-split_from :
    (c : ℕ) (sep : Text) (skip : ℕ) (s : Text)
    → join (c ∷ sep) (split_from (c ∷ sep) skip s) ≡ drop skip s
unfolding split_from join
join-split_from c sep zero [] = refl
join-split_from c sep (suc skip) [] = refl
join-split_from c sep (suc skip) (d ∷ ds) = join-split_from c sep skip ds
join-split_from c sep zero (d ∷ ds) = elim (Bool-cases (starts_with (c ∷ sep) (d ∷ ds))) [
  | inl h ↦ rw h (
      join-nil_cons (c ∷ sep) (split_from (c ∷ sep) (length (c ∷ sep) - 1) ds)
        (split_from-cons (c ∷ sep) (length (c ∷ sep) - 1) ds).2
      ∙ ap (λ rest. (c ∷ sep) ++ rest) (join-split_from c sep (length (c ∷ sep) - 1) ds)
      ∙ rw one_less (starts_with-split (c ∷ sep) (d ∷ ds) h))
  | inr h ↦ rw h (
      join-push (c ∷ sep) d (split_from (c ∷ sep) 0 ds) (split_from-cons (c ∷ sep) 0 ds).2
      ∙ ap (◌∷◌ d) (join-split_from c sep 0 ds))
]
  where
    one_less : suc (length sep) - 1 ≡ length sep
    one_less = omega arith

-- Splitting by a separator and joining with it gives the text back.
pub join-split : (c : ℕ) (sep s : Text) → join (c ∷ sep) (split (c ∷ sep) s) ≡ s
unfolding split
join-split c sep s = join-split_from c sep 0 s
