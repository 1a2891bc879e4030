-- ===== src/Structure/Policy.antt =====
-- When a report refuses a document.
use docsearch.Measure.{text_leb}
use mathlib.Core.Bool.{false≢true, false}
use docsearch.Structure.{
  key_set, add_key, symmetric_difference, StructureReport, fatal, text_leb, incomplete, validatable,
}
use docsearch.Prelude.{
  ◌≡◌, refl, sym, ◌∙◌, inl, inr, Bool, true, List, [], ◌∷◌, arith, Bool-cases, any, Text, text_eq,
  text_eq_iff, ◌*◌, ◌≤◌, not, ◌&&◌, ◌||◌, ◌++◌, ltb, leb, length, is_empty, count_if, any-sort,
  count_if-sort,
}

key_set-any : (p : Text → Bool) (ss : List Text) → any p (key_set ss) ≡ any p ss
unfolding key_set add_key
key_set-any p [] = refl
key_set-any p (s ∷ ss) = elim (Bool-cases (any (λ k. text_eq k s) (key_set ss))) [
  | inl h ↦ rw h (key_set-any p ss ∙ known p s ss h (key_set-any p ss))
  | inr h ↦ rw h (ground (arith, key_set-any p ss))
]
  where
    found :
        (p : Text → Bool) (s : Text) (keys : List Text)
        → any (λ k. text_eq k s) keys ≡ true
        → p s ≡ true
        → any p keys ≡ true
    found p s [] h k = absurd (false≢true h)
    found p s (j ∷ keys) h k = elim (Bool-cases (text_eq j s)) [
      | inl e ↦ ground (arith, rw (sym ((text_eq_iff j s).0 e)) at k)
      | inr e ↦ ground (arith, found p s keys (ground (arith, h, e)) k)
    ]

    known :
        (p : Text → Bool) (s : Text) (ss : List Text)
        → any (λ k. text_eq k s) (key_set ss) ≡ true
        → any p (key_set ss) ≡ any p ss
        → any p ss ≡ any p (s ∷ ss)
    known p s ss h e = elim (Bool-cases (p s)) [
      | inl k ↦ ground (arith, e, found p s (key_set ss) h k)
      | inr k ↦ ground (arith, k)
    ]

-- The sections on which table of contents and body disagree are those of either list.
symmetric_difference-any :
    (r : StructureReport) (p : Text → Bool)
    → any p (symmetric_difference r) ≡ (any p r.in_toc_not_in_body || any p r.in_body_not_in_toc)
unfolding symmetric_difference
symmetric_difference-any r p =
    any-sort text_leb p (key_set (r.in_toc_not_in_body ++ r.in_body_not_in_toc))
    ∙ key_set-any p (r.in_toc_not_in_body ++ r.in_body_not_in_toc)
    ∙ any-append p r.in_toc_not_in_body r.in_body_not_in_toc
  where
    any-append : (p : Text → Bool) (xs ys : List Text) → any p (xs ++ ys) ≡ (any p xs || any p ys)
    any-append p [] ys = refl
    any-append p (x ∷ xs) ys = ground (arith, any-append p xs ys)

is_empty-any {ℓ} : {A : Type ℓ} (xs : List A) → is_empty xs ≡ not (any (λ x. true) xs)
is_empty-any [] = refl
is_empty-any (x ∷ xs) = refl

pub is_empty-symmetric_difference :
    (r : StructureReport)
    → is_empty (symmetric_difference r)
      ≡ (is_empty r.in_toc_not_in_body && is_empty r.in_body_not_in_toc)
is_empty-symmetric_difference r = ground (
  arith,
  is_empty-any (symmetric_difference r),
  is_empty-any r.in_toc_not_in_body,
  is_empty-any r.in_body_not_in_toc,
  symmetric_difference-any r (λ x. true),
)

-- Each section is listed once.
key_set_once : (s : Text) (ss : List Text) → count_if (λ k. text_eq k s) (key_set ss) ≤ 1
unfolding key_set add_key
key_set_once s [] = omega arith
key_set_once s (t ∷ ts) = elim (Bool-cases (any (λ k. text_eq k t) (key_set ts))) [
  | inl h ↦ rw h (key_set_once s ts)
  | inr h ↦ rw h (fresh h (key_set_once s ts))
]
  where
    none-count : (p : Text → Bool) (keys : List Text) → any p keys ≡ false → count_if p keys ≡ 0
    none-count p [] e = refl
    none-count p (k ∷ keys) e = ground (arith, none-count p keys)

    fresh :
        any (λ k. text_eq k t) (key_set ts) ≡ false
        → count_if (λ k. text_eq k s) (key_set ts) ≤ 1
        → count_if (λ k. text_eq k s) (t ∷ key_set ts) ≤ 1
    fresh h ih = elim (Bool-cases (text_eq t s)) [
      | inl e ↦
          let same : t ≡ s = (text_eq_iff t s).0 e in
          ground (arith, e, none-count (λ k. text_eq k s) (key_set ts) (rw same at h))
      | inr e ↦ ground (arith, e, ih)
    ]

-- Whatever the lists hold, the difference of table of contents and body names a section exactly
-- when one of them does, and names it once.
pub symmetric_difference-IsSet :
    (r : StructureReport) (s : Text)
    → (any (λ k. text_eq k s) (symmetric_difference r) ≡ (
        any (λ k. text_eq k s) r.in_toc_not_in_body || any (λ k. text_eq k s) r.in_body_not_in_toc))
      × (count_if (λ k. text_eq k s) (symmetric_difference r) ≤ 1)
symmetric_difference-IsSet r s = (symmetric_difference-any r (λ k. text_eq k s), once)
  where
    once : count_if (λ k. text_eq k s) (symmetric_difference r) ≤ 1
    once =
        unfold symmetric_difference in
        omega (
          arith,
          count_if-sort text_leb (λ k. text_eq k s)
              (key_set (r.in_toc_not_in_body ++ r.in_body_not_in_toc)),
          key_set_once s (r.in_toc_not_in_body ++ r.in_body_not_in_toc),
        )

-- A report refuses its document exactly when a source that is checked against the body disagrees
-- with it on some section, or when pages are known and a fifth of them or more is missing.
pub fatal_iff :
    (r : StructureReport)
    → fatal r ≡ (
        validatable r && not (is_empty r.in_toc_not_in_body && is_empty r.in_body_not_in_toc)
        || (ltb 0 r.pages_declared && leb r.pages_declared (length r.unreachable_pages * 5)))
unfolding fatal incomplete
fatal_iff r = ground (arith, is_empty-symmetric_difference r)
