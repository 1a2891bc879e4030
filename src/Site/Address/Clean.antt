-- ===== src/Site/Address/Clean.antt =====
-- internal/site/fetch/normalize.go: what `removeDotSegments` leaves of a path.
use docsearch.Strings.Laws.{join-split}
use mathlib.Core.Path.{subst}
use docsearch.Strings.Pieces.{
  HasNot, split-piece, split-append, split-All, split-join, ends_with-append,
}
use docsearch.Strings.{split, join, ends_with}
use docsearch.Site.Address.{
  dot, apply_segment, apply_segments, remove_dot_segments, dots, ends_with, ends_in_dots,
}
use docsearch.Prelude.{
  ℕ, zero, suc, ◌≡◌, refl, sym, ◌∙◌, inl, inr, Bool, true, false, not, ◌&&◌, ◌||◌, List, [], ◌∷◌,
  ◌++◌, append-nil, append_assoc, arith, ltb, Bool-cases, length, take, All, All-append, All-imp,
  Text, codes, text_eq, ap, if-false, if-true,
}
use mathlib.Core.Bool.{false≢true}

abbrev pub IsPlain : Text → Type 0
IsPlain seg = (text_eq seg dot || text_eq seg dots) ≡ false

-- No segment of the path is "." or "..".
abbrev pub HasNoDots : Text → Type 0
HasNoDots path = All IsPlain (split (codes "/") path)

abbrev Fine : Text → Type 0
Fine seg = IsPlain seg × HasNot b'/' seg

All-take : (P : Text → Type 0) (n : ℕ) (xs : List Text) → All P xs → All P (take n xs)
All-take P zero xs h = tt
All-take P (suc n) [] h = tt
All-take P (suc n) (x ∷ xs) h = (h.0, All-take P n xs h.1)

apply_segment-Fine :
    (out : List Text) (seg : Text)
    → HasNot b'/' seg
    → All Fine out
    → All Fine (apply_segment out seg)
unfolding apply_segment
apply_segment-Fine out seg h k = elim (Bool-cases (text_eq seg dot)) [
  | inl e ↦ rw e k
  | inr e ↦ elim (Bool-cases (text_eq seg dots)) [
    | inl f ↦ elim (Bool-cases (ltb 1 (length out))) [
      | inl g ↦ rw (e, f, g) (All-take Fine _ out k)
      | inr g ↦ rw (e, f, g) k
    ]
    | inr f ↦ rw (e, f) (All-append Fine out (seg ∷ []) k (((rw (e, f) refl, h), tt)))
  ]
]

apply_segments-Fine :
    (segs out : List Text)
    → All (HasNot b'/') segs
    → All Fine out
    → All Fine (apply_segments out segs)
unfolding apply_segments
apply_segments-Fine [] out h k = k
apply_segments-Fine (seg ∷ segs) out h k =
    apply_segments-Fine segs _ h.1 (apply_segment-Fine out seg h.0 k)

-- Segments that are no dots are kept.
apply_segments-plain :
    (segs out : List Text) → All IsPlain segs → apply_segments out segs ≡ out ++ segs
unfolding apply_segments apply_segment
apply_segments-plain [] out h = sym (append-nil out)
apply_segments-plain (seg ∷ segs) out h =
    let (e, f) = both (text_eq seg dot) (text_eq seg dots) h.0 in
    rw (e, f) (apply_segments-plain segs (out ++ seg ∷ []) h.1 ∙ append_assoc out (seg ∷ []) segs)
  where
    both : (x y : Bool) → (x || y) ≡ false → (x ≡ false) × (y ≡ false)
    both x y h = ground (arith, h)

split_joined :
    (segs : List Text) → All Fine segs → All IsPlain (split (codes "/") (join (codes "/") segs))
unfolding join text_eq
split_joined [] h = subst (All IsPlain) (sym (split-piece b'/' [] refl)) ((refl, tt))
split_joined (p ∷ ps) h =
    subst (All IsPlain) (sym (split-join b'/' p ps (All-imp (λ s k. k.1) (p ∷ ps) h)))
      (All-imp (λ s k. k.0) (p ∷ ps) h)

slash_added : (path : Text) → HasNoDots path → HasNoDots (path ++ codes "/")
unfolding text_eq
slash_added path h = subst (All IsPlain) (sym (split-append b'/' path [])) (
    All-append IsPlain (split (codes "/") path) _ h
      (subst (All IsPlain) (sym (split-piece b'/' [] refl)) ((refl, tt))))

-- In what `removeDotSegments` leaves of a path, no segment is "." or "..".
pub remove_dot_segments-HasNoDots : (path : Text) → HasNoDots (remove_dot_segments path)
unfolding remove_dot_segments
remove_dot_segments-HasNoDots path =
    let joined : Text = join (codes "/") (apply_segments [] (split (codes "/") path)) in
    let plain : HasNoDots joined =
      split_joined _ (apply_segments-Fine (split (codes "/") path) [] (split-All b'/' path) tt) in
    elim (Bool-cases (ends_in_dots path && not (ends_with (codes "/") joined))) [
      | inl e ↦ subst HasNoDots (sym (if-true _ _ _ e)) (slash_added joined plain)
      | inr e ↦ subst HasNoDots (sym (if-false _ _ _ e)) plain
    ]

All-later : (P : Text → Type 0) (xs ys : List Text) → All P (xs ++ ys) → All P ys
All-later P [] ys h = h
All-later P (x ∷ xs) ys h = All-later P xs ys h.1

suffix-IsPlain :
    (path suffix : Text)
    → HasNoDots path
    → HasNot b'/' suffix
    → ends_with (b'/' ∷ suffix) path ≡ true
    → IsPlain suffix
suffix-IsPlain path suffix h k e =
    let (t, same) = ends_with-append (b'/' ∷ suffix) path e in
    let pieces : split (codes "/") path ≡ split (codes "/") t ++ suffix ∷ [] =
      ap (split (codes "/")) same
      ∙ split-append b'/' t suffix
      ∙ ap (λ ps. split (codes "/") t ++ ps) (split-piece b'/' suffix k) in
    (All-later IsPlain (split (codes "/") t) (suffix ∷ []) (subst (All IsPlain) pieces h)).0

ends_in_dots-plain : (path : Text) → HasNoDots path → ends_in_dots path ≡ false
unfolding ends_in_dots text_eq
ends_in_dots-plain path h = elim (Bool-cases (ends_with (codes "/.") path)) [
  | inl e ↦ absurd (false≢true (sym (suffix-IsPlain path dot h refl e)))
  | inr e ↦ elim (Bool-cases (ends_with (codes "/..") path)) [
    | inl f ↦ absurd (false≢true (sym (suffix-IsPlain path dots h refl f)))
    | inr f ↦ rw (e, f) refl
  ]
]

-- A path that has no dot segments is left alone.
remove_dot_segments-plain : (path : Text) → HasNoDots path → remove_dot_segments path ≡ path
unfolding remove_dot_segments
remove_dot_segments-plain path h =
    if-false _ _ _ (
      ap
        (λ b.
          b
          && not (
              ends_with (codes "/")
                (join (codes "/") (apply_segments [] (split (codes "/") path)))))
        (ends_in_dots-plain path h))
    ∙ ap (join (codes "/")) (apply_segments-plain (split (codes "/") path) [] h)
    ∙ join-split b'/' [] path

-- Removing the dot segments of a path a second time changes nothing.
pub remove_dot_segments_idem :
    (path : Text) → remove_dot_segments (remove_dot_segments path) ≡ remove_dot_segments path
remove_dot_segments_idem path =
    remove_dot_segments-plain (remove_dot_segments path) (remove_dot_segments-HasNoDots path)
