-- ===== src/Heading/Depth.antt =====
-- What a push leaves of the ancestry.
use Prim.Native.Nat.{◌≤◌}
use docsearch.Heading.{push_heading, pos, ℤ, push_all, negsuc}
use docsearch.Prelude.{
  ℕ, zero, suc, ◌-◌, ◌<◌, ◌≡◌, refl, inl, inr, List, [], ◌∷◌, ◌++◌, arith, ltb, tests, Bool-cases,
  length, get_or, take, replicate, length-append, length-take, length-replicate, Text, ◌+◌, ap, ◌∙◌,
  true, append-nil, All, take-length-append,
}

-- The text at a place of a path; a level that was skipped, or not reached, reads as empty.
abbrev pub entry : List Text → ℕ → Text
entry path i = get_or path i []

get_or-append_left :
    (xs ys : List Text) (i : ℕ) → i < length xs → get_or (xs ++ ys) i [] ≡ get_or xs i []
get_or-append_left [] ys i h = absurd (omega arith)
get_or-append_left (x ∷ xs) ys zero h = refl
get_or-append_left (x ∷ xs) ys (suc i) h = get_or-append_left xs ys i (omega arith)

get_or-concat : (xs : List Text) (a : Text) → get_or (xs ++ a ∷ []) (length xs) [] ≡ a
get_or-concat [] a = refl
get_or-concat (x ∷ xs) a = get_or-concat xs a

get_or-padding :
    (k : ℕ) (xs : List Text) (i : ℕ) → get_or (xs ++ replicate k []) i [] ≡ get_or xs i []
get_or-padding zero [] i = refl
get_or-padding (suc k) [] zero = refl
get_or-padding (suc k) [] (suc i) = get_or-padding k [] i
get_or-padding k (x ∷ xs) zero = refl
get_or-padding k (x ∷ xs) (suc i) = get_or-padding k xs i

get_or-take : (n : ℕ) (xs : List Text) (i : ℕ) → i < n → get_or (take n xs) i [] ≡ get_or xs i []
get_or-take zero xs i h = absurd (omega arith)
get_or-take (suc n) [] i h = refl
get_or-take (suc n) (x ∷ xs) zero h = refl
get_or-take (suc n) (x ∷ xs) (suc i) h = get_or-take n xs i (omega arith)

-- A path of `n` entries that agrees with `path`.
record Base (n : ℕ) (path base : List Text) : Type 0 where
  exact : length base ≡ n
  agrees : (i : ℕ) → i < n → entry base i ≡ entry path i

Base-padded :
    (n : ℕ) (path kept : List Text)
    → length kept ≤ n
    → ((i : ℕ) → i < n → entry kept i ≡ entry path i)
    → Base n path (kept ++ replicate (n - length kept) [])
Base-padded n path kept h e = record {
  exact = omega (
    arith,
    length-append {0} kept (replicate (n - length kept) []),
    length-replicate {0} {A = Text} (n - length kept) [],
  );
  agrees = λ i k. get_or-padding (n - length kept) kept i ∙ e i k;
}

push_heading-Base :
    (n : ℕ) (heading : Text) (path : List Text)
    → (base : List Text) × (push_heading (pos (suc n)) heading path ≡ base ++ heading ∷ [])
      × Base n path base
unfolding push_heading
push_heading-Base n heading path = elim (Bool-cases (ltb n (length path))) [
  | inl h ↦ (
    take n path ++ replicate (n - length (take n path)) [],
    rw h,
    Base-padded n path (take n path) (omega (arith, length-take {0} n path)) (get_or-take n path),
  )
  | inr h ↦ (
    path ++ replicate (n - length path) [],
    rw h,
    Base-padded n path path (omega (tests, h)) (λ i k. refl),
  )
]

-- Pushing a heading at level `n + 1` makes a path of `n + 1` entries that ends with the heading;
-- every entry above it is the one that stood there, or empty where the level was skipped.
pub push_heading-Ancestry :
    (n : ℕ) (heading : Text) (path : List Text)
    → (length (push_heading (pos (suc n)) heading path) ≡ suc n)
      × (entry (push_heading (pos (suc n)) heading path) n ≡ heading)
      × ((i : ℕ) → i < n → entry (push_heading (pos (suc n)) heading path) i ≡ entry path i)
push_heading-Ancestry n heading path =
    let (base, e, b) = push_heading-Base n heading path in
    rw e (
      (
        omega (arith, length-append {0} base (heading ∷ []), b.exact),
        rw b.exact at (get_or-concat base heading),
        λ i h. get_or-append_left base (heading ∷ []) i (omega (arith, b.exact)) ∙ b.agrees i h,
      ))

module _ (cap : ℕ) where
  -- A level of a heading that is at least 1 and at most `cap`.
  abbrev pub WithinCap : ℤ × Text → Type 0
  WithinCap (pos zero, heading) = ⊥
  WithinCap (pos (suc n), heading) = suc n ≤ cap
  WithinCap (negsuc n, heading) = ⊥

  -- A document whose headings have levels from 1 to `cap` never makes a path of more entries.
  pub push_all-le-cap :
      (headings : List (ℤ × Text)) (path : List Text)
      → All WithinCap headings
      → length path ≤ cap
      → length (push_all headings path) ≤ cap
  unfolding push_all
  push_all-le-cap [] path h k = k
  push_all-le-cap ((pos zero, heading) ∷ rest) path h k = absurd h.0
  push_all-le-cap ((negsuc n, heading) ∷ rest) path h k = absurd h.0
  push_all-le-cap ((pos (suc n), heading) ∷ rest) path h k =
      push_all-le-cap rest (push_heading (pos (suc n)) heading path) h.1
        (omega (arith, h.0, (push_heading-Ancestry n heading path).0))

-- A level below 1 counts from the end: "Heading 0" replaces the innermost heading.
pub push_heading-zero :
    (heading : Text) (path : List Text) (innermost : Text)
    → push_heading (pos zero) heading (path ++ innermost ∷ []) ≡ path ++ heading ∷ []
unfolding push_heading
push_heading-zero heading path innermost = rw fits (
    rw short (
      rw (take-length-append path (innermost ∷ []))
        (rw none_more (ap (λ p. p ++ heading ∷ []) (append-nil path)))))
  where
    size : length (path ++ innermost ∷ []) ≡ length path + 1
    size = length-append path (innermost ∷ [])

    short : length (path ++ innermost ∷ []) - 1 ≡ length path
    short = omega (arith, size)

    none_more : 0 - length path ≡ 0
    none_more = omega arith

    fits : ltb (length (path ++ innermost ∷ []) - 1) (length (path ++ innermost ∷ [])) ≡ true
    fits = ground (arith, size)
