-- ===== src/Maps.antt =====
-- Go maps with text keys: an association list in which no key stands twice, and a set as a list.
use mathlib.Core.Path.{subst}
use docsearch.Prelude.{
  ◌≡◌, refl, Bool, false, ◌||◌, Option, none, some, List, [], ◌∷◌, arith, if◌then◌else◌, Text,
  text_eq, text_eq_iff, ℕ, ◌+◌, ap, true, ◌&&◌, ◌++◌, select, count_if, any, count_if-append,
}

module _ {A : Type 0} where
  -- `m[key] = a`.
  unfoldable pub assign : Text → A → List (Text × A) → List (Text × A)
  unfolding text_eq
  assign key a [] = (key, a) ∷ []
  assign key a ((k, b) ∷ rest) =
      if text_eq k key then (key, a) ∷ rest else (k, b) ∷ assign key a rest

  -- `m[key]` and whether it is there.
  unfoldable pub get : Text → List (Text × A) → Option A
  unfolding text_eq
  get key [] = none
  get key ((k, a) ∷ rest) = if text_eq k key then some a else get key rest

  pub get-assign :
      (key other : Text) (a : A) (m : List (Text × A))
      → get key (assign other a m) ≡ (if text_eq other key then some a else get key m)
  unfolding get assign
  get-assign key other a [] = refl
  get-assign key other a ((k, b) ∷ rest) = ground (
    arith,
    get-assign key other a rest,
    text_eq_iff k other,
    text_eq_iff k key,
    text_eq_iff other key,
  )

unfoldable pub has : Text → List Text → Bool
unfolding text_eq
has key [] = false
has key (k ∷ keys) = text_eq k key || has key keys

-- How often a key stands in a list.
abbrev pub times : Text → List Text → ℕ
times key keys = count_if (λ k. text_eq k key) keys

abbrev pub bit : Bool → ℕ
bit b = if b then 1 else 0

pub has-append : (key : Text) (xs ys : List Text) → has key (xs ++ ys) ≡ (has key xs || has key ys)
unfolding has
has-append key [] ys = refl
has-append key (x ∷ xs) ys = ground (arith, has-append key xs ys)

pub has-any : (key : Text) (keys : List Text) → has key keys ≡ any (λ k. text_eq k key) keys
unfolding has
has-any key [] = refl
has-any key (k ∷ keys) = ground (arith, has-any key keys)

same_test : (u v : Text) (p : Text → Bool) → text_eq v u ≡ true → p v ≡ p u
same_test u v p h = ap p ((text_eq_iff v u).0 h)

pub has-select :
    (u : Text) (urls : List Text) (p : Text → Bool) → has u (select p urls) ≡ (has u urls && p u)
unfolding has
has-select u [] p = refl
has-select u (v ∷ urls) p = ground (arith, has-select u urls p, same_test u v p)

-- A key added to a list where it was not.
pub bit-step : (b c : Bool) (n : ℕ) → n ≡ bit c → (b ≡ true → c ≡ false) → n + bit b ≡ bit (b || c)
bit-step b c n h k = ground arith

pub has-same :
    (u v : Text) (seen : List Text) → has v seen ≡ false → text_eq v u ≡ true → has u seen ≡ false
has-same u v seen k h = subst (λ w. has w seen ≡ false) ((text_eq_iff v u).0 h) k

-- A list in which `u` stands at most once, and a key added to it where it is not there.
pub times-added :
    (u v : Text) (keys : List Text)
    → times u keys ≡ bit (has u keys)
    → has v keys ≡ false
    → times u (keys ++ v ∷ []) ≡ bit (has u (keys ++ v ∷ []))
unfolding has
times-added u v keys h k = ground (
  arith,
  h,
  has-append u keys (v ∷ []),
  count_if-append (λ (k : Text). text_eq k u) keys (v ∷ []),
  has-same u v keys k,
)

pub has-eq : (u v : Text) (keys : List Text) → text_eq v u ≡ true → has v keys ≡ has u keys
has-eq u v keys h = ap (λ w. has w keys) ((text_eq_iff v u).0 h)
