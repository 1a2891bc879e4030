-- ===== src/Prelude/Equality.antt =====
-- Equality tests on lists, options and texts, with what they decide; a text is its list of runes.
use Prim.Native.Nat.{ℕ}
use Prim.Native.Char.{code}
use Prim.Native.String.{String}
use mathlib.Core.Path.{◌≡◌, refl}
use mathlib.Core.Logic.{◌↔◌}
use mathlib.Core.Bool.{Bool, true, false, ◌&&◌}
use mathlib.Core.List.{List, [], ◌∷◌}
use mathlib.Core.Option.{Option, none, some}
use native.Mathlib.Omega.{arith}
use docsearch.Prelude.Tests.{◌==◌, ==_iff}

-- A Go string that holds valid UTF-8, as the runes that `range` yields.
abbrev pub Text : Type 0
Text = List ℕ

abbrev pub codes : String → Text
codes String.[] = []
codes (String.◌∷◌ c s) = code c ∷ codes s

module _ {ℓ} {A : Type ℓ} (eq : A → A → Bool) where
  -- `slices.Equal`.
  unfoldable pub list_eq : List A → List A → Bool
  list_eq [] [] = true
  list_eq (x ∷ xs) (y ∷ ys) = eq x y && list_eq xs ys
  list_eq _ _ = false

  -- Two pointers are both nil, or their targets agree.
  unfoldable pub option_eq : Option A → Option A → Bool
  option_eq none none = true
  option_eq (some x) (some y) = eq x y
  option_eq _ _ = false

module _ {ℓ} {A : Type ℓ} (eq : A → A → Bool) (eq_iff : (x y : A) → (eq x y ≡ true) ↔ (x ≡ y)) where
  pub list_eq_iff : (xs ys : List A) → (list_eq eq xs ys ≡ true) ↔ (xs ≡ ys)
  unfolding list_eq
  list_eq_iff [] [] = ground arith
  list_eq_iff [] (y ∷ ys) = ground arith
  list_eq_iff (x ∷ xs) [] = ground arith
  list_eq_iff (x ∷ xs) (y ∷ ys) = ground (arith, eq_iff x y, list_eq_iff xs ys)

  pub option_eq_iff : (x y : Option A) → (option_eq eq x y ≡ true) ↔ (x ≡ y)
  unfolding option_eq
  option_eq_iff none none = ground arith
  option_eq_iff none (some y) = ground arith
  option_eq_iff (some x) none = ground arith
  option_eq_iff (some x) (some y) = ground (arith, eq_iff x y)

unfoldable pub text_eq : Text → Text → Bool
unfolding list_eq
text_eq = list_eq ◌==◌

pub text_eq_iff : (s t : Text) → (text_eq s t ≡ true) ↔ (s ≡ t)
unfolding text_eq
text_eq_iff = list_eq_iff ◌==◌ ==_iff

pub text_eq_refl : (s : Text) → text_eq s s ≡ true
text_eq_refl s = (text_eq_iff s s).1 refl

unfoldable pub path_eq : List Text → List Text → Bool
unfolding list_eq text_eq
path_eq = list_eq text_eq

pub path_eq_iff : (p q : List Text) → (path_eq p q ≡ true) ↔ (p ≡ q)
unfolding path_eq
path_eq_iff = list_eq_iff text_eq text_eq_iff
