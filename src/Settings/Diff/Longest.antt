-- ===== src/Settings/Diff/Longest.antt =====
-- The lines that a rewritten file keeps are a longest common subsequence.
use docsearch.Settings.Diff.Numbers.{
  Ascends, kept, unlisted, unlisted-changed_from, changed_from-Ascends, changed_from-length,
}
use docsearch.Settings.Diff.Common.{lcs_row, lcs, Sub, lcs-step, lcs-bounds}
use mathlib.Core.Bool.{true}
use docsearch.Settings.Diff.{
  first, row, first_row, shared, rest_of, mark, common, changed_lines, lines_of,
}
use Prim.Native.Nat.{suc}
use docsearch.Prelude.{
  ℕ, ◌+◌, ◌≤◌, ◌≡◌, refl, ap, inl, inr, Bool, List, [], ◌∷◌, map, arith, Bool-cases, length,
  replicate, Text, text_eq, zero, sym, ◌∙◌, false, text_eq_iff, leb, length-replicate,
}

-- The values of a function at a list and at what is right of each place in it.
abbrev cells : (List Text → ℕ) → List Text → List ℕ
cells f [] = f [] ∷ []
cells f (y ∷ b) = f (y ∷ b) ∷ cells f b

first-cells : (f : List Text → ℕ) (b : List Text) → first (cells f b) ≡ f b
first-cells f [] = refl
first-cells f (y ∷ b) = refl

row-cells :
    (x : Text) (f : List Text → ℕ) (b : List Text) → row x b (cells f b) ≡ cells (lcs_row x f) b
unfolding row lcs_row
row-cells x f [] = refl
row-cells x f (y ∷ b) =
    rw (row-cells x f b) (rw (first-cells f b) (rw (first-cells (lcs_row x f) b) refl))

zeros-cells : (b : List Text) → replicate (suc (length b)) 0 ≡ cells (λ c. 0) b
zeros-cells [] = refl
zeros-cells (y ∷ b) = ap (λ ns. 0 ∷ ns) (zeros-cells b)

replicate-add_one : (n : ℕ) → replicate {A = ℕ} (n + 1) 0 ≡ replicate (suc n) 0
replicate-add_one n = ap (λ m. replicate {A = ℕ} m 0) {y = suc n} (omega arith)

abbrev table : List Text → List Text → List (List ℕ)
table [] b = cells (lcs []) b ∷ []
table (x ∷ a) b = cells (lcs (x ∷ a)) b ∷ table a b

first_row-table : (a b : List Text) → first_row (table a b) ≡ cells (lcs a) b
first_row-table [] b = refl
first_row-table (x ∷ a) b = refl

shared-table : (a b : List Text) → shared a b ≡ table a b
unfolding shared lcs
shared-table [] b = ap (λ r. r ∷ []) (replicate-add_one (length b) ∙ zeros-cells b)
shared-table (x ∷ a) b =
    rw (shared-table a b)
      (rw (first_row-table a b) (ap (λ r. r ∷ table a b) (row-cells x (lcs a) b)))

rest_of-table :
    (a : List Text) (y : Text) (b : List Text) → map rest_of (table a (y ∷ b)) ≡ table a b
rest_of-table [] y b = refl
rest_of-table (x ∷ a) y b = ap (λ r. cells (lcs (x ∷ a)) b ∷ r) (rest_of-table a y b)

-- The marked lines are dropped-to from `a`, and there are as many as a longest common one has.
record IsLongest (a b : List Text) (ms : List Bool) : Type 0 where
  sub : Sub (kept ms b) a
  count : length (kept ms b) ≡ lcs a b
  size : length ms ≡ length b

kept-none : (b : List Text) → kept (replicate (length b) false) b ≡ []
kept-none [] = refl
kept-none (y ∷ b) = kept-none b

lcs-nil : (a : List Text) → lcs a [] ≡ 0
unfolding lcs
lcs-nil [] = refl
lcs-nil (x ∷ a) = refl

-- The three rounds of the loop, by its two tests.
abbrev pick : Bool → Bool → List Bool → List Bool → List Bool → List Bool
pick true less both above left = both
pick false true both above left = above
pick false false both above left = left

mark-step :
    (fuel : ℕ) (x y : Text) (a b : List Text) (rows : List (List ℕ))
    → mark (suc fuel) (x ∷ a) (y ∷ b) rows
      ≡ pick
          (text_eq x y)
          (leb (first (rest_of (first_row rows))) (first (first_row (rest_of rows))))
          (true ∷ mark fuel a b (map rest_of (rest_of rows)))
          (mark fuel a (y ∷ b) (rest_of rows))
          (false ∷ mark fuel (x ∷ a) b (map rest_of rows))
unfolding mark
mark-step fuel x y a b rows = ground arith

mark-table :
    (fuel : ℕ) (x y : Text) (a b : List Text)
    → mark (suc fuel) (x ∷ a) (y ∷ b) (table (x ∷ a) (y ∷ b))
      ≡ pick
          (text_eq x y)
          (leb (lcs (x ∷ a) b) (lcs a (y ∷ b)))
          (true ∷ mark fuel a b (table a b))
          (mark fuel a (y ∷ b) (table a (y ∷ b)))
          (false ∷ mark fuel (x ∷ a) b (table (x ∷ a) b))
mark-table fuel x y a b = rw (mark-step fuel x y a b (table (x ∷ a) (y ∷ b))) (
    rw (first-cells (lcs (x ∷ a)) b)
      (rw (first_row-table a (y ∷ b)) (rw (rest_of-table a y b) refl)))

IsLongest-nil : (a b : List Text) → lcs a b ≡ 0 → IsLongest a b (replicate (length b) false)
IsLongest-nil a b e = record {
  sub = rw (kept-none b) tt;
  count = rw (kept-none b) (sym e);
  size = length-replicate (length b) false;
}

Sub-cons : (x : Text) (s t : List Text) → Sub s t → Sub s (x ∷ t)
Sub-cons x [] t h = tt
Sub-cons x (z ∷ s) t h = inl h

mark-zero :
    (a b : List Text) (rows : List (List ℕ)) → mark zero a b rows ≡ replicate (length b) false
unfolding mark
mark-zero a b rows = refl

mark-nil :
    (fuel : ℕ) (b : List Text) (rows : List (List ℕ))
    → mark fuel [] b rows ≡ replicate (length b) false
unfolding mark
mark-nil zero b rows = refl
mark-nil (suc fuel) b rows = refl

mark-to-nil :
    (fuel : ℕ) (x : Text) (a : List Text) (rows : List (List ℕ))
    → mark (suc fuel) (x ∷ a) [] rows ≡ []
unfolding mark
mark-to-nil fuel x a rows = refl

nil-lcs : (b : List Text) → lcs [] b ≡ 0
unfolding lcs
nil-lcs b = refl

mark-IsLongest :
    (fuel : ℕ) (a b : List Text)
    → length a + length b ≤ fuel
    → IsLongest a b (mark fuel a b (table a b))
mark-IsLongest zero [] [] h = rw (mark-zero [] [] (table [] [])) (IsLongest-nil [] [] (lcs-nil []))
mark-IsLongest zero (x ∷ a) b h = absurd (omega (arith, h))
mark-IsLongest zero [] (y ∷ b) h = absurd (omega (arith, h))
mark-IsLongest (suc fuel) [] b h =
    rw (mark-nil (suc fuel) b (table [] b)) (IsLongest-nil [] b (nil-lcs b))
mark-IsLongest (suc fuel) (x ∷ a) [] h =
    rw (mark-to-nil fuel x a (table (x ∷ a) []))
      (record { sub = tt; count = sym (lcs-nil (x ∷ a)); size = refl })
mark-IsLongest (suc fuel) (x ∷ a) (y ∷ b) h = elim (Bool-cases (text_eq x y)) [
  | inl same ↦
      let ih = mark-IsLongest fuel a b (omega (arith, h)) in
      rw (mark-table fuel x y a b) (
        rw same (record {
          sub = inr (sym ((text_eq_iff x y).0 same), ih.sub);
          count = ground (arith, lcs-step x y a b, ih.count);
          size = omega (arith, ih.size);
        }))
  | inr other ↦ elim (Bool-cases (leb (lcs (x ∷ a) b) (lcs a (y ∷ b)))) [
    | inl above ↦
        let ih = mark-IsLongest fuel a (y ∷ b) (omega (arith, h)) in
        rw (mark-table fuel x y a b) (
          rw (other, above)
            (record {
              sub = Sub-cons x _ a ih.sub;
              count = ground (arith, lcs-step x y a b, ih.count);
              size = ih.size;
            }))
    | inr left ↦
        let ih = mark-IsLongest fuel (x ∷ a) b (omega (arith, h)) in
        rw (mark-table fuel x y a b) (
          rw (other, left)
            (record {
              sub = ih.sub;
              count = ground (arith, lcs-step x y a b, ih.count);
              size = omega (arith, ih.size);
            }))
  ]
]

common-IsLongest : (a b : List Text) → IsLongest a b (common a b)
unfolding common
common-IsLongest a b =
    rw (shared-table a b) (mark-IsLongest (length a + length b) a b (omega arith))

-- The numbers reported of a rewritten file ascend from 1 and are those of its lines. Its lines with
-- other numbers stand in the old file in the same order, and no lines that both files hold in one
-- order are more.
pub changed_lines-fewest :
    (before after : Text) (s : List Text)
    → Sub s (lines_of before)
    → Sub s (lines_of after)
    → Ascends 0 (changed_lines before after)
      × (length (changed_lines before after)
            + length (unlisted 0 (changed_lines before after) (lines_of after))
          ≡ length (lines_of after))
      × Sub (unlisted 0 (changed_lines before after) (lines_of after)) (lines_of before)
      × (length s ≤ length (unlisted 0 (changed_lines before after) (lines_of after)))
unfolding changed_lines
changed_lines-fewest before after s p q =
    let ms : List Bool = common (lines_of before) (lines_of after) in
    let longest = common-IsLongest (lines_of before) (lines_of after) in
    rw (unlisted-changed_from 0 ms (lines_of after) longest.size) (
      changed_from-Ascends 0 ms,
      changed_from-length 0 ms (lines_of after) longest.size,
      longest.sub,
      omega (arith, longest.count, lcs-bounds (lines_of before) (lines_of after) s p q),
    )
