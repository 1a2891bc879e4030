-- ===== src/Pystr/Digits.antt =====
-- internal/pystr/number.go: what `Atoi` reads.
use docsearch.Prelude.{
  ℕ, zero, suc, ◌+◌, ◌*◌, ◌%◌, ◌≤◌, ◌<◌, ◌≡◌, ap, ◌∙◌, inl, inr, Bool, true, false, not, ◌&&◌, some,
  List, [], ◌∷◌, arith, leb, Bool-cases, if-false, if-true, is_empty, Text, ltb,
}
use docsearch.Pystr.Numbers.{Cases, digit_value, atoi_from, atoi, int_size, run_start}

-- How Unicode assigns decimal digits, by which code points are zeros: a digit stands nowhere but
-- among the ten from a zero, the runs of two zeros do not overlap, and one starts at '0'.
pub record DigitRuns ⦃c : Cases⦄ (is_zero : ℕ → Bool) : Type 0 where
  pub ascii : is_zero 48 ≡ true
  pub digit : (z d : ℕ) → is_zero z ≡ true → d < 10 → c.is_digit (z + d) ≡ true
  pub run :
      (r : ℕ)
      → c.is_digit r ≡ true
      → (z : ℕ) × (d : ℕ) × (is_zero z ≡ true) × (d < 10) × (r ≡ z + d)
  pub apart : (y z : ℕ) → is_zero y ≡ true → is_zero z ≡ true → y < z → y + 10 ≤ z

-- Each rune stands as far from the zero of its script as its digit is.
abbrev pub Writes : (ℕ → Bool) → Text → List ℕ → Type 0
Writes is_zero [] [] = Unit
Writes is_zero (r ∷ s) (d ∷ ds) =
    ((z : ℕ) × (is_zero z ≡ true) × (d < 10) × (r ≡ z + d)) × Writes is_zero s ds
Writes is_zero _ _ = ⊥

-- The power of ten before the digits.
abbrev pub place_value : List ℕ → ℕ
place_value [] = 1
place_value (d ∷ ds) = 10 * place_value ds

-- The sum of the digits, each times its power of ten.
abbrev pub number : List ℕ → ℕ
number [] = 0
number (d ∷ ds) = d * place_value ds + number ds

module _ ⦃c : Cases⦄ (is_zero : ℕ → Bool) (runs : DigitRuns ⦃c = c⦄ is_zero) where
  run_start-in : (z d : ℕ) → is_zero z ≡ true → d < 10 → run_start (z + d) ≡ run_start z
  unfolding run_start
  run_start-in z zero h k = ap run_start (omega arith)
  run_start-in z (suc d) h k =
      ap run_start {y = suc (z + d)} (omega arith)
      ∙ if-true _ _ _ (runs.digit z d h (omega (arith, k)))
      ∙ run_start-in z d h (omega (arith, k))

  -- A zero stands a number of whole runs above the start of its run of digits.
  run_start-zero : (fuel z : ℕ) → z < fuel → is_zero z ≡ true → (k : ℕ) × (z ≡ run_start z + k * 10)
  unfolding run_start
  run_start-zero zero z h zeroed = absurd (omega (arith, h))
  run_start-zero (suc fuel) zero h zeroed = (0, omega arith)
  run_start-zero (suc fuel) (suc r) h zeroed = elim (Bool-cases (c.is_digit r)) [
    | inl e ↦
        let (y, d, start, small, same) = runs.run r e in
        let far = runs.apart y (suc r) start zeroed (omega (arith, same)) in
        let (k, above) = run_start-zero fuel y (omega (arith, h, same)) start in
        let stays : run_start (suc r) ≡ run_start y =
          if-true _ _ _ e ∙ ap run_start same ∙ run_start-in y d start small in
        (suc k, omega (arith, far, same, above, small, stays))
    | inr e ↦ let stops : run_start (suc r) ≡ suc r = if-false _ _ _ e in (0, omega (arith, stops))
  ]

  zero_is_ascii : (z d : ℕ) → is_zero z ≡ true → d < 10 → 48 ≤ z + d → z + d ≤ 57 → z ≡ 48
  zero_is_ascii z d h k low high = elim (Bool-cases (ltb z 48)) [
    | inl below ↦
        absurd (omega (arith, runs.apart z 48 h runs.ascii (ground (arith, below)), k, low))
    | inr above ↦ elim (Bool-cases (ltb 48 z)) [
      | inl over ↦ absurd (omega (arith, runs.apart 48 z runs.ascii h (ground (arith, over)), high))
      | inr under ↦ ground (arith, above, under)
    ]
  ]

  digit_value-from : (z d : ℕ) → is_zero z ≡ true → d < 10 → digit_value (z + d) ≡ some d
  unfolding digit_value
  digit_value-from z d h k = elim (Bool-cases (leb 48 (z + d) && leb (z + d) 57)) [
    | inl e ↦
        let same = zero_is_ascii z d h k (ground (arith, e)) (ground (arith, e)) in
        if-true _ _ _ e ∙ ap some (omega (arith, same))
    | inr e ↦
        let (n, above) = run_start-zero (suc z) z (omega arith) h in
        if-false _ _ _ e
        ∙ if-false _ _ _ (ap not (runs.digit z d h k))
        ∙ ap some (omega (arith, above, run_start-in z d h k, k))
  ]

  atoi_from-number :
      (s : Text) (ds : List ℕ) (n : ℕ)
      → Writes is_zero s ds
      → atoi_from s (n % int_size) ≡ some ((n * place_value ds + number ds) % int_size)
  unfolding atoi_from
  atoi_from-number [] [] n h = ap some (omega arith)
  atoi_from-number [] (d ∷ ds) n h = absurd h
  atoi_from-number (r ∷ s) [] n h = absurd h
  atoi_from-number (r ∷ s) (d ∷ ds) n ((z, start, small, same), more) =
      rw (ap digit_value same ∙ digit_value-from z d start small) (
        ap (atoi_from s) (omega arith)
        ∙ atoi_from-number s ds (n * 10 + d) more
        ∙ ap (λ m. some (m % int_size)) (omega arith))

  -- Of decimal digits, each from the ten of any script, `Atoi` reads the sum of the digits times
  -- their powers of ten, modulo 2 to the power of 64; so it reads the number that they write where
  -- it fits. Scripts whose runs of digits abut are among them.
  pub atoi-written :
      (s : Text) (ds : List ℕ)
      → Writes is_zero s ds
      → is_empty s ≡ false
      → atoi s ≡ some (number ds % int_size)
  unfolding atoi
  atoi-written s ds h k =
      rw k (atoi_from-number s ds 0 h ∙ ap (λ m. some (m % int_size)) (omega arith))
