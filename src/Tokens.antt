-- ===== src/Tokens.antt =====
-- internal/domain/tokens.go: the token estimate. The source computes with float64; on every count
-- below 2^49 its two products, truncated and rounded, are the integer quotients written here:
-- 1.3 * n truncated is n * 13 / 10, and c / 1.3 rounded to the nearest integer is
-- (c * 20 + 13) / 26, where no tie exists.
pub mod Atoms
pub mod Sums
use docsearch.Prelude.{
  List, ℕ, false, Text, Bool, ◌∷◌, [], ◌+◌, ◌*◌, ◌/◌, true, arith, ◌==◌, if◌then◌else◌,
}
use docsearch.Pystr.{Unicode, is_word, is_space, in_table}

abbrev pub cjk_table : List (ℕ × ℕ)
cjk_table =
    (0x3000, 0x303f)
    ∷ (0x3040, 0x30ff)
    ∷ (0x3400, 0x4dbf)
    ∷ (0x4e00, 0x9fff)
    ∷ (0xac00, 0xd7af)
    ∷ (0xf900, 0xfaff)
    ∷ []

abbrev pub uncalibrated_table : List (ℕ × ℕ)
uncalibrated_table =
    (0x370, 0x3ff)
    ∷ (0x400, 0x4ff)
    ∷ (0x530, 0x58f)
    ∷ (0x590, 0x5ff)
    ∷ (0x600, 0x6ff)
    ∷ (0x900, 0x97f)
    ∷ (0xe00, 0xe7f)
    ∷ (0x10a0, 0x10ff)
    ∷ []

unfoldable pub is_cjk : ℕ → Bool
unfolding in_table
is_cjk = in_table cjk_table

unfoldable pub is_uncalibrated : ℕ → Bool
unfolding in_table
is_uncalibrated = in_table uncalibrated_table

-- The variables of the scan.
pub record Counts : Type 0 where
  pub atoms : ℕ
  pub cjk : ℕ
  pub in_word : Bool

abbrev pub start : Counts
start = record { atoms = 0; cjk = 0; in_word = false }

-- `int(math.RoundToEven(float64(cjk) * cjkAtomWeight))`.
unfoldable pub cjk_atoms : ℕ → ℕ
cjk_atoms cjk = (cjk * 20 + 13) / 26

unfoldable pub tokens_from_atoms : ℕ → ℕ
tokens_from_atoms atoms = atoms * 13 / 10

module _ ⦃u : Unicode⦄ where
  -- One round of the loop in `CountAtoms`.
  unfoldable pub scan_rune : Counts → ℕ → Counts
  scan_rune s r =
      if is_cjk r
      then record s { cjk = s.cjk + 1; in_word = false }
      else if is_word r
      then if s.in_word then s else record s { atoms = s.atoms + 1; in_word = true }
      else if is_space r
      then record s { in_word = false }
      else record s { atoms = s.atoms + 1; in_word = false }

  unfoldable pub scan : Counts → Text → Counts
  scan s [] = s
  scan s (r ∷ rs) = scan (scan_rune s r) rs

  unfoldable pub count_atoms : Text → ℕ
  unfolding scan scan_rune is_cjk is_word is_space cjk_atoms
  count_atoms text =
      let s = scan start text in if s.cjk == 0 then s.atoms else s.atoms + cjk_atoms s.cjk

  unfoldable pub estimate_tokens : Text → ℕ
  unfolding count_atoms tokens_from_atoms
  estimate_tokens text = tokens_from_atoms (count_atoms text)
