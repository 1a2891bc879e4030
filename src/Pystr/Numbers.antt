-- ===== src/Pystr/Numbers.antt =====
-- internal/pystr/number.go: whole numbers in any script and lower case.
use docsearch.Prelude.{
  ℕ, zero, suc, ◌+◌, ◌-◌, ◌*◌, ◌%◌, Bool, false, not, ◌&&◌, ◌||◌, Option, none, some, List, [], ◌∷◌,
  ◌>>=◌, leb, ◌==◌, if◌then◌else◌, is_some, is_empty, Text,
}
use docsearch.Pystr.{in_table}

-- Tables of Go's `unicode` package and its simple lower case.
pub record Cases : Type 0 where
  pub is_digit : ℕ → Bool
  pub is_upper : ℕ → Bool
  pub is_lower : ℕ → Bool
  pub is_title : ℕ → Bool
  pub in_other_lowercase : ℕ → Bool
  pub in_other_uppercase : ℕ → Bool
  -- Mn, Me, Cf, Lm and Sk
  pub in_mark_or_modifier : ℕ → Bool
  pub rune_to_lower : ℕ → ℕ

-- A Go int holds 64 bits; the value is the bits read without a sign.
abbrev pub int_size : ℕ
int_size = 18446744073709551616

abbrev pub word_medial : List (ℕ × ℕ)
word_medial =
    (0x27, 0x27)
    ∷ (0x2e, 0x2e)
    ∷ (0x3a, 0x3a)
    ∷ (0xb7, 0xb7)
    ∷ (0x387, 0x387)
    ∷ (0x55f, 0x55f)
    ∷ (0x5f4, 0x5f4)
    ∷ (0x2018, 0x2019)
    ∷ (0x2024, 0x2024)
    ∷ (0x2027, 0x2027)
    ∷ (0xfe13, 0xfe13)
    ∷ (0xfe52, 0xfe52)
    ∷ (0xfe55, 0xfe55)
    ∷ (0xff07, 0xff07)
    ∷ (0xff0e, 0xff0e)
    ∷ (0xff1a, 0xff1a)
    ∷ []

module _ ⦃c : Cases⦄ where
  -- The loop of `digitValue`: down to the start of the run of digits.
  unfoldable pub run_start : ℕ → ℕ
  run_start zero = zero
  run_start (suc r) = let lower = run_start r in if c.is_digit r then lower else suc r

  unfoldable pub digit_value : ℕ → Option ℕ
  unfolding run_start
  digit_value r =
      if leb 48 r && leb r 57
      then some (r - 48)
      else if not (c.is_digit r)
      then none
      else some ((r - run_start r) % 10)

  abbrev pub next_value : ℕ → ℕ → ℕ
  next_value n d = (n * 10 + d) % int_size

  -- The loop of `Atoi`; `none` is ErrNotDigits.
  unfoldable pub atoi_from : Text → ℕ → Option ℕ
  unfolding digit_value
  atoi_from [] n = some n
  atoi_from (r ∷ s) n = digit_value r >>= λ d. atoi_from s (next_value n d)

  unfoldable pub atoi : Text → Option ℕ
  unfolding atoi_from
  atoi s = if is_empty s then none else atoi_from s 0

  unfoldable pub is_digits : Text → Bool
  unfolding atoi
  is_digits s = is_some (atoi s)

  unfoldable pub is_cased : ℕ → Bool
  is_cased r =
      c.is_upper r
      || c.is_lower r
      || c.is_title r
      || c.in_other_lowercase r
      || c.in_other_uppercase r

  unfoldable pub is_case_ignorable : ℕ → Bool
  unfolding in_table
  is_case_ignorable r = c.in_mark_or_modifier r || in_table word_medial r

  -- Whether the first rune that is not ignorable is cased.
  unfoldable pub meets_cased : Text → Bool
  unfolding is_cased is_case_ignorable
  meets_cased [] = false
  meets_cased (r ∷ rs) =
      let further = meets_cased rs in if is_case_ignorable r then further else is_cased r

  -- `endsWord`, on the runes before the letter, nearest first, and those after it.
  unfoldable pub ends_word : Text → Text → Bool
  unfolding meets_cased
  ends_word before after = meets_cased before && not (meets_cased after)

  unfoldable pub lower_from : Text → Text → Text
  unfolding ends_word
  lower_from before [] = []
  lower_from before (r ∷ rs) =
      let rest = lower_from (r ∷ before) rs in
      if r == 0x130
      then b'i' ∷ 0x307 ∷ rest
      else if r == 0x3a3 && ends_word before rs
      then 0x3c2 ∷ rest
      else c.rune_to_lower r ∷ rest

  unfoldable pub lower_text : Text → Text
  unfolding lower_from
  lower_text s = lower_from [] s
