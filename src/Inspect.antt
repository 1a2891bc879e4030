-- ===== src/Inspect.antt =====
-- internal/domain/inspect.go: the layout of a finding. `strings.Fields` splits by Go's own table of
-- white space; its words are an argument here.
pub mod Wrap
use docsearch.Prelude.{
  ℕ, zero, suc, ◌+◌, ◌-◌, ◌/◌, List, [], ◌∷◌, ◌++◌, arith, ltb, leb, if◌then◌else◌, length,
  is_empty, sum_by, Text,
}

-- The bytes of a rune in UTF-8, and `len` of a string.
unfoldable pub rune_len : ℕ → ℕ
rune_len r = if ltb r 128 then 1 else if ltb r 2048 then 2 else if ltb r 65536 then 3 else 4

unfoldable pub byte_len : Text → ℕ
unfolding rune_len
byte_len = sum_by rune_len

abbrev pub level_width : ℕ
level_width = 7

abbrev pub inspect_detail_width : ℕ
inspect_detail_width = 72

-- `centred`; the padding is 0 where the source returns the text as it is.
unfoldable pub spaces : ℕ → Text
spaces zero = []
spaces (suc n) = b' ' ∷ spaces n

unfoldable pub centred : Text → ℕ → Text
unfolding spaces
centred text width =
    if leb width (length text)
    then text
    else let padding = width - length text in
      spaces (padding / 2) ++ text ++ spaces (padding - padding / 2)

module _ (width : ℕ) where
  -- The loop of `wrapText`; `current` is the line in hand, empty before the first word.
  unfoldable pub wrap_from : Text → List Text → List Text
  unfolding byte_len
  wrap_from current [] = if is_empty current then [] else current ∷ []
  wrap_from current (word ∷ words) =
      let fresh = wrap_from word words in
      let longer = wrap_from (current ++ b' ' ∷ word) words in
      if is_empty current
      then fresh
      else if ltb width (byte_len current + 1 + byte_len word)
      then current ∷ fresh
      else longer

  unfoldable pub wrap_text : List Text → List Text
  unfolding wrap_from
  wrap_text words = wrap_from [] words
