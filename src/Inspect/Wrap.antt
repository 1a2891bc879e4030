-- ===== src/Inspect/Wrap.antt =====
-- What wrapping and centring keep.
use mathlib.Core.Bool.{false≢true}
use docsearch.Strings.{join}
use docsearch.Inspect.{byte_len, wrap_from, wrap_text, spaces, centred, rune_len}
use docsearch.Prelude.{
  ℕ, zero, suc, ◌+◌, ◌-◌, ◌/◌, ◌≤◌, max, ◌≡◌, refl, sym, ap, ◌∙◌, ◌⊎◌, inl, inr, false, List, [],
  ◌∷◌, ◌++◌, append_assoc, arith, ltb, leb, ltb→le, leb→le, leb→lt, Bool-cases, length, is_empty,
  length-append, All, Text,
}

abbrev pub Nonempty : Text → Type 0
Nonempty word = is_empty word ≡ false

abbrev pub one_space : Text
one_space = b' ' ∷ []

byte_len-append : (s t : Text) → byte_len (s ++ t) ≡ byte_len s + byte_len t
unfolding byte_len
byte_len-append [] t = omega arith
byte_len-append (r ∷ s) t = omega (arith, byte_len-append s t)

byte_len-space : (word : Text) → byte_len (b' ' ∷ word) ≡ 1 + byte_len word
unfolding byte_len rune_len
byte_len-space word = refl

is_empty-space : (s t : Text) → is_empty (s ++ b' ' ∷ t) ≡ false
is_empty-space [] t = refl
is_empty-space (r ∷ s) t = refl

join-cons :
    (s : Text) (lines : List Text)
    → is_empty lines ≡ false
    → join one_space (s ∷ lines) ≡ s ++ (one_space ++ join one_space lines)
unfolding join
join-cons s [] h = absurd (false≢true (sym h))
join-cons s (l ∷ ls) h = refl

join-extend :
    (s word : Text) (words : List Text)
    → join one_space ((s ++ b' ' ∷ word) ∷ words)
      ≡ s ++ (one_space ++ join one_space (word ∷ words))
unfolding join
join-extend s word [] = refl
join-extend s word (v ∷ vs) = append_assoc s (b' ' ∷ word) (one_space ++ join one_space (v ∷ vs))

module _ (width : ℕ) where
  -- The line fits, or has what every word has.
  abbrev pub Fits : (Text → Type 0) → Text → Type 0
  Fits P line = (byte_len line ≤ width) ⊎ P line

  wrap_from-Fits :
      (P : Text → Type 0) (current : Text) (words : List Text)
      → Fits P current
      → All P words
      → All (Fits P) (wrap_from width current words)
  unfolding wrap_from
  wrap_from-Fits P current [] h k = elim (Bool-cases (is_empty current)) [
    | inl e ↦ rw e tt
    | inr e ↦ rw e (h, tt)
  ]
  wrap_from-Fits P current (word ∷ words) h k = elim (Bool-cases (is_empty current)) [
    | inl e ↦ rw e (wrap_from-Fits P word words (inr k.0) k.1)
    | inr e ↦ elim (Bool-cases (ltb width (byte_len current + 1 + byte_len word))) [
      | inl f ↦ rw (e, f) (h, wrap_from-Fits P word words (inr k.0) k.1)
      | inr f ↦
          rw (e, f)
            (wrap_from-Fits P (current ++ b' ' ∷ word) words
              (inl (
                omega (
                  arith,
                  byte_len-append current (b' ' ∷ word),
                  byte_len-space word,
                  ltb→le width (byte_len current + 1 + byte_len word) f,
                )))
              k.1)
    ]
  ]

  is_empty-wrap_from :
      (current : Text) (words : List Text)
      → Nonempty current
      → All Nonempty words
      → is_empty (wrap_from width current words) ≡ false
  unfolding wrap_from
  is_empty-wrap_from current [] h k = rw h refl
  is_empty-wrap_from current (word ∷ words) h k =
      elim (Bool-cases (ltb width (byte_len current + 1 + byte_len word))) [
        | inl f ↦ rw (h, f) refl
        | inr f ↦
            rw (h, f)
              (is_empty-wrap_from (current ++ b' ' ∷ word) words (is_empty-space current word) k.1)
      ]

  join-wrap_from :
      (current : Text) (words : List Text)
      → Nonempty current
      → All Nonempty words
      → join one_space (wrap_from width current words) ≡ join one_space (current ∷ words)
  unfolding wrap_from
  join-wrap_from current [] h k = rw h refl
  join-wrap_from current (word ∷ words) h k =
      elim (Bool-cases (ltb width (byte_len current + 1 + byte_len word))) [
        | inl f ↦
            rw (h, f)
              (join-cons current (wrap_from width word words)
                  (is_empty-wrap_from word words k.0 k.1)
                ∙ ap (λ s. current ++ (one_space ++ s)) (join-wrap_from word words k.0 k.1)
                ∙ sym (join-cons current (word ∷ words) refl))
        | inr f ↦
            rw (h, f)
              (join-wrap_from (current ++ b' ' ∷ word) words (is_empty-space current word) k.1
                ∙ join-extend current word words
                ∙ sym (join-cons current (word ∷ words) refl))
      ]

  -- Wrapping moves no word: the lines joined by spaces are the words joined by spaces. Each line
  -- has `width` bytes at most or is a single word: it has whatever all the words have.
  pub wrap_text-IsWrapped :
      (P : Text → Type 0) (words : List Text)
      → All Nonempty words
      → All P words
      → (join one_space (wrap_text width words) ≡ join one_space words)
        × All (Fits P) (wrap_text width words)
  unfolding wrap_text wrap_from
  wrap_text-IsWrapped P [] h k = (refl, tt)
  wrap_text-IsWrapped P (word ∷ words) h k =
      (join-wrap_from word words h.0 h.1, wrap_from-Fits P word words (inr k.0) k.1)

length-spaces : (n : ℕ) → length (spaces n) ≡ n
unfolding spaces
length-spaces zero = refl
length-spaces (suc n) = ap suc (length-spaces n)

-- Centring pads a text to the width, and leaves one that is as wide alone.
pub length-centred :
    (text : Text) (width : ℕ) → length (centred text width) ≡ max (length text) width
unfolding centred
length-centred text width = elim (Bool-cases (leb width (length text))) [
  | inl h ↦ rw h (omega (arith, leb→le width (length text) h))
  | inr h ↦
      let padding = width - length text in
      rw h (
        length-append (spaces (padding / 2) ++ text) (spaces (padding - padding / 2))
        ∙ omega (
          arith,
          leb→lt width (length text) h,
          length-append (spaces (padding / 2)) text,
          length-spaces (padding / 2),
          length-spaces (padding - padding / 2),
        ))
]
