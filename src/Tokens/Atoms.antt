-- ===== src/Tokens/Atoms.antt =====
-- The scan of `CountAtoms` over a text, piece by piece.
use mathlib.Core.Path.{ap₂}
use docsearch.Pystr.{Unicode, trim_left, is_word, is_space, trim_right, strip}
use docsearch.Tokens.{is_cjk, scan, scan_rune, count_atoms, Counts, start}
use docsearch.Prelude.{
  arith, Text, All, ℕ, ◌∷◌, [], ◌+◌, ◌≡◌, refl, sym, ◌∙◌, true, false, ◌++◌, All-append, ap, inl,
  inr, ◌&&◌, Bool-cases, is_empty,
}

-- No rune of the text belongs to a script that is written without spaces.
abbrev pub NoCjk : Text → Type 0
NoCjk = All (λ r. is_cjk r ≡ false)

abbrev pub blank_line : Text
blank_line = 0xa ∷ 0xa ∷ []

NoCjk-append : (xs ys : Text) → NoCjk xs → NoCjk ys → NoCjk (xs ++ ys)
NoCjk-append xs ys h k = All-append (λ r. is_cjk r ≡ false) xs ys h k

module _ ⦃u : Unicode⦄ where
  pub scan-append : (s : Counts) (xs ys : Text) → scan s (xs ++ ys) ≡ scan (scan s xs) ys
  unfolding scan
  scan-append s [] ys = refl
  scan-append s (x ∷ xs) ys = scan-append (scan_rune s x) xs ys

  -- A rune of white space, unless it is written like a character of CJK, only ends a word.
  pub scan_rune-space :
      (s : Counts) (r : ℕ)
      → is_space r ≡ true
      → is_cjk r ≡ false
      → scan_rune s r ≡ record s { in_word = false }
  unfolding scan_rune is_word
  scan_rune-space s r h c =
      ground (arith, u.space-not_letter r, u.space-not_number r, not_underscore)
    where
      not_underscore : is_space b'_' ≡ false
      not_underscore = unfold is_space in refl

  -- What is counted before a piece of text does not change what the piece adds.
  record Shifted (a c : ℕ) (s t : Counts) : Type 0 where
    atoms_up : t.atoms ≡ s.atoms + a
    cjk_up : t.cjk ≡ s.cjk + c
    word_same : t.in_word ≡ s.in_word

  scan_rune-Shifted :
      (a c : ℕ) (s t : Counts) (r : ℕ)
      → Shifted a c s t
      → Shifted a c (scan_rune s r) (scan_rune t r)
  unfolding scan_rune
  scan_rune-Shifted a c s t r h = ground arith

  scan-Shifted :
      (a c : ℕ) (s t : Counts) (rs : Text) → Shifted a c s t → Shifted a c (scan s rs) (scan t rs)
  unfolding scan
  scan-Shifted a c s t [] h = h
  scan-Shifted a c s t (r ∷ rs) h =
      scan-Shifted a c (scan_rune s r) (scan_rune t r) rs (scan_rune-Shifted a c s t r h)

  scan-cjk : (s : Counts) (rs : Text) → NoCjk rs → (scan s rs).cjk ≡ s.cjk
  unfolding scan scan_rune
  scan-cjk s [] h = refl
  scan-cjk s (r ∷ rs) h = ground (arith, scan-cjk (scan_rune s r) rs h.1)

  pub count_atoms-eq-scan : (rs : Text) → NoCjk rs → count_atoms rs ≡ (scan start rs).atoms
  unfolding count_atoms
  count_atoms-eq-scan rs h = ground (arith, scan-cjk start rs h)

  scan-blank_line : (s : Counts) → scan s blank_line ≡ record s { in_word = false }
  unfolding scan
  scan-blank_line s = rw (scan_rune-space s 0xa h c) (scan_rune-space _ 0xa h c)
    where
      h : is_space 0xa ≡ true
      h = unfold is_space in refl

      c : is_cjk 0xa ≡ false
      c = unfold is_cjk in refl

  -- A blank line between two texts keeps their words apart.
  pub scan-joined :
      (xs ys : Text)
      → (scan start (xs ++ (blank_line ++ ys))).atoms
        ≡ (scan start xs).atoms + (scan start ys).atoms
  scan-joined xs ys = rw (scan-append start xs (blank_line ++ ys)) (
      rw (scan-append (scan start xs) blank_line ys) (
        rw (scan-blank_line (scan start xs)) (
          omega (
            arith,
            (scan-Shifted (scan start xs).atoms (scan start xs).cjk start
                (record {
                  atoms = (scan start xs).atoms;
                  cjk = (scan start xs).cjk;
                  in_word = false;
                })
                ys
                (record {
                  atoms_up = omega arith;
                  cjk_up = omega arith;
                  word_same = refl;
                })).atoms_up,
          ))))

  -- Without CJK the atoms of two texts with a blank line between them are the sum of theirs.
  pub count_atoms-joined :
      (xs ys : Text)
      → NoCjk xs
      → NoCjk ys
      → count_atoms (xs ++ (blank_line ++ ys)) ≡ count_atoms xs + count_atoms ys
  unfolding is_cjk
  count_atoms-joined xs ys h k =
      count_atoms-eq-scan (xs ++ (blank_line ++ ys)) (NoCjk-append xs _ h (refl, (refl, k)))
      ∙ scan-joined xs ys
      ∙ ap₂ ◌+◌ (sym (count_atoms-eq-scan xs h)) (sym (count_atoms-eq-scan ys k))

  pub trim_left-NoCjk : (rs : Text) → NoCjk rs → NoCjk (trim_left rs)
  unfolding trim_left
  trim_left-NoCjk [] h = tt
  trim_left-NoCjk (r ∷ rs) h = ground (arith, trim_left-NoCjk rs h.1)

  scan-trim_left :
      (rs : Text) → NoCjk rs → (scan start (trim_left rs)).atoms ≡ (scan start rs).atoms
  unfolding trim_left scan
  scan-trim_left [] h = refl
  scan-trim_left (r ∷ rs) h = elim (Bool-cases (is_space r)) [
    | inl space ↦
        rw (space, trim_left)
          (scan-trim_left rs h.1
            ∙ ap (λ s. (scan s rs).atoms) (sym (scan_rune-space start r space h.0)))
    | inr solid ↦ rw (solid, trim_left)
  ]

  scan-trim_right :
      (s : Counts) (rs : Text) → NoCjk rs → (scan s (trim_right rs)).atoms ≡ (scan s rs).atoms
  unfolding trim_right scan
  scan-trim_right s [] h = refl
  scan-trim_right s (r ∷ rs) h = elim (Bool-cases (is_space r && is_empty (trim_right rs))) [
    | inl dropped ↦
        let space : is_space r ≡ true = ground (arith, dropped) in
        let gone : trim_right rs ≡ [] = ground (arith, dropped) in
        rw dropped (
          ap (λ (c : Counts). c.atoms) (sym (scan_rune-space s r space h.0))
          ∙ rw gone at (scan-trim_right (scan_rune s r) rs h.1))
    | inr kept ↦ rw kept (scan-trim_right (scan_rune s r) rs h.1)
  ]

  trim_right-NoCjk : (rs : Text) → NoCjk rs → NoCjk (trim_right rs)
  unfolding trim_right
  trim_right-NoCjk [] h = tt
  trim_right-NoCjk (r ∷ rs) h = elim (Bool-cases (is_space r && is_empty (trim_right rs))) [
    | inl dropped ↦ rw dropped tt
    | inr kept ↦ rw kept ((h.0, trim_right-NoCjk rs h.1))
  ]

  -- Without CJK, white space at the ends of a text does not count.
  pub count_atoms-strip : (rs : Text) → NoCjk rs → count_atoms (strip rs) ≡ count_atoms rs
  unfolding strip
  count_atoms-strip rs h =
      count_atoms-eq-scan (strip rs) (trim_right-NoCjk (trim_left rs) (trim_left-NoCjk rs h))
      ∙ scan-trim_right start (trim_left rs) (trim_left-NoCjk rs h)
      ∙ scan-trim_left rs h
      ∙ sym (count_atoms-eq-scan rs h)
