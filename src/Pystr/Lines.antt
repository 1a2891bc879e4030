-- ===== src/Pystr/Lines.antt =====
-- What `SplitLines` and `SplitLinesKeepEnds` return.
use docsearch.Prelude.{
  inl, inr, false, true, Bool-cases, ◌==◌, if◌then◌else◌, refl, ◌∙◌, flatten, take-append-drop,
  length-drop, ap, zero, ℕ, suc, ◌+◌, ◌≤◌, ◌<◌, true, false, ◌&&◌, List, [], ◌∷◌, ◌++◌, ◌≡◌, ◌≢◌,
  ap, Option, none, some, Text, length, take, drop, All, arith, ◌==◌, Bool, cons-ne-nil, append-nil,
}
use docsearch.Pystr.{
  is_line_break, starts_with_rune, first_line_break, shift, split_loop, split_lines, keep_ends_loop,
  split_lines_keep_ends,
}

abbrev pub NoBreak : Text → Type 0
NoBreak = All (λ r. is_line_break r ≡ false)

-- What stands between two lines: one breaking rune, or a carriage return with its line feed. A
-- carriage return alone has no line feed behind it.
pub data IsBreak : Text → Text → Type 0 where
  crlf : {sep : Text} (rest : Text) → sep ≡ 0xd ∷ 0xa ∷ [] → IsBreak sep rest
  single :
      {sep : Text} (r : ℕ) (rest : Text)
      → sep ≡ r ∷ []
      → is_line_break r ≡ true
      → (r == 0xd && starts_with_rune 0xa rest) ≡ false
      → IsBreak sep rest

-- `lines` are the lines of the text: none of an empty text, and no empty one behind a last break.
pub data IsLines : List Text → Text → Type 0 where
  nothing : IsLines [] []
  last : {line : Text} → line ≢ [] → NoBreak line → IsLines (line ∷ []) line
  cut :
      {line sep rest whole : Text} {lines : List Text}
      → NoBreak line
      → IsBreak sep rest
      → whole ≡ line ++ (sep ++ rest)
      → IsLines lines rest
      → IsLines (line ∷ lines) whole

-- What the first break says of the text: `before` is free of breaks, and `sep` is one.
abbrev FoundAt : Text → Option (ℕ × ℕ) → Type 0
FoundAt s none = NoBreak s
FoundAt s (some (at, width)) =
    (sep : Text) × NoBreak (take at s)
    × IsBreak sep (drop (at + width) s)
    × (s ≡ take at s ++ (sep ++ drop (at + width) s))
    × (0 < width)
    × (at + width ≤ length s)

FoundAt-shift :
    (r : ℕ) (rs : Text) (o : Option (ℕ × ℕ))
    → is_line_break r ≡ false
    → FoundAt rs o
    → FoundAt (r ∷ rs) (shift o)
FoundAt-shift r rs none h f = (h, f)
FoundAt-shift r rs (some (at, width)) h (sep, clear, b, e, p, q) =
    let moved : suc at + width ≡ suc (at + width) = omega arith in
    rw moved ((sep, (h, clear), b, ap (◌∷◌ r) e, p, omega arith))

FoundAt-here :
    (r : ℕ) (rs : Text)
    → is_line_break r ≡ true
    → (b : Bool) → (r == 0xd && starts_with_rune 0xa rs) ≡ b
    → FoundAt (r ∷ rs) (if b then some (0, 2) else some (0, 1))
unfolding starts_with_rune
FoundAt-here r rs h false e = (r ∷ [], tt, single r rs refl h e, refl, omega arith, omega arith)
FoundAt-here r [] h true e = absurd (ground arith)
FoundAt-here r (c ∷ cs) h true e =
    let is_r : r ≡ 0xd = ground arith in
    let is_c : c ≡ 0xa = ground arith in
    (0xd ∷ 0xa ∷ [], tt, crlf cs refl, rw (is_r, is_c) refl, omega arith, omega arith)

first_line_break-FoundAt : (s : Text) → FoundAt s (first_line_break s)
unfolding first_line_break
first_line_break-FoundAt [] = tt
first_line_break-FoundAt (r ∷ rs) = elim (Bool-cases (is_line_break r)) [
  | inl h ↦ rw h (FoundAt-here r rs h (r == 0xd && starts_with_rune 0xa rs) refl)
  | inr h ↦ rw h (FoundAt-shift r rs (first_line_break rs) h (first_line_break-FoundAt rs))
]

split_loop-IsLines : (fuel : ℕ) (s : Text) → length s ≤ fuel → IsLines (split_loop fuel s) s
unfolding split_loop
split_loop-IsLines zero [] h = nothing
split_loop-IsLines zero (r ∷ rs) h = absurd (omega arith)
split_loop-IsLines (suc fuel) [] h = nothing
split_loop-IsLines (suc fuel) (r ∷ rs) h =
    step (λ s. split_loop-IsLines fuel s) (first_line_break (r ∷ rs))
      (first_line_break-FoundAt (r ∷ rs))
  where
    step :
        ((s : Text) → length s ≤ fuel → IsLines (split_loop fuel s) s)
        → (o : Option (ℕ × ℕ)) → FoundAt (r ∷ rs) o
        → IsLines
            (elim o [
              | none ↦ (r ∷ rs) ∷ []
              | some (at, width) ↦ take at (r ∷ rs) ∷ split_loop fuel (drop (at + width) (r ∷ rs))
            ])
            (r ∷ rs)
    step ih none f = last (cons-ne-nil r rs) f
    step ih (some (at, width)) (sep, clear, b, e, p, q) =
        cut clear b e
          (ih (drop (at + width) (r ∷ rs)) (omega (arith, length-drop (at + width) (r ∷ rs))))

-- Cutting a text at its line breaks, for every text: the lines hold no break, the breaks stand
-- between them, and nothing else is left out.
pub split_lines-IsLines : (s : Text) → IsLines (split_lines s) s
unfolding split_lines
split_lines-IsLines s = split_loop-IsLines (length s) s (omega arith)

keep_ends_loop-flatten :
    (fuel : ℕ) (s : Text) → length s ≤ fuel → flatten (keep_ends_loop fuel s) ≡ s
unfolding keep_ends_loop
keep_ends_loop-flatten zero [] h = refl
keep_ends_loop-flatten zero (r ∷ rs) h = absurd (omega arith)
keep_ends_loop-flatten (suc fuel) [] h = refl
keep_ends_loop-flatten (suc fuel) (r ∷ rs) h =
    step (λ s. keep_ends_loop-flatten fuel s) (first_line_break (r ∷ rs))
      (first_line_break-FoundAt (r ∷ rs))
  where
    step :
        ((s : Text) → length s ≤ fuel → flatten (keep_ends_loop fuel s) ≡ s)
        → (o : Option (ℕ × ℕ)) → FoundAt (r ∷ rs) o
        → flatten (elim o [
          | none ↦ (r ∷ rs) ∷ []
          | some (at, width) ↦
              take (at + width) (r ∷ rs) ∷ keep_ends_loop fuel (drop (at + width) (r ∷ rs))
        ])
          ≡ r ∷ rs
    step ih none f = append-nil (r ∷ rs)
    step ih (some (at, width)) (sep, clear, b, e, p, q) =
        ap (λ s. take (at + width) (r ∷ rs) ++ s)
          (ih (drop (at + width) (r ∷ rs)) (omega (arith, length-drop (at + width) (r ∷ rs))))
        ∙ take-append-drop (at + width) (r ∷ rs)

-- `SplitLinesKeepEnds` loses nothing: its lines joined are the text.
pub split_lines_keep_ends-flatten : (s : Text) → flatten (split_lines_keep_ends s) ≡ s
unfolding split_lines_keep_ends
split_lines_keep_ends-flatten s = keep_ends_loop-flatten (length s) s (omega arith)
