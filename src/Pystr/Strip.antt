-- ===== src/Pystr/Strip.antt =====
-- The ink of a text, its runes that are not white space, and what `Strip` and line breaks leave of it.
use docsearch.Pystr.Lines.{
  nothing, last, cut, IsLines, IsBreak, split_lines-IsLines, last, crlf, cut, single,
}
use docsearch.Strings.{join}
use docsearch.Pystr.{is_space, trim_left, trim_right, strip, is_line_break, split_lines, in_table}
use docsearch.Prelude.{
  ℕ, ◌≡◌, refl, sym, ap, ◌∙◌, Bool, true, not, List, [], ◌∷◌, ◌++◌, append-nil, append_assoc, arith,
  is_empty, select, Text,
}

abbrev pub is_ink : ℕ → Bool
is_ink r = not (is_space r)

unfoldable pub ink : Text → Text
ink = select is_ink

abbrev pub ink_texts : List Text → Text
ink_texts [] = []
ink_texts (s ∷ ss) = ink s ++ ink_texts ss

pub ink-append : (s t : Text) → ink (s ++ t) ≡ ink s ++ ink t
unfolding ink
ink-append [] t = refl
ink-append (r ∷ rs) t = ground (arith, ink-append rs t)

pub ink_texts-append : (ss ts : List Text) → ink_texts (ss ++ ts) ≡ ink_texts ss ++ ink_texts ts
ink_texts-append [] ts = refl
ink_texts-append (s ∷ ss) ts = simp (ink_texts-append ss ts, append_assoc)

ink-trim_left : (s : Text) → ink (trim_left s) ≡ ink s
unfolding ink trim_left
ink-trim_left [] = refl
ink-trim_left (r ∷ rs) = ground (arith, ink-trim_left rs)

ink-trim_right : (s : Text) → ink (trim_right s) ≡ ink s
unfolding ink trim_right
ink-trim_right [] = refl
ink-trim_right (r ∷ rs) = ground (arith, ink-trim_right rs)

-- Stripping takes white space only.
pub ink-strip : (s : Text) → ink (strip s) ≡ ink s
unfolding strip
ink-strip s = ink-trim_right (trim_left s) ∙ ink-trim_left s

is_empty-trim_right : (s : Text) → is_empty (trim_right s) ≡ is_empty (ink s)
unfolding ink trim_right
is_empty-trim_right [] = refl
is_empty-trim_right (r ∷ rs) = ground (arith, is_empty-trim_right rs)

-- A text is stripped to nothing exactly when it has no ink.
pub is_empty-strip : (s : Text) → is_empty (strip s) ≡ is_empty (ink s)
unfolding strip
is_empty-strip s = is_empty-trim_right (trim_left s) ∙ ap is_empty (ink-trim_left s)

pub ink_nil-join : (sep : Text) (ss : List Text) → ink sep ≡ [] → ink (join sep ss) ≡ ink_texts ss
unfolding join
ink_nil-join sep [] h = unfold ink in refl
ink_nil-join sep (s ∷ []) h = sym (append-nil (ink s))
ink_nil-join sep (s ∷ t ∷ ts) h =
    ink-append s (sep ++ join sep (t ∷ ts))
    ∙ ap (◌++◌ (ink s)) (ink-append sep (join sep (t ∷ ts)) ∙ rw h (ink_nil-join sep (t ∷ ts) h))

line_break-space : (r : ℕ) → is_line_break r ≡ true → is_space r ≡ true
unfolding is_line_break is_space in_table
line_break-space r h = ground arith

IsBreak-ink : {sep rest : Text} → IsBreak sep rest → ink sep ≡ []
unfolding ink is_space
IsBreak-ink (crlf rest e) = rw e refl
IsBreak-ink (single r rest e h n) = rw e (unfold ink in ground (arith, line_break-space r h))

IsLines-ink : {lines : List Text} {s : Text} → IsLines lines s → ink_texts lines ≡ ink s
IsLines-ink nothing = unfold ink in refl
IsLines-ink (last {line} ne clear) = append-nil (ink line)
IsLines-ink (cut {line} {sep} {rest} clear b e lines) =
    ap (◌++◌ (ink line)) (IsLines-ink lines)
    ∙ ap (λ s. ink line ++ (s ++ ink rest)) (sym (IsBreak-ink b))
    ∙ ap (◌++◌ (ink line)) (sym (ink-append sep rest))
    ∙ sym (ink-append line (sep ++ rest))
    ∙ ap ink (sym e)

-- Cutting into lines takes white space only.
pub ink-split_lines : (s : Text) → ink_texts (split_lines s) ≡ ink s
ink-split_lines s = IsLines-ink (split_lines-IsLines s)
