-- ===== src/Strings.antt =====
-- What the source uses of Go's `strings` package, on runes: `Join`, `Split`, `HasPrefix`,
-- `LastIndex`, `HasSuffix`, `TrimSuffix`, `Cut`.
pub mod Laws
pub mod Pieces
pub mod Suffix
use docsearch.Prelude.{
  ℕ, zero, suc, ◌-◌, Bool, true, false, ◌&&◌, Option, none, some, List, [], ◌∷◌, ◌++◌, arith, ◌==◌,
  if◌then◌else◌, length, Text, ◌||◌, take, is_empty, text_eq,
}

unfoldable pub join : Text → List Text → Text
join sep [] = []
join sep (s ∷ []) = s
join sep (s ∷ t ∷ ts) = s ++ (sep ++ join sep (t ∷ ts))

unfoldable pub starts_with : Text → Text → Bool
starts_with [] s = true
starts_with (p ∷ ps) [] = false
starts_with (p ∷ ps) (c ∷ cs) = p == c && starts_with ps cs

unfoldable pub push : ℕ → List Text → List Text
push c [] = (c ∷ []) ∷ []
push c (l ∷ ls) = (c ∷ l) ∷ ls

-- Cuts at each separator from the left; `skip` runes of one are still to be passed over.
unfoldable pub split_from : Text → ℕ → Text → List Text
unfolding push starts_with
split_from sep skip [] = [] ∷ []
split_from sep (suc skip) (c ∷ cs) = split_from sep skip cs
split_from sep zero (c ∷ cs) =
    let cut = [] ∷ split_from sep (length sep - 1) cs in
    let kept = push c (split_from sep 0 cs) in if starts_with sep (c ∷ cs) then cut else kept

-- `strings.Split` by a separator that is not empty.
unfoldable pub split : Text → Text → List Text
unfolding split_from
split sep s = split_from sep 0 s

-- `none` is the index -1.
unfoldable pub last_index : Text → Text → Option ℕ
unfolding starts_with
last_index sep [] = none
last_index sep (c ∷ cs) = elim (last_index sep cs) [
  | some i ↦ some (suc i)
  | none ↦ if starts_with sep (c ∷ cs) then some 0 else none
]

unfoldable pub ends_with : Text → Text → Bool
unfolding text_eq
ends_with suffix [] = is_empty suffix
ends_with suffix (c ∷ cs) = text_eq suffix (c ∷ cs) || ends_with suffix cs

unfoldable pub trim_suffix : Text → Text → Text
unfolding ends_with
trim_suffix suffix s = if ends_with suffix s then take (length s - length suffix) s else s

-- `strings.Cut` at a separator of one byte: what stands before it, what after, and whether it is
-- there.
unfoldable pub cut : ℕ → Text → Text × Text × Bool
cut sep [] = ([], [], false)
cut sep (c ∷ cs) =
    let (head, rest, found) = cut sep cs in
    if c == sep then ([], cs, true) else (c ∷ head, rest, found)
