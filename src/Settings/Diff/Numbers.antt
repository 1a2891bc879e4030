-- ===== src/Settings/Diff/Numbers.antt =====
-- The numbers that are reported of the lines.
use docsearch.Settings.Diff.{changed_from}
use docsearch.Prelude.{
  ℕ, ◌+◌, ◌≤◌, ◌<◌, ◌≡◌, refl, Bool, true, false, List, [], ◌∷◌, arith, ◌==◌, if◌then◌else◌, length,
  any, Text,
}

-- The lines that are marked.
abbrev pub kept : List Bool → List Text → List Text
kept [] b = []
kept (m ∷ ms) [] = []
kept (m ∷ ms) (y ∷ b) = if m then y ∷ kept ms b else kept ms b

-- The lines of a file, `i` before it, whose numbers are not listed.
abbrev pub unlisted : ℕ → List ℕ → List Text → List Text
unlisted i ns [] = []
unlisted i ns (y ∷ b) =
    let rest = unlisted (i + 1) ns b in if any (λ n. n == i + 1) ns then rest else y ∷ rest

-- Each number is greater than the one before it.
abbrev pub Ascends : ℕ → List ℕ → Type 0
Ascends i [] = Unit
Ascends i (n ∷ ns) = (i < n) × Ascends n ns

Ascends-from : (i j : ℕ) (ns : List ℕ) → i ≤ j → Ascends j ns → Ascends i ns
Ascends-from i j [] h k = tt
Ascends-from i j (n ∷ ns) h k = (omega (arith, h, k.0), k.1)

Ascends-not_any : (i : ℕ) (ns : List ℕ) → Ascends i ns → any (λ n. n == i) ns ≡ false
Ascends-not_any i [] h = refl
Ascends-not_any i (n ∷ ns) h =
    ground (arith, h.0, Ascends-not_any i ns (Ascends-from i n ns (omega (arith, h.0)) h.1))

unlisted-below :
    (i j : ℕ) (ns : List ℕ) (b : List Text) → j ≤ i → unlisted i (j ∷ ns) b ≡ unlisted i ns b
unlisted-below i j ns [] h = refl
unlisted-below i j ns (y ∷ b) h =
    ground (arith, h, unlisted-below (i + 1) j ns b (omega (arith, h)))

pub changed_from-Ascends : (i : ℕ) (ms : List Bool) → Ascends i (changed_from i ms)
unfolding changed_from
changed_from-Ascends i [] = tt
changed_from-Ascends i (true ∷ ms) =
    Ascends-from i (i + 1) (changed_from (i + 1) ms) (omega arith) (changed_from-Ascends (i + 1) ms)
changed_from-Ascends i (false ∷ ms) = (omega arith, changed_from-Ascends (i + 1) ms)

-- The lines that are not reported are those that are marked.
pub unlisted-changed_from :
    (i : ℕ) (ms : List Bool) (b : List Text)
    → length ms ≡ length b
    → unlisted i (changed_from i ms) b ≡ kept ms b
unfolding changed_from
unlisted-changed_from i [] [] h = refl
unlisted-changed_from i [] (y ∷ b) h = absurd (omega (arith, h))
unlisted-changed_from i (m ∷ ms) [] h = absurd (omega (arith, h))
unlisted-changed_from i (true ∷ ms) (y ∷ b) h = ground (
  arith,
  unlisted-changed_from (i + 1) ms b (omega (arith, h)),
  Ascends-not_any (i + 1) (changed_from (i + 1) ms) (changed_from-Ascends (i + 1) ms),
)
unlisted-changed_from i (false ∷ ms) (y ∷ b) h = ground (
  arith,
  unlisted-changed_from (i + 1) ms b (omega (arith, h)),
  unlisted-below (i + 1) (i + 1) (changed_from (i + 1) ms) b (omega arith),
)

pub changed_from-length :
    (i : ℕ) (ms : List Bool) (b : List Text)
    → length ms ≡ length b
    → length (changed_from i ms) + length (kept ms b) ≡ length b
unfolding changed_from
changed_from-length i [] [] h = refl
changed_from-length i [] (y ∷ b) h = absurd (omega (arith, h))
changed_from-length i (m ∷ ms) [] h = absurd (omega (arith, h))
changed_from-length i (m ∷ ms) (y ∷ b) h =
    ground (arith, changed_from-length (i + 1) ms b (omega (arith, h)))
