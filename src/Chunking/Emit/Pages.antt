-- ===== src/Chunking/Emit/Pages.antt =====
-- The pages a chunk claims.
use mathlib.Core.Path.{transport}
use mathlib.Core.Bool.{Bool}
use docsearch.Chunking.Emit.{lower, higher, page_range_from, locate, widen, emit, page_range, Chunk}
use docsearch.Document.{Block, locate, Chunk}
use docsearch.Prelude.{
  ℕ, ◌≤◌, ◌≡◌, refl, inl, inr, true, Option, none, some, List, [], ◌∷◌, ◌++◌, map, arith, ◌==◌, any,
  All, codes, sym, ap, ◌∙◌, ◌||◌, append-nil, append_assoc, ltb, ltb→lt, ltb→le, Bool-cases,
  All-append, All-imp, Text, some-injective,
}

unfoldable pub first_page : Block → Option ℕ
first_page b = locate (codes "page") b.locator

-- A block that has no first page has no last one.
unfoldable pub last_page : Block → Option ℕ
last_page b = elim (locate (codes "page") b.locator) [
  | none ↦ none
  | some page ↦ elim (locate (codes "page_end") b.locator) [
    | none ↦ some page
    | some last ↦ some last
  ]
]

abbrev pub somes {ℓ} : {A : Type ℓ} → List (Option A) → List A
somes [] = []
somes (none ∷ os) = somes os
somes (some a ∷ os) = a ∷ somes os

abbrev pub IsLeast : Option ℕ → List ℕ → Type 0
IsLeast none vs = vs ≡ []
IsLeast (some m) vs = (any (λ v. v == m) vs ≡ true) × All (λ v. m ≤ v) vs

abbrev pub IsGreatest : Option ℕ → List ℕ → Type 0
IsGreatest none vs = vs ≡ []
IsGreatest (some m) vs = (any (λ v. v == m) vs ≡ true) × All (λ v. v ≤ m) vs

-- One page more, where the block has one.
abbrev lower_by : Option ℕ → Option ℕ → Option ℕ
lower_by o none = o
lower_by o (some v) = lower o v

abbrev higher_by : Option ℕ → Option ℕ → Option ℕ
higher_by o none = o
higher_by o (some v) = higher o v

widen_by :
    (first last : Option ℕ) (b : Block)
    → widen (first, last) b ≡ (lower_by first (first_page b), higher_by last (last_page b))
unfolding widen first_page last_page
widen_by first last b = ground arith

any-snoc : (p : ℕ → Bool) (vs : List ℕ) (v : ℕ) → any p (vs ++ v ∷ []) ≡ (any p vs || p v)
any-snoc p [] v = ground arith
any-snoc p (w ∷ vs) v = ground (arith, any-snoc p vs v)

lower_by-IsLeast :
    (o p : Option ℕ) (vs : List ℕ) → IsLeast o vs → IsLeast (lower_by o p) (vs ++ somes (p ∷ []))
unfolding lower
lower_by-IsLeast o none vs h = rw (append-nil vs) h
lower_by-IsLeast none (some v) vs h = rw h (ground arith, (omega arith, tt))
lower_by-IsLeast (some m) (some v) vs h = elim (Bool-cases (ltb v m)) [
  | inl e ↦ rw e (
      (
        ground (arith, any-snoc (λ w. w == v) vs v),
        All-append (λ w. v ≤ w) vs (v ∷ []) (All-imp (λ w k. omega (arith, k, ltb→lt v m e)) vs h.1)
            (omega arith, tt),
      ))
  | inr e ↦ rw e (
      (
        ground (arith, any-snoc (λ w. w == m) vs v, h.0),
        All-append (λ w. m ≤ w) vs (v ∷ []) h.1 (ltb→le v m e, tt),
      ))
]

higher_by-IsGreatest :
    (o p : Option ℕ) (vs : List ℕ)
    → IsGreatest o vs
    → IsGreatest (higher_by o p) (vs ++ somes (p ∷ []))
unfolding higher
higher_by-IsGreatest o none vs h = rw (append-nil vs) h
higher_by-IsGreatest none (some v) vs h = rw h (ground arith, (omega arith, tt))
higher_by-IsGreatest (some m) (some v) vs h = elim (Bool-cases (ltb m v)) [
  | inl e ↦ rw e (
      (
        ground (arith, any-snoc (λ w. w == v) vs v),
        All-append (λ w. w ≤ v) vs (v ∷ []) (All-imp (λ w k. omega (arith, k, ltb→lt m v e)) vs h.1)
            (omega arith, tt),
      ))
  | inr e ↦ rw e (
      (
        ground (arith, any-snoc (λ w. w == m) vs v, h.0),
        All-append (λ w. w ≤ m) vs (v ∷ []) h.1 (ltb→le m v e, tt),
      ))
]

somes-cons {ℓ} :
    {A : Type ℓ} (o : Option A) (os : List (Option A)) → somes (o ∷ os) ≡ somes (o ∷ []) ++ somes os
somes-cons none os = refl
somes-cons (some a) os = refl

somes_seen {ℓ} :
    {A : Type ℓ} (seen : List A) (o : Option A) (os : List (Option A))
    → (seen ++ somes (o ∷ [])) ++ somes os ≡ seen ++ somes (o ∷ os)
somes_seen seen o os =
    append_assoc seen (somes (o ∷ [])) (somes os) ∙ ap (◌++◌ seen) (sym (somes-cons o os))

page_range_from-IsSpan :
    (first last : Option ℕ) (fs ls : List ℕ) (bs : List Block)
    → IsLeast first fs
    → IsGreatest last ls
    → IsLeast (page_range_from (first, last) bs).0 (fs ++ somes (map first_page bs))
      × IsGreatest (page_range_from (first, last) bs).1 (ls ++ somes (map last_page bs))
unfolding page_range_from
page_range_from-IsSpan first last fs ls [] h k = (rw (append-nil fs) h, rw (append-nil ls) k)
page_range_from-IsSpan first last fs ls (b ∷ bs) h k =
    let spanned =
      page_range_from-IsSpan (lower_by first (first_page b)) (higher_by last (last_page b)) _ _ bs
        (lower_by-IsLeast first (first_page b) fs h)
        (higher_by-IsGreatest last (last_page b) ls k) in
    transport
      (λ i.
        IsLeast (page_range_from (sym (widen_by first last b) i) bs).0
          (somes_seen fs (first_page b) (map first_page bs) i)
        × IsGreatest (page_range_from (sym (widen_by first last b) i) bs).1
            (somes_seen ls (last_page b) (map last_page bs) i))
      spanned

-- A part's chunk starts on the least of its blocks' first pages and ends on the greatest of their
-- last pages, and claims no page exactly when no block has one.
pub emit-pages :
    (ordinal : ℕ) (path : List Text) (blocks : List Block) (section : Option Text) (c : Chunk)
    → emit ordinal path blocks section ≡ some c
    → IsLeast c.page_start (somes (map first_page blocks))
      × IsGreatest c.page_end (somes (map last_page blocks))
unfolding emit page_range
emit-pages ordinal path [] section c h = cc h
emit-pages ordinal path (b ∷ bs) section c h =
    rw (← some-injective h) (page_range_from-IsSpan none none [] [] (b ∷ bs) refl refl)
