-- ===== src/Chunking/Units/Group.antt =====
-- What `group` makes of the blocks.
use mathlib.Core.Bool.{false≢true}
use docsearch.Document.{Block}
use docsearch.Chunking.Units.{TextUnit, same_section, fits_unit, group_from, group, extend, unit_of}
use docsearch.Prelude.{
  ◌≡◌, refl, sym, ap, ◌∙◌, ◌↔◌, inl, inr, true, false, Option, List, [], ◌∷◌, ◌++◌, append_assoc,
  arith, Bool-cases, is_empty, All, All-append, Chained, Text, option_eq_iff, text_eq, text_eq_iff,
  path_eq_iff,
}

-- All blocks of some units, in order.
abbrev pub unit_blocks : List TextUnit → List Block
unit_blocks [] = []
unit_blocks (u ∷ us) = u.blocks ++ unit_blocks us

abbrev pub SharesKey : TextUnit → Block → Type 0
SharesKey u b = (b.section ≡ u.section) × (b.heading_path ≡ u.heading_path)

-- A unit holds a block, and every block of it has its section and heading path.
pub record IsUniform (u : TextUnit) : Type 0 where
  pub ne_nil : is_empty u.blocks ≡ false
  pub shared : All (SharesKey u) u.blocks

abbrev pub SameKey : TextUnit → TextUnit → Type 0
SameKey u v = (u.section ≡ v.section) × (u.heading_path ≡ v.heading_path)

pub same_section_iff : (a b : Option Text) → (same_section a b ≡ true) ↔ (a ≡ b)
unfolding same_section
same_section_iff = option_eq_iff text_eq text_eq_iff

fits_unit_iff :
    (u : TextUnit) (b : Block)
    → (fits_unit u b ≡ true) ↔ ((u.section ≡ b.section) × (u.heading_path ≡ b.heading_path))
unfolding fits_unit
fits_unit_iff u b =
    ground (arith, same_section_iff u.section b.section, path_eq_iff u.heading_path b.heading_path)

is_empty-concat {ℓ} : {A : Type ℓ} (xs : List A) (x : A) → is_empty (xs ++ x ∷ []) ≡ false
is_empty-concat [] x = refl
is_empty-concat (y ∷ xs) x = refl

extend-IsUniform :
    (u : TextUnit) (b : Block) → fits_unit u b ≡ true → IsUniform u → IsUniform (extend u b)
extend-IsUniform u b h k = record {
  ne_nil = is_empty-concat u.blocks b;
  shared =
      All-append (SharesKey u) u.blocks (b ∷ []) k.shared
        ((sym ((fits_unit_iff u b).0 h).0, sym ((fits_unit_iff u b).0 h).1), tt);
}

unit_of-IsUniform : (b : Block) → IsUniform (unit_of b)
unit_of-IsUniform b = record { ne_nil = refl; shared = ((refl, refl), tt) }

group_from-blocks :
    (u : TextUnit) (bs : List Block) → unit_blocks (group_from u bs) ≡ u.blocks ++ bs
unfolding group_from
group_from-blocks u [] = refl
group_from-blocks u (b ∷ bs) = elim (Bool-cases (fits_unit u b)) [
  | inl h ↦ rw h (group_from-blocks (extend u b) bs ∙ append_assoc u.blocks (b ∷ []) bs)
  | inr h ↦ rw h (ap (◌++◌ u.blocks) (group_from-blocks (unit_of b) bs))
]

group_from-IsUniform :
    (u : TextUnit) (bs : List Block) → IsUniform u → All IsUniform (group_from u bs)
unfolding group_from
group_from-IsUniform u [] k = (k, tt)
group_from-IsUniform u (b ∷ bs) k = elim (Bool-cases (fits_unit u b)) [
  | inl h ↦ rw h (group_from-IsUniform (extend u b) bs (extend-IsUniform u b h k))
  | inr h ↦ rw h ((k, group_from-IsUniform (unit_of b) bs (unit_of-IsUniform b)))
]

-- The first unit keeps the key of the unit in hand.
Chained-to :
    (v u : TextUnit) (bs : List Block)
    → ¬ (SameKey v u)
    → Chained (λ a b. ¬ (SameKey a b)) (v ∷ group_from u bs)
unfolding group_from
Chained-to v u [] n = (n, tt)
Chained-to v u (b ∷ bs) n = elim (Bool-cases (fits_unit u b)) [
  | inl h ↦ rw h (Chained-to v (extend u b) bs n)
  | inr h ↦
      rw h
        ((n, Chained-to u (unit_of b) bs (λ same. false≢true (sym h ∙ (fits_unit_iff u b).1 same))))
]

group_from-Chained :
    (u : TextUnit) (bs : List Block) → Chained (λ a b. ¬ (SameKey a b)) (group_from u bs)
unfolding group_from
group_from-Chained u [] = tt
group_from-Chained u (b ∷ bs) = elim (Bool-cases (fits_unit u b)) [
  | inl h ↦ rw h (group_from-Chained (extend u b) bs)
  | inr h ↦
      rw h (Chained-to u (unit_of b) bs (λ same. false≢true (sym h ∙ (fits_unit_iff u b).1 same)))
]

-- Grouping keeps every block in its order, in units that hold a block each and share one section
-- and one heading path, and no two neighbouring units could be one.
pub group-IsPartition :
    (bs : List Block)
    → (unit_blocks (group bs) ≡ bs)
      × All IsUniform (group bs)
      × Chained (λ a b. ¬ (SameKey a b)) (group bs)
unfolding group
group-IsPartition [] = (refl, tt, tt)
group-IsPartition (b ∷ bs) = (
  group_from-blocks (unit_of b) bs,
  group_from-IsUniform (unit_of b) bs (unit_of-IsUniform b),
  group_from-Chained (unit_of b) bs,
)
