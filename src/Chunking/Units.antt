-- ===== src/Chunking/Units.antt =====
-- The units of a document: runs of blocks with one section and heading path, small ones merged
-- forward, and the preambles of chapters folded into their first subsection.
pub mod Group
pub mod Merge
pub mod Stubs
use docsearch.Strings.{join, starts_with}
use docsearch.Tokens.{estimate_tokens}
use docsearch.Pystr.{strip, Unicode}
use docsearch.Document.{Block}
use docsearch.Prelude.{
  ℕ, zero, suc, Bool, true, false, ◌&&◌, ◌||◌, Option, some, List, [], ◌∷◌, ◌++◌, map, arith, ltb,
  ◌==◌, if◌then◌else◌, is_some, length, is_empty, Text, codes, option_eq, text_eq, path_eq,
}

abbrev pub max_tokens : ℕ
max_tokens = 1200

abbrev pub min_tokens : ℕ
min_tokens = 100

abbrev pub stub_max_tokens : ℕ
stub_max_tokens = 30

-- The type `unit` of the source.
pub record TextUnit : Type 0 where
  pub section : Option Text
  pub heading_path : List Text
  pub blocks : List Block

unfoldable pub join_texts : List Block → Text
unfolding join
join_texts blocks = join (codes "\n\n") (map (λ (b : Block). b.text) blocks)

unfoldable pub unit_text : TextUnit → Text
unfolding strip join_texts
unit_text u = strip (join_texts u.blocks)

unfoldable pub same_section : Option Text → Option Text → Bool
unfolding option_eq text_eq
same_section = option_eq text_eq

unfoldable pub is_descendant : Option Text → Option Text → Bool
unfolding starts_with
is_descendant (some child) (some parent) =
    if is_empty child || is_empty parent then false else starts_with (parent ++ b'.' ∷ []) child
is_descendant _ _ = false

-- A heading path without its last element.
unfoldable pub parent : List Text → List Text
parent [] = []
parent (h ∷ []) = []
parent (h ∷ k ∷ path) = h ∷ parent (k ∷ path)

unfoldable pub parent_or_self : List Text → List Text
unfolding parent
parent_or_self path = if ltb 1 (length path) then parent path else path

abbrev pub unit_of : Block → TextUnit
unit_of b = record { section = b.section; heading_path = b.heading_path; blocks = b ∷ [] }

unfoldable pub fits_unit : TextUnit → Block → Bool
unfolding same_section path_eq
fits_unit u b = same_section u.section b.section && path_eq u.heading_path b.heading_path

abbrev pub extend : TextUnit → Block → TextUnit
extend u b = record u { blocks = u.blocks ++ b ∷ [] }

-- The loop of `group`; `u` is the last unit so far, which the next block joins or closes.
unfoldable pub group_from : TextUnit → List Block → List TextUnit
unfolding fits_unit
group_from u [] = u ∷ []
group_from u (b ∷ bs) =
    let joined = group_from (extend u b) bs in
    let split = u ∷ group_from (unit_of b) bs in if fits_unit u b then joined else split

unfoldable pub group : List Block → List TextUnit
unfolding group_from
group [] = []
group (b ∷ bs) = group_from (unit_of b) bs

unfoldable pub mergeable : TextUnit → TextUnit → Bool
unfolding same_section path_eq parent
mergeable cur next =
    same_section next.section cur.section
    && path_eq (parent cur.heading_path) (parent next.heading_path)

abbrev pub absorb : TextUnit → TextUnit → TextUnit
absorb cur next = record {
  section = cur.section;
  heading_path = parent_or_self cur.heading_path;
  blocks = cur.blocks ++ next.blocks;
}

abbrev pub fold_into : TextUnit → TextUnit → TextUnit
fold_into cur next = record {
  section = next.section;
  heading_path = next.heading_path;
  blocks = cur.blocks ++ next.blocks;
}

module _ ⦃u : Unicode⦄ where
  unfoldable pub unit_tokens : TextUnit → ℕ
  unfolding unit_text estimate_tokens
  unit_tokens t = estimate_tokens (unit_text t)

  -- `absorbFollowing`, on the units after the current one: the grown unit, and those that are left.
  unfoldable pub absorb_following : TextUnit → List TextUnit → TextUnit × List TextUnit
  unfolding unit_tokens mergeable parent_or_self
  absorb_following cur [] = (cur, [])
  absorb_following cur (next ∷ rest) =
      let grown = absorb_following (absorb cur next) rest in
      if ltb (unit_tokens cur) min_tokens && mergeable cur next then grown else (cur, next ∷ rest)

  -- The loop of `mergeSmall`, on fuel: each round takes one unit at least.
  unfoldable pub merge_loop : ℕ → List TextUnit → List TextUnit
  unfolding absorb_following
  merge_loop zero units = []
  merge_loop (suc fuel) [] = []
  merge_loop (suc fuel) (cur ∷ rest) =
      let (merged, next) = absorb_following cur rest in merged ∷ merge_loop fuel next

  unfoldable pub merge_small : List TextUnit → List TextUnit
  unfolding merge_loop
  merge_small units = merge_loop (length units) units

  unfoldable pub is_stub : TextUnit → TextUnit → Bool
  unfolding is_descendant unit_tokens
  is_stub cur next =
      is_some cur.section
      && is_descendant next.section cur.section
      && ltb (unit_tokens cur) stub_max_tokens

  -- The loop of `foldChapterStubs`; `cur` is the unit at the index, as the round before left it.
  unfoldable pub fold_from : TextUnit → List TextUnit → List TextUnit
  unfolding is_stub
  fold_from cur [] = cur ∷ []
  fold_from cur (next ∷ rest) =
      let folded = fold_from (fold_into cur next) rest in
      let kept = cur ∷ fold_from next rest in if is_stub cur next then folded else kept

  unfoldable pub fold_chapter_stubs : List TextUnit → List TextUnit
  unfolding fold_from
  fold_chapter_stubs [] = []
  fold_chapter_stubs (cur ∷ rest) = fold_from cur rest
