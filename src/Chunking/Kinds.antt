-- ===== src/Chunking/Kinds.antt =====
-- `ClassifyKinds`: chunks under a heading that declares a listing, in a family that looks like
-- one, are marked. The pattern `referenceParent` is written out: its alternatives begin with
-- different letters, and no way to match a run of white space but the longest reaches a letter,
-- so the first match at a place is the only one.
pub mod Marks
pub mod Positions
pub mod Families
pub mod Entries
pub mod Shallowest
pub mod Listed
use docsearch.Enums.{ChunkKind}
use docsearch.Strings.{join, split, last_index}
use docsearch.Document.{Chunk}
use docsearch.Pystr.{is_space, Unicode, trim_left, is_word, is_letter}
use docsearch.Prelude.{
  ℕ, zero, suc, ◌+◌, ◌-◌, ◌*◌, Bool, true, false, not, ◌&&◌, ◌||◌, Option, none, some, List, [],
  ◌∷◌, ◌++◌, arith, ltb, leb, ◌==◌, if◌then◌else◌, length, get_elem?, drop, count_if, Text, codes,
  text_eq, ◌>>=◌,
}

abbrev pub reference_family_min : ℕ
reference_family_min = 30

abbrev pub reference_leaf_max_words : ℕ
reference_leaf_max_words = 4

abbrev pub path_sep : Text
path_sep = codes " > "

-- A letter of the pattern matches itself and its case folds, which for `k` and `s` lie outside ASCII.
unfoldable pub same_fold : ℕ → ℕ → Bool
same_fold p r = r == p || r + 32 == p || p == b'k' && r == 0x212a || p == b's' && r == 0x17f

-- What is left of the text behind a literal of the pattern.
unfoldable pub match_word : Text → Text → Option Text
unfolding same_fold
match_word [] s = some s
match_word (p ∷ ps) [] = none
match_word (p ∷ ps) (c ∷ cs) = let rest = match_word ps cs in if same_fold p c then rest else none

unfoldable pub match_first : List Text → Text → Option Text
unfolding match_word
match_first [] s = none
match_first (w ∷ ws) s = elim (match_word w s) [ some rest ↦ some rest | none ↦ match_first ws s ]

unfoldable pub optional_s : Text → Text
unfolding same_fold
optional_s [] = []
optional_s (c ∷ cs) = if same_fold b's' c then cs else c ∷ cs

-- One white space at least, and all that follow.
unfoldable pub match_spaces : Text → Option Text
unfolding is_space trim_left
match_spaces [] = none
match_spaces (c ∷ cs) = if is_space c then some (trim_left cs) else none

-- What is left behind a match of the pattern at this place.
unfoldable pub match_reference : Text → Option Text
unfolding match_first optional_s match_spaces
match_reference s = elim (match_word (codes "keyword") s) [
  | some rest ↦ some (optional_s rest)
  | none ↦ elim (match_word (codes "glossary") s) [
    | some rest ↦ some rest
    | none ↦ elim (match_word (codes "error") s) [
      | some rest ↦ do
        gap ← match_spaces rest
        found ← match_first (codes "code" ∷ codes "message" ∷ []) gap
        some (optional_s found)
      | none ↦ do
        rest ←
            match_first (codes "command" ∷ codes "api" ∷ codes "syntax" ∷ codes "function" ∷ []) s
        gap ← match_spaces rest
        match_first (codes "reference" ∷ codes "index" ∷ codes "listing" ∷ []) gap
    ]
  ]
]

-- `chunks[i]` of each member; a member is the index of a chunk.
unfoldable pub members_of : List Chunk → List ℕ → List Chunk
members_of chunks [] = []
members_of chunks (i ∷ is) = elim (get_elem? chunks i) [
  | none ↦ members_of chunks is
  | some c ↦ c ∷ members_of chunks is
]

module _ ⦃u : Unicode⦄ where
  unfoldable pub is_bound : Option ℕ → Bool
  unfolding is_word
  is_bound none = true
  is_bound (some r) = not (is_word r)

  abbrev first_rune : Text → Option ℕ
  first_rune [] = none
  first_rune (c ∷ cs) = some c

  -- The loop of `declaresListing` over the matches, none of which overlap: `before` is the rune
  -- behind, and `skip` runes of the last match are still to be passed over.
  unfoldable pub declares_from : Option ℕ → ℕ → Text → Bool
  unfolding match_reference is_bound
  declares_from before skip [] = false
  declares_from before (suc skip) (c ∷ cs) = declares_from (some c) skip cs
  declares_from before zero (c ∷ cs) = elim (match_reference (c ∷ cs)) [
    | none ↦ declares_from (some c) 0 cs
    | some rest ↦
        let later = declares_from (some c) (length cs - length rest) cs in
        if is_bound before && is_bound (first_rune rest) then true else later
  ]

  unfoldable pub declares_listing : Text → Bool
  unfolding declares_from
  declares_listing heading = declares_from none 0 heading

  -- The loop of `referenceFamily`; `above` are the headings passed so far. The leaf is never asked.
  unfoldable pub family_from : List Text → List Text → Option Text
  unfolding declares_listing join
  family_from above [] = none
  family_from above (leaf ∷ []) = none
  family_from above (h ∷ k ∷ below) =
      let deeper = family_from (above ++ h ∷ []) (k ∷ below) in
      if declares_listing h then some (join path_sep (above ++ h ∷ [])) else deeper

  unfoldable pub reference_family : Text → Option Text
  unfolding family_from split
  reference_family heading_path = family_from [] (split path_sep heading_path)

  -- The loop of `letterWords`.
  unfoldable pub letter_words_from : Bool → ℕ → Text → ℕ
  unfolding is_letter
  letter_words_from in_word words [] = words
  letter_words_from in_word words (r ∷ rs) =
      let letter = is_letter r in
      letter_words_from letter (if letter && not in_word then words + 1 else words) rs

  unfoldable pub letter_words : Text → ℕ
  unfolding letter_words_from
  letter_words s = letter_words_from false 0 s

  unfoldable pub leaf_of : Text → Text
  unfolding last_index
  leaf_of path = elim (last_index path_sep path) [
    | none ↦ path
    | some i ↦ drop (i + length path_sep) path
  ]

  unfoldable pub is_named : Chunk → Bool
  unfolding letter_words leaf_of
  is_named c = leb (letter_words (leaf_of c.heading_path)) reference_leaf_max_words

  -- The rate 0.6 is compared in whole numbers.
  unfoldable pub is_reference_listing : List Chunk → List ℕ → Bool
  unfolding is_named members_of
  is_reference_listing chunks members =
      if ltb (length members) reference_family_min
      then false
      else leb (length members * 6) (count_if is_named (members_of chunks members) * 10)

-- The map `families`, as an association list.
unfoldable pub add_member : Text → ℕ → List (Text × List ℕ) → List (Text × List ℕ)
unfolding text_eq
add_member key i [] = (key, i ∷ []) ∷ []
add_member key i ((k, is) ∷ rest) =
    if text_eq k key then (k, is ++ i ∷ []) ∷ rest else (k, is) ∷ add_member key i rest

module _ ⦃u : Unicode⦄ where
  -- The first loop of `ClassifyKinds`, at index `i`.
  unfoldable pub gather : ℕ → List Chunk → List (Text × List ℕ) → List (Text × List ℕ)
  unfolding add_member
  gather i [] families = families
  gather i (c ∷ cs) families = gather (suc i) cs (elim (reference_family c.heading_path) [
    | none ↦ families
    | some key ↦ add_member key i families
  ])

abbrev pub mark : Chunk → Chunk
mark c = record c { kind = ChunkKind.keyword_reference }

unfoldable pub mark_at : ℕ → List Chunk → List Chunk
mark_at i [] = []
mark_at zero (c ∷ cs) = mark c ∷ cs
mark_at (suc i) (c ∷ cs) = c ∷ mark_at i cs

unfoldable pub mark_all : List ℕ → List Chunk → List Chunk
unfolding mark_at
mark_all [] chunks = chunks
mark_all (i ∷ is) chunks = mark_all is (mark_at i chunks)

module _ ⦃u : Unicode⦄ where
  -- The second loop. Go ranges over the map in any order; the families are disjoint.
  unfoldable pub mark_families : List (Text × List ℕ) → List Chunk → List Chunk
  unfolding is_reference_listing mark_all
  mark_families [] chunks = chunks
  mark_families ((key, members) ∷ rest) chunks =
      mark_families rest
        (if is_reference_listing chunks members then mark_all members chunks else chunks)

  unfoldable pub classify_kinds : List Chunk → List Chunk
  unfolding gather mark_families
  classify_kinds chunks = mark_families (gather 0 chunks []) chunks
