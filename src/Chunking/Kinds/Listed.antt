-- ===== src/Chunking/Kinds/Listed.antt =====
-- Which chunks are marked as entries of a reference listing.
use docsearch.Chunking.Kinds.Shallowest.{IsShallowest, family_from-IsShallowest}
use docsearch.Strings.{split}
use docsearch.Measure.Scatter.{has_key}
use docsearch.Chunking.Kinds.Families.{
  in_family, Located, keyed, gather-has_key, Distinct-Located, gather-Distinct, gather-find,
}
use docsearch.Chunking.Kinds.Entries.{
  is_index, KeepsPath, in_family-same, mark_if-KeepsPath, is_index-family,
  is_reference_listing-positions, any-is_index,
}
use docsearch.Chunking.Kinds.{
  mark, reference_family, mark_families, classify_kinds, is_reference_listing, gather, mark_all,
  split, path_sep,
}
use docsearch.Chunking.Kinds.Positions.{mark_if, positions-map, mark_all-positions}
use mathlib.Core.Path.{ap₂}
use docsearch.Pystr.{Unicode}
use docsearch.Document.{Chunk}
use docsearch.Prelude.{
  ℕ, ◌≡◌, refl, sym, ap, ◌∙◌, inl, inr, Bool, true, false, ◌&&◌, ◌||◌, Option, none, some, List, [],
  ◌∷◌, map, arith, if◌then◌else◌, Bool-cases, Option-cases, select, All, Text, text_eq, text_eq_iff,
}

map-fuse :
    (f g h : Chunk → Chunk)
    → ((c : Chunk) → f (g c) ≡ h c)
    → (cs : List Chunk) → map f (map g cs) ≡ map h cs
map-fuse f g h e [] = refl
map-fuse f g h e (c ∷ cs) = ap₂ ◌∷◌ (e c) (map-fuse f g h e cs)

map_same :
    (f h : Chunk → Chunk) → ((c : Chunk) → f c ≡ h c) → (cs : List Chunk) → map f cs ≡ map h cs
map_same f h e [] = refl
map_same f h e (c ∷ cs) = ap₂ ◌∷◌ (e c) (map_same f h e cs)

mark_never : (cs : List Chunk) → cs ≡ map (mark_if (λ c. false)) cs
mark_never [] = refl
mark_never (c ∷ cs) = ap (◌∷◌ c) (mark_never cs)

mark_twice :
    (a b : Bool) (c : Chunk)
    → (if a then mark (if b then mark c else c) else (if b then mark c else c))
      ≡ (if b || a then mark c else c)
mark_twice true true c = refl
mark_twice true false c = refl
mark_twice false true c = refl
mark_twice false false c = refl

and_no : (a b : Bool) → ((a && false) || b) ≡ b
and_no a b = ground arith

and_yes : (a b : Bool) → (a || b) ≡ ((a && true) || b)
and_yes a b = ground arith

first_key :
    (k key : Text) (p : Text → Bool) (b : Bool)
    → ((text_eq key k && p k) || (b && p key)) ≡ ((if text_eq k key then true else b) && p key)
first_key k key p b = elim (Bool-cases (text_eq k key)) [
  | inl e ↦
      let same : k ≡ key = (text_eq_iff k key).0 e in
      rw same (ground (arith, (text_eq_iff key key).1 refl))
  | inr e ↦ ground (arith, e, text_eq_iff k key, text_eq_iff key k)
]

module _ ⦃u : Unicode⦄ where
  -- What becomes of a chunk of the document.
  abbrev pub marked_under : List Chunk → Option Text → Chunk → Chunk
  marked_under chunks o c = elim o [
    | none ↦ c
    | some key ↦ if is_index (select (in_family key) chunks) then mark c else c
  ]

  abbrev pub reclassified : List Chunk → Chunk → Chunk
  reclassified chunks c = marked_under chunks (reference_family c.heading_path) c

  -- The chunk is in a family that is a reference index.
  abbrev listed : List Chunk → List (Text × List ℕ) → Chunk → Bool
  listed cs [] c = false
  listed cs ((key, members) ∷ rest) c =
      (in_family key c && is_index (select (in_family key) cs)) || listed cs rest c

  listed_same :
      (f : Chunk → Chunk)
      → KeepsPath f
      → (cs : List Chunk) (families : List (Text × List ℕ)) (c : Chunk)
      → listed (map f cs) families (f c) ≡ listed cs families c
  listed_same f keeps cs [] c = refl
  listed_same f keeps cs ((key, members) ∷ rest) c =
      ap₂ (λ a b. a || b)
        (ap₂ (λ a b. a && b) (in_family-same f keeps key c) (is_index-family f keeps key cs))
        (listed_same f keeps cs rest c)

  listing_test :
      (key : Text) (members : List ℕ) (cs : List Chunk)
      → Located cs (key, members)
      → is_reference_listing cs members ≡ is_index (select (in_family key) cs)
  listing_test key members cs h =
      ap (is_reference_listing cs) h ∙ is_reference_listing-positions (in_family key) cs

  Located-map :
      (f : Chunk → Chunk)
      → KeepsPath f
      → (cs : List Chunk) (families : List (Text × List ℕ)) → All (Located cs) families
      → All (Located (map f cs)) families
  Located-map f keeps cs [] h = tt
  Located-map f keeps cs ((key, members) ∷ rest) h = (
    h.0 ∙ sym (positions-map (in_family key) f (in_family-same f keeps key) 0 cs),
    Located-map f keeps cs rest h.1,
  )

  -- Marking a family first, and the rest after it.
  mark_if-index :
      (key : Text) (members : List ℕ) (rest : List (Text × List ℕ)) (cs : List Chunk)
      → is_index (select (in_family key) cs) ≡ true
      → (c : Chunk)
      → mark_if (listed (map (mark_if (in_family key)) cs) rest) (mark_if (in_family key) c)
        ≡ mark_if (listed cs ((key, members) ∷ rest)) c
  mark_if-index key members rest cs index c =
      ap (λ b. if b then mark (mark_if (in_family key) c) else mark_if (in_family key) c)
        (listed_same (mark_if (in_family key)) (mark_if-KeepsPath (in_family key)) cs rest c)
      ∙ mark_twice (listed cs rest c) (in_family key c) c
      ∙ ap (λ b. if b then mark c else c)
          (and_yes (in_family key c) (listed cs rest c)
            ∙ ap (λ b. (in_family key c && b) || listed cs rest c) (sym index))

  mark_if-no_index :
      (key : Text) (members : List ℕ) (rest : List (Text × List ℕ)) (cs : List Chunk)
      → is_index (select (in_family key) cs) ≡ false
      → (c : Chunk) → mark_if (listed cs rest) c ≡ mark_if (listed cs ((key, members) ∷ rest)) c
  mark_if-no_index key members rest cs no_index c =
      ap (λ b. if b then mark c else c)
        (sym (
          ap (λ b. (in_family key c && b) || listed cs rest c) no_index
          ∙ and_no (in_family key c) (listed cs rest c)))

  mark_families-map :
      (families : List (Text × List ℕ)) (cs : List Chunk)
      → All (Located cs) families
      → mark_families families cs ≡ map (mark_if (listed cs families)) cs
  unfolding mark_families
  mark_families-map [] cs h = mark_never cs
  mark_families-map ((key, members) ∷ rest) cs h =
      elim (Bool-cases (is_reference_listing cs members)) [
        | inl b ↦
            let index : is_index (select (in_family key) cs) ≡ true =
              sym (listing_test key members cs h.0) ∙ b in
            rw b (
              ap (mark_families rest)
                (ap (λ is. mark_all is cs) h.0 ∙ mark_all-positions (in_family key) cs)
              ∙ mark_families-map rest (map (mark_if (in_family key)) cs) (
                  Located-map (mark_if (in_family key)) (mark_if-KeepsPath (in_family key)) cs rest
                    h.1)
              ∙ map-fuse (mark_if (listed (map (mark_if (in_family key)) cs) rest))
                  (mark_if (in_family key)) (mark_if (listed cs ((key, members) ∷ rest)))
                  (λ c. mark_if-index key members rest cs index c) cs)
        | inr b ↦
            let no_index : is_index (select (in_family key) cs) ≡ false =
              sym (listing_test key members cs h.0) ∙ b in
            rw b (
              mark_families-map rest cs h.1
              ∙ map_same (mark_if (listed cs rest)) (mark_if (listed cs ((key, members) ∷ rest)))
                  (λ c. mark_if-no_index key members rest cs no_index c) cs)
      ]

  -- A chunk is listed exactly when the family of its own key is an index.
  listed-keyed :
      (cs : List Chunk) (families : List (Text × List ℕ)) (c : Chunk) (key : Text)
      → reference_family c.heading_path ≡ some key
      → listed cs families c ≡ (has_key key families && is_index (select (in_family key) cs))
  listed-keyed cs [] c key h = refl
  listed-keyed cs ((k, members) ∷ rest) c key h =
      ap (λ o. (keyed k o && is_index (select (in_family k) cs)) || listed cs rest c) h
      ∙ ap (λ b. (text_eq key k && is_index (select (in_family k) cs)) || b)
          (listed-keyed cs rest c key h)
      ∙ first_key k key (λ j. is_index (select (in_family j) cs)) (has_key key rest)

  listed-unkeyed :
      (cs : List Chunk) (families : List (Text × List ℕ)) (c : Chunk)
      → reference_family c.heading_path ≡ none
      → listed cs families c ≡ false
  listed-unkeyed cs [] c h = refl
  listed-unkeyed cs ((k, members) ∷ rest) c h = rw h (listed-unkeyed cs rest c h)

  classify_kinds-reclassified : (cs : List Chunk) → classify_kinds cs ≡ map (reclassified cs) cs
  unfolding classify_kinds
  classify_kinds-reclassified cs =
      mark_families-map (gather 0 cs []) cs (
        Distinct-Located cs (gather 0 cs []) (gather-Distinct 0 cs [] tt)
          (λ key h. gather-find key 0 cs []))
      ∙ map_same (mark_if (listed cs (gather 0 cs []))) (reclassified cs) same cs
    where
      same : (c : Chunk) → mark_if (listed cs (gather 0 cs [])) c ≡ reclassified cs c
      same c = elim (Option-cases (reference_family c.heading_path)) [
        | inl h ↦ rw (h, listed-unkeyed cs (gather 0 cs []) c h) refl
        | inr (key, h) ↦
            rw
              (
                h,
                listed-keyed cs (gather 0 cs []) c key h
                    ∙ ap (λ b. b && is_index (select (in_family key) cs))
                        (gather-has_key key 0 cs [])
                    ∙ any-is_index (in_family key) cs,
              )
              refl
      ]

  -- A chunk is marked as an entry of a reference listing exactly when the shallowest heading above
  -- it that declares a listing has 30 chunks or more under it, at least three fifths of them with
  -- short names; no other chunk, and nothing else of a chunk, is changed. A chunk's family is the
  -- path down to that heading: its own heading is not asked, none above that one declares a listing,
  -- and a chunk without such a heading has none.
  pub classify_kinds-map :
      (cs : List Chunk)
      → (classify_kinds cs ≡ map (reclassified cs) cs)
        × ((path : Text) → IsShallowest [] (split path_sep path) (reference_family path))
  unfolding reference_family
  classify_kinds-map cs =
      (classify_kinds-reclassified cs, λ path. family_from-IsShallowest [] (split path_sep path))
