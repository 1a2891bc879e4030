-- ===== src/Measure/Scatter.antt =====
-- Which sections are reported as scattered.
use docsearch.Document.{Chunk}
use docsearch.Measure.{
  section_key, add_ordinal, scattered_keys, section_ordinals, contiguous, note_ordinal,
  scattered_sections, text_leb,
}
use docsearch.Prelude.{
  ℕ, ◌≡◌, refl, sym, inl, inr, Bool, true, false, not, none, some, List, [], ◌∷◌, ◌++◌, map,
  append-nil, arith, if◌then◌else◌, Bool-cases, select, any, Text, text_eq, text_eq_iff, ap, ◌∙◌,
  append_assoc, Option-cases, any-sort,
}

abbrev pub find_ordinals : Text → List (Text × List ℕ) → List ℕ
find_ordinals key [] = []
find_ordinals key ((k, os) ∷ rest) = if text_eq k key then os else find_ordinals key rest

-- The chunks of a section, by its text.
unfoldable pub in_section : Text → Chunk → Bool
in_section key c = elim (section_key c) [ none ↦ false | some s ↦ text_eq s key ]

-- The ordinals of a section's chunks, in the order of the document.
abbrev pub ordinals_of : Text → List Chunk → List ℕ
ordinals_of key cs = map (λ (c : Chunk). c.ordinal) (select (in_section key) cs)

pub find-add :
    (key k : Text) (o : ℕ) (m : List (Text × List ℕ))
    → find_ordinals key (add_ordinal k o m)
      ≡ (if text_eq k key then find_ordinals key m ++ o ∷ [] else find_ordinals key m)
unfolding add_ordinal
find-add key k o [] = refl
find-add key k o ((j, os) ∷ m) =
    ground (arith, find-add key k o m, text_eq_iff j key, text_eq_iff k key, text_eq_iff j k)

-- No key stands twice.
abbrev pub has_key : Text → List (Text × List ℕ) → Bool
has_key key [] = false
has_key key ((k, os) ∷ rest) = if text_eq k key then true else has_key key rest

abbrev pub Distinct : List (Text × List ℕ) → Type 0
Distinct [] = Unit
Distinct ((k, os) ∷ rest) = (has_key k rest ≡ false) × Distinct rest

pub has_key-add :
    (key k : Text) (o : ℕ) (m : List (Text × List ℕ))
    → has_key key (add_ordinal k o m) ≡ (if text_eq k key then true else has_key key m)
unfolding add_ordinal
has_key-add key k o [] = refl
has_key-add key k o ((j, os) ∷ m) =
    ground (arith, has_key-add key k o m, text_eq_iff j key, text_eq_iff k key, text_eq_iff j k)

pub add-Distinct :
    (k : Text) (o : ℕ) (m : List (Text × List ℕ)) → Distinct m → Distinct (add_ordinal k o m)
unfolding add_ordinal
add-Distinct k o [] h = (refl, tt)
add-Distinct k o ((j, os) ∷ m) h = elim (Bool-cases (text_eq j k)) [
  | inl e ↦ rw e (h)
  | inr e ↦ rw e (
      (
        ground (arith, has_key-add j k o m, text_eq_iff k j, text_eq_iff j k, e),
        add-Distinct k o m h.1,
      ))
]

has_key-false :
    (key : Text) (m : List (Text × List ℕ)) → has_key key m ≡ false → find_ordinals key m ≡ []
has_key-false key [] h = refl
has_key-false key ((k, os) ∷ m) h = ground (arith, has_key-false key m)

unkeyed :
    (key : Text) (m : List (Text × List ℕ))
    → has_key key m ≡ false
    → any (λ k. text_eq k key) (scattered_keys m) ≡ false
unfolding scattered_keys
unkeyed key [] h = refl
unkeyed key ((k, os) ∷ m) h = ground (arith, unkeyed key m)

scattered_keys-any :
    (key : Text) (m : List (Text × List ℕ))
    → Distinct m
    → any (λ k. text_eq k key) (scattered_keys m) ≡ not (contiguous (find_ordinals key m))
unfolding scattered_keys
scattered_keys-any key [] h = unfold contiguous in refl
scattered_keys-any key ((k, os) ∷ m) h = elim (Bool-cases (text_eq k key)) [
  | inl e ↦
      let same : k ≡ key = (text_eq_iff k key).0 e in
      rw e (ground (arith, e, unkeyed key m, rw same at h.0))
  | inr e ↦ rw e (ground (arith, e, scattered_keys-any key m h.1))
]

note_ordinal-find :
    (key : Text) (m : List (Text × List ℕ)) (c : Chunk)
    → find_ordinals key (note_ordinal m c) ≡ find_ordinals key m ++ ordinals_of key (c ∷ [])
unfolding note_ordinal in_section
note_ordinal-find key m c = elim (Option-cases (section_key c)) [
  | inl e ↦ ground (arith, e, append-nil (find_ordinals key m))
  | inr (s, e) ↦ ground (arith, e, find-add key s c.ordinal m, append-nil (find_ordinals key m))
]

ordinals_of-cons :
    (key : Text) (c : Chunk) (cs : List Chunk)
    → ordinals_of key (c ∷ cs) ≡ ordinals_of key (c ∷ []) ++ ordinals_of key cs
ordinals_of-cons key c cs = ground arith

section_ordinals-find :
    (key : Text) (m : List (Text × List ℕ)) (cs : List Chunk)
    → find_ordinals key (section_ordinals m cs) ≡ find_ordinals key m ++ ordinals_of key cs
unfolding section_ordinals
section_ordinals-find key m [] = sym (append-nil (find_ordinals key m))
section_ordinals-find key m (c ∷ cs) =
    section_ordinals-find key (note_ordinal m c) cs
    ∙ ap (λ os. os ++ ordinals_of key cs) (note_ordinal-find key m c)
    ∙ append_assoc (find_ordinals key m) (ordinals_of key (c ∷ [])) (ordinals_of key cs)
    ∙ ap (◌++◌ (find_ordinals key m)) (sym (ordinals_of-cons key c cs))

note_ordinal-Distinct :
    (m : List (Text × List ℕ)) (c : Chunk) → Distinct m → Distinct (note_ordinal m c)
unfolding note_ordinal
note_ordinal-Distinct m c h = elim (Option-cases (section_key c)) [
  | inl e ↦ rw (e, note_ordinal) h
  | inr (s, e) ↦ rw (e, note_ordinal) (add-Distinct s c.ordinal m h)
]

section_ordinals-Distinct :
    (m : List (Text × List ℕ)) (cs : List Chunk) → Distinct m → Distinct (section_ordinals m cs)
unfolding section_ordinals
section_ordinals-Distinct m [] h = h
section_ordinals-Distinct m (c ∷ cs) h =
    section_ordinals-Distinct (note_ordinal m c) cs (note_ordinal-Distinct m c h)

-- A section is reported as scattered exactly when the ordinals of its chunks, in the order of the
-- document, do not run on without a gap from the first.
pub scattered_sections-any :
    (key : Text) (cs : List Chunk)
    → any (λ k. text_eq k key) (scattered_sections cs) ≡ not (contiguous (ordinals_of key cs))
unfolding scattered_sections
scattered_sections-any key cs =
    any-sort text_leb (λ k. text_eq k key) (scattered_keys (section_ordinals [] cs))
    ∙ scattered_keys-any key (section_ordinals [] cs) (section_ordinals-Distinct [] cs tt)
    ∙ ap (λ os. not (contiguous os)) (section_ordinals-find key [] cs)
