-- ===== src/Chunking/Kinds/Families.antt =====
-- The map that the first loop of `ClassifyKinds` gathers.
use mathlib.Core.Bool.{false≢true}
use docsearch.Chunking.Kinds.Positions.{positions, positions-cons}
use docsearch.Document.{Chunk}
use mathlib.Core.Path.{transport}
use docsearch.Measure.{add_ordinal}
use docsearch.Pystr.{Unicode}
use docsearch.Measure.Scatter.{
  find_ordinals, has_key, Distinct, find-add, has_key-add, add-Distinct,
}
use docsearch.Chunking.Kinds.{add_member, Chunk, gather, reference_family}
use docsearch.Prelude.{
  ℕ, suc, ◌≡◌, refl, sym, ap, ◌∙◌, inl, inr, Bool, true, false, ◌||◌, Option, none, some, List, [],
  ◌∷◌, ◌++◌, append-nil, append_assoc, arith, if◌then◌else◌, Bool-cases, any, All, Text, text_eq,
  text_eq_iff,
}

add_member-add_ordinal :
    (key : Text) (i : ℕ) (m : List (Text × List ℕ)) → add_member key i m ≡ add_ordinal key i m
unfolding add_member add_ordinal
add_member-add_ordinal key i [] = refl
add_member-add_ordinal key i ((k, is) ∷ m) =
    ap (λ rest. if text_eq k key then (k, is ++ i ∷ []) ∷ m else (k, is) ∷ rest)
      (add_member-add_ordinal key i m)

abbrev pub keyed : Text → Option Text → Bool
keyed key o = elim o [ none ↦ false | some k ↦ text_eq k key ]

abbrev note_key : ℕ → Option Text → List (Text × List ℕ) → List (Text × List ℕ)
note_key i o m = elim o [ none ↦ m | some key ↦ add_member key i m ]

note_key-find :
    (key : Text) (i : ℕ) (o : Option Text) (m : List (Text × List ℕ))
    → find_ordinals key (note_key i o m)
      ≡ find_ordinals key m ++ (if keyed key o then i ∷ [] else [])
note_key-find key i none m = sym (append-nil (find_ordinals key m))
note_key-find key i (some k) m =
    ap (find_ordinals key) (add_member-add_ordinal k i m)
    ∙ ground (arith, find-add key k i m, append-nil (find_ordinals key m))

note_key-has_key :
    (key : Text) (i : ℕ) (o : Option Text) (m : List (Text × List ℕ))
    → has_key key (note_key i o m) ≡ (has_key key m || keyed key o)
note_key-has_key key i none m = ground arith
note_key-has_key key i (some k) m =
    ap (has_key key) (add_member-add_ordinal k i m) ∙ ground (arith, has_key-add key k i m)

note_key-Distinct :
    (i : ℕ) (o : Option Text) (m : List (Text × List ℕ)) → Distinct m → Distinct (note_key i o m)
note_key-Distinct i none m h = h
note_key-Distinct i (some k) m h =
    transport (ap Distinct (sym (add_member-add_ordinal k i m))) (add-Distinct k i m h)

module _ ⦃u : Unicode⦄ where
  -- The chunk stands under the heading that declares the listing `key`.
  abbrev pub in_family : Text → Chunk → Bool
  in_family key c = keyed key (reference_family c.heading_path)

  -- The members of each family are the positions of its chunks.
  abbrev pub Located : List Chunk → Text × List ℕ → Type 0
  Located cs (key, members) = members ≡ positions (in_family key) 0 cs

  pub gather-find :
      (key : Text) (i : ℕ) (cs : List Chunk) (m : List (Text × List ℕ))
      → find_ordinals key (gather i cs m) ≡ find_ordinals key m ++ positions (in_family key) i cs
  unfolding gather
  gather-find key i [] m = sym (append-nil (find_ordinals key m))
  gather-find key i (c ∷ cs) m =
      gather-find key (suc i) cs (note_key i (reference_family c.heading_path) m)
      ∙ ap (λ is. is ++ positions (in_family key) (suc i) cs)
          (note_key-find key i (reference_family c.heading_path) m)
      ∙ append_assoc (find_ordinals key m) (if in_family key c then i ∷ [] else [])
          (positions (in_family key) (suc i) cs)
      ∙ ap (◌++◌ (find_ordinals key m)) (sym (positions-cons (in_family key) i c cs))

  pub gather-Distinct :
      (i : ℕ) (cs : List Chunk) (m : List (Text × List ℕ)) → Distinct m → Distinct (gather i cs m)
  unfolding gather
  gather-Distinct i [] m h = h
  gather-Distinct i (c ∷ cs) m h =
      gather-Distinct (suc i) cs (note_key i (reference_family c.heading_path) m)
        (note_key-Distinct i (reference_family c.heading_path) m h)

  pub gather-has_key :
      (key : Text) (i : ℕ) (cs : List Chunk) (m : List (Text × List ℕ))
      → has_key key (gather i cs m) ≡ (has_key key m || any (in_family key) cs)
  unfolding gather
  gather-has_key key i [] m = ground arith
  gather-has_key key i (c ∷ cs) m =
      gather-has_key key (suc i) cs (note_key i (reference_family c.heading_path) m)
      ∙ ap (λ b. b || any (in_family key) cs)
          (note_key-has_key key i (reference_family c.heading_path) m)
      ∙ or_any (has_key key m) (in_family key) c cs
    where
      or_any :
          (b : Bool) (p : Chunk → Bool) (c : Chunk) (cs : List Chunk)
          → ((b || p c) || any p cs) ≡ (b || any p (c ∷ cs))
      or_any b p c cs = ground arith

  -- With every key once, each entry holds what is found under its key.
  pub Distinct-Located :
      (cs : List Chunk) (m : List (Text × List ℕ))
      → Distinct m
      → ((key : Text) → has_key key m ≡ true → find_ordinals key m ≡ positions (in_family key) 0 cs)
      → All (Located cs) m
  Distinct-Located cs [] h f = tt
  Distinct-Located cs ((k, os) ∷ m) h f = (head, Distinct-Located cs m h.1 tail)
    where
      head : os ≡ positions (in_family k) 0 cs
      head =
          let same : text_eq k k ≡ true = (text_eq_iff k k).1 refl in
          rw same at (f k (rw same refl))

      tail :
          (key : Text) → has_key key m ≡ true → find_ordinals key m ≡ positions (in_family key) 0 cs
      tail key e = elim (Bool-cases (text_eq k key)) [
        | inl s ↦
            absurd (false≢true (sym h.0 ∙ ap (λ j. has_key j m) ((text_eq_iff k key).0 s) ∙ e))
        | inr s ↦ rw s at (f key (rw s e))
      ]
