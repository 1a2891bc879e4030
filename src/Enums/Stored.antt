-- ===== src/Enums/Stored.antt =====
-- Stored texts of `enumText`, and what they are read back as.
use docsearch.Enums.Tables.{lookup, invert, marshal, parse, new_enum_text}
use docsearch.Prelude.{
  ◌≡◌, ◌↔◌, inl, inr, Bool, true, none, some, List, [], ◌∷◌, arith, Bool-cases, Text, text_eq, ap,
  text_eq_iff, some-injective,
}

-- No value and no text stands twice.
abbrev pub Unique : {T : Type 0} → (T → T → Bool) → List (T × Text) → Type 0
Unique eq [] = Unit
Unique eq ((v, name) ∷ rest) =
    (lookup eq v rest ≡ none) × (lookup text_eq name (invert rest) ≡ none) × Unique eq rest

module _ {T : Type 0} (eq : T → T → Bool) (eq_iff : (a b : T) → (eq a b ≡ true) ↔ (a ≡ b)) where
  lookup-invert :
      (names : List (T × Text)) (v : T) (text : Text)
      → Unique eq names
      → (lookup eq v names ≡ some text) ↔ (lookup text_eq text (invert names) ≡ some v)
  unfolding lookup invert
  lookup-invert [] v text h = ground arith
  lookup-invert ((w, name) ∷ rest) v text h = elim (Bool-cases (eq w v)) [
    | inl e ↦ elim (Bool-cases (text_eq name text)) [
      | inl k ↦
          rw (e, k) ((λ g. ap some ((eq_iff w v).0 e), λ g. ap some ((text_eq_iff name text).0 k)))
      | inr k ↦
          rw (e, k)
            ((
              λ g. cc ((text_eq_iff name text).1 (some-injective g), k),
              λ g. cc ((lookup-invert rest v text h.2).1 g, (eq_iff w v).0 e, h.0),
            ))
    ]
    | inr e ↦ elim (Bool-cases (text_eq name text)) [
      | inl k ↦
          rw (e, k)
            ((
              λ g. cc ((lookup-invert rest v text h.2).0 g, (text_eq_iff name text).0 k, h.1),
              λ g. cc ((eq_iff w v).1 (some-injective g), e),
            ))
      | inr k ↦ rw (e, k) (lookup-invert rest v text h.2)
    ]
  ]

  -- Where no value and no text stands twice in a table, a value is stored as a text exactly when
  -- the text reads back as the value; no other text is read as a value.
  pub marshal-parse_iff :
      (names : List (T × Text)) (v : T) (text : Text)
      → Unique eq names
      → (marshal (new_enum_text eq names) v ≡ some text)
        ↔ (parse (new_enum_text eq names) text ≡ some v)
  unfolding marshal parse new_enum_text
  marshal-parse_iff names v text h = lookup-invert names v text h
