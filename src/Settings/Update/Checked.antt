-- ===== src/Settings/Update/Checked.antt =====
-- What a refused change leaves, and how the others are parted.
use docsearch.Maps.{get, assign, get-assign}
use docsearch.Results.{err, Result-cases, Result, >>=-eq-ok, ok-injective}
use docsearch.Settings.Update.{
  Places, Editable, Origin, Change, sort_from, Value, check, Error, is_file, removed, key_under,
  err, origin_of, typed, get, ok, update_settings, check_found, update_sorted, check_editable,
  part_changes,
}
use docsearch.Prelude.{
  ◌≡◌, refl, inl, inr, Bool, true, false, ◌&&◌, Option, none, some, List, [], ◌∷◌, arith,
  if◌then◌else◌, any, Text, text_eq, ap, not, ◌++◌, select, sym, ◌∙◌, append-nil, append_assoc,
}

abbrev pub fails : {E A : Type 0} → Result E A → Bool
fails (ok a) = false
fails (err e) = true

module _ {W : Type 0} (places : Places W) (editable : List (Text × Editable))
    (origins : List (Text × Origin)) where
  abbrev pub goes_to_file : Change → Bool
  goes_to_file change = is_file (origin_of (get change.flag origins))

  abbrev pub is_refused_change : Change → Bool
  is_refused_change change = fails (check places editable origins change)

  sort_from-refused :
      (changes : List Change) (in_file : List (Text × Value)) (kept : List Change)
      → any is_refused_change changes ≡ true
      → (e : Error) × (sort_from places editable origins in_file kept changes ≡ err e)
  unfolding sort_from
  sort_from-refused [] in_file kept h = cc h
  sort_from-refused (change ∷ changes) in_file kept h =
      elim (Result-cases (check places editable origins change)) [
        | inl (e, passed) ↦ rw passed (
            sort_from-refused changes
              (if goes_to_file change then assign e.key (typed e change.value) in_file else in_file)
              (if goes_to_file change then kept else kept ++ change ∷ [])
              (ground (arith, h, ap fails passed)))
        | inr (e, failed) ↦ rw failed (e, refl)
      ]

  -- When one of the changes is refused, an update fails and nothing is read or stored: the world
  -- is as it was.
  pub update-refused :
      (changes : List Change) (w : W)
      → any is_refused_change changes ≡ true
      → (e : Error) × (update_settings places editable origins changes w ≡ (err e, w))
  unfolding update_settings update_sorted
  update-refused changes w h =
      let refused = sort_from-refused changes [] [] h in (refused.0, rw refused.1 refl)

  abbrev pub typed_under : Option Editable → Text → Value
  typed_under none value = removed
  typed_under (some e) value = typed e value

  -- The value of the last change to a key, of those that go into the file.
  abbrev pub last_value : Text → List Change → Option Value → Option Value
  last_value key [] found = found
  last_value key (c ∷ cs) found = last_value key cs (
      if goes_to_file c && text_eq (key_under places editable origins (get c.flag editable)) key
      then some (typed_under (get c.flag editable) c.value)
      else found)

  check_found-editable :
      (o : Option Editable) (change : Change) (e : Editable)
      → check_found places editable origins o change ≡ ok e
      → o ≡ some e
  unfolding check_found check_editable
  check_found-editable none change e h = cc h
  check_found-editable (some f) change e h = ground (arith, h)

  sort_from-parts :
      (changes : List Change) (in_file : List (Text × Value)) (kept : List Change)
      (file : List (Text × Value)) (stored : List Change) (key : Text)
      → sort_from places editable origins in_file kept changes ≡ ok (file, stored)
      → (stored ≡ kept ++ select (λ c. not (goes_to_file c)) changes)
        × (get key file ≡ last_value key changes (get key in_file))
  unfolding sort_from
  sort_from-parts [] in_file kept file stored key h =
      let same = ok-injective h in
      (sym (ap (λ p. p.1) same) ∙ sym (append-nil kept), sym (ap (λ p. get key p.0) same))
  sort_from-parts (change ∷ changes) in_file kept file stored key h =
      let step = >>=-eq-ok (check places editable origins change) _ (file, stored) h in
      let found = check_found-editable (get change.flag editable) change step.0 step.1 in
      rw found (
        by_place (goes_to_file change) step.0 (
          sort_from-parts changes
            (if goes_to_file change
              then assign step.0.key (typed step.0 change.value) in_file
              else in_file)
            (if goes_to_file change then kept else kept ++ change ∷ []) file stored key step.2))
    where
      by_place :
          (b : Bool) (e : Editable)
          → (stored
              ≡ (if b then kept else kept ++ change ∷ [])
                ++ select (λ c. not (goes_to_file c)) changes)
            × (get key file
                ≡ last_value key changes
                    (get key (if b then assign e.key (typed e change.value) in_file else in_file)))
          → (stored
              ≡ kept ++ (elim (not b) [
                | true ↦ change ∷ select (λ c. not (goes_to_file c)) changes
                | false ↦ select (λ c. not (goes_to_file c)) changes
              ]))
            × (get key file
                ≡ last_value key changes (
                    if b && text_eq e.key key
                    then some (typed e change.value)
                    else get key in_file))
      by_place true e ih = (
        ih.0,
        ih.1 ∙ ap (last_value key changes) (get-assign key e.key (typed e change.value) in_file),
      )
      by_place false e ih = (ih.0 ∙ append_assoc kept (change ∷ []) _, ih.1)

  -- When the changes are parted, those that are kept are the ones to settings that the file does not
  -- hold, in their order, and what the file gets under a key is the value of the last change to it
  -- of those to settings that the file holds.
  pub part_changes-splits :
      (changes : List Change) (file : List (Text × Value)) (stored : List Change) (key : Text)
      → part_changes places editable origins changes ≡ ok (file, stored)
      → (stored ≡ select (λ c. not (goes_to_file c)) changes)
        × (get key file ≡ last_value key changes none)
  unfolding part_changes get
  part_changes-splits changes file stored key h = sort_from-parts changes [] [] file stored key h
