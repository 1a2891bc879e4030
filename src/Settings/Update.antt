-- ===== src/Settings/Update.antt =====
-- A change of settings: it is checked, and goes into the file or the database.
pub mod Checked
use docsearch.Settings.Diff.{changed_lines}
use docsearch.Maps.{has, get, assign}
use docsearch.Results.{◌>>=◌, Result, err, ok, or_err}
use docsearch.Prelude.{
  ℕ, Bool, true, false, not, ◌&&◌, ◌||◌, Option, none, some, List, [], ◌∷◌, ◌++◌, arith,
  if◌then◌else◌, is_some, is_empty, Text, codes, text_eq,
}

pub record Editable : Type 0 where
  pub key : Text
  pub choices : List Text
  pub boolean : Bool
  pub url : Bool

pub record Change : Type 0 where
  pub flag : Text
  pub value : Text

pub data Origin : Type 0 where
  from_flag from_env from_file from_database from_default unknown : Origin

-- `any` as the file holds it: nil, a bool or a string.
pub data Value : Type 0 where
  removed : Value
  truth : Bool → Value
  words : Text → Value

pub data Error : Type 0 where
  not_editable : Text → Error
  locked : Text → Error
  invalid : Text → Text → Error
  cause : Text → Error

pub record Outcome : Type 0 where
  pub file : Text
  pub changed : List ℕ
  pub saved : Bool

-- The database, the file and `Rewrite` of its content; `http_url` is `config.HTTPURL`.
pub record Places (W : Type 0) : Type 0 where
  pub set : Text → Option Text → W → Option Text × W
  pub read : W → Result Text Text × W
  pub rewrite : Text → List (Text × Value) → Result Text Text
  pub http_url : Text → Bool

abbrev true_text : Text
true_text = codes "true"

abbrev false_text : Text
false_text = codes "false"

abbrev pub origin_of : Option Origin → Origin
origin_of none = unknown
origin_of (some o) = o

abbrev pub is_stronger : Origin → Bool
is_stronger from_flag = true
is_stronger from_env = true
is_stronger from_file = false
is_stronger from_database = false
is_stronger from_default = false
is_stronger unknown = false

abbrev pub is_file : Origin → Bool
is_file from_file = true
is_file from_flag = false
is_file from_env = false
is_file from_database = false
is_file from_default = false
is_file unknown = false

unfoldable pub typed : Editable → Text → Value
unfolding text_eq
typed e value =
    if is_empty value
    then removed
    else if e.boolean
    then truth (text_eq value true_text)
    else words value

module _ {W : Type 0} (places : Places W) (editable : List (Text × Editable))
    (origins : List (Text × Origin)) where
  -- The value is one that the setting can hold.
  unfoldable pub takes : Editable → Change → Bool
  unfolding has text_eq
  takes e change =
      not (e.url && not (places.http_url change.value))
      && (not (not (is_empty e.choices) && not (has change.value e.choices))
          && not (
              e.boolean
              && (not (text_eq change.value true_text) && not (text_eq change.value false_text))))

  unfoldable pub check_editable : Editable → Change → Result Error Editable
  unfolding takes get
  check_editable e change =
      if is_stronger (origin_of (get change.flag origins))
      then err (locked change.flag)
      else if is_empty change.value || takes e change
      then ok e
      else err (invalid change.flag change.value)

  unfoldable pub check_found : Option Editable → Change → Result Error Editable
  unfolding check_editable
  check_found none change = err (not_editable change.flag)
  check_found (some e) change = check_editable e change

  unfoldable pub check : Change → Result Error Editable
  unfolding check_found get
  check change = check_found (get change.flag editable) change

  -- The loop of `sort`, with what it has parted so far.
  unfoldable pub sort_from :
      List (Text × Value)
      → List Change
      → List Change
      → Result Error (List (Text × Value) × List Change)
  unfolding check assign typed
  sort_from in_file kept [] = ok (in_file, kept)
  sort_from in_file kept (change ∷ changes) = check change >>= λ e.
      (let file = is_file (origin_of (get change.flag origins)) in
        sort_from (if file then assign e.key (typed e change.value) in_file else in_file)
          (if file then kept else kept ++ change ∷ []) changes)

  unfoldable pub part_changes : List Change → Result Error (List (Text × Value) × List Change)
  unfolding sort_from
  part_changes changes = sort_from [] [] changes

  abbrev pub key_under : Option Editable → Text
  key_under none = []
  key_under (some e) = e.key

  -- The value that the database keeps; an empty one forgets the key.
  abbrev pub kept_value : Text → Option Text
  kept_value value = if is_empty value then none else some value

  -- `keep`, which ends at the first error.
  unfoldable pub keep : List Change → W → Option Text × W
  unfolding get
  keep [] w = (none, w)
  keep (change ∷ changes) w =
      let stored = places.set (key_under (get change.flag editable)) (kept_value change.value) w in
      let rest = keep changes stored.1 in if is_some stored.0 then stored else rest

  -- `rewrite`: the file is read and rewritten.
  unfoldable pub rewritten : List (Text × Value) → Result Text Text × W → Result Error Outcome × W
  unfolding changed_lines
  rewritten in_file (err e, w) = (err (cause e), w)
  rewritten in_file (ok before, w) = (
    or_err cause (places.rewrite before in_file) >>= λ after.
        ok (record { file = after; changed = changed_lines before after; saved = false }),
    w,
  )

  abbrev pub stored_or : Outcome → Option Text × W → Result Error Outcome × W
  stored_or outcome (none, w) = (ok (record outcome { saved = true }), w)
  stored_or outcome (some e, w) = (err (cause e), w)

  -- The end of `Update`, on what came of the file.
  unfoldable pub finish : List Change → Result Error Outcome × W → Result Error Outcome × W
  unfolding keep
  finish kept (err e, w) = (err e, w)
  finish kept (ok outcome, w) =
      if is_empty kept then (ok outcome, w) else stored_or outcome (keep kept w)

  abbrev pub no_outcome : Outcome
  no_outcome = record { file = []; changed = []; saved = false }

  unfoldable pub update_sorted :
      Result Error (List (Text × Value) × List Change) → W → Result Error Outcome × W
  unfolding rewritten finish
  update_sorted (err e) w = (err e, w)
  update_sorted (ok (in_file, kept)) w =
      finish kept
        (if is_empty in_file then (ok no_outcome, w) else rewritten in_file (places.read w))

  -- `Update`.
  unfoldable pub update_settings : List Change → W → Result Error Outcome × W
  unfolding update_sorted part_changes
  update_settings changes w = update_sorted (part_changes changes) w
