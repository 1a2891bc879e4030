-- ===== src/Sync/Plan/Safe.antt =====
-- Which documents a plan pushes and which it retires.
use docsearch.Upload.{target}
use docsearch.Strings.{starts_with}
use docsearch.Sync.Queue.{is_reading, latest, read_queue-latest, refused_by}
use docsearch.Maps.{get, assign, get-assign, has}
use docsearch.Sync.Plan.{
  by_source, decide, with_copy, is_refused, is_current, choose, decisions, kept, is_retired,
  retirements, plan, retire_of, push_of,
}
use docsearch.Sync.{
  push_kind, skip_kind, retire_kind, Action, Held, Shown, get, Options, Job, starts_with, key,
  target, read_queue, QueueState,
}
use docsearch.Prelude.{
  ◌≡◌, refl, ap, ◌∙◌, Bool, true, false, not, ◌&&◌, Option, none, some, List, [], ◌∷◌, ◌++◌, arith,
  if◌then◌else◌, is_empty, any, Text, codes, text_eq, ℕ, ◌==◌, any-append, ◌||◌, ltb, leb,
  text_eq_iff,
}

abbrev is_push : Action → Bool
is_push a = elim a.kind [ push_kind ↦ true | skip_kind ↦ false | retire_kind ↦ false ]

abbrev is_retire : Action → Bool
is_retire a = elim a.kind [ push_kind ↦ false | skip_kind ↦ false | retire_kind ↦ true ]

-- The last document of the library with a source.
abbrev last_held : Text → List Held → Option Held → Option Held
last_held source [] found = found
last_held source (d ∷ ds) found =
    last_held source ds (if text_eq d.source source then some d else found)

by_source-last :
    (source : Text) (ds : List Held) (m : List (Text × Held))
    → get source (by_source ds m) ≡ last_held source ds (get source m)
unfolding by_source
by_source-last source [] m = refl
by_source-last source (d ∷ ds) m =
    by_source-last source ds (assign d.source d m)
    ∙ ap (last_held source ds) (get-assign source d.source d m)

-- The document was modified after the last job on it failed for good, if it did.
abbrev pub modified_since : Option ℕ → ℕ → Bool
modified_since none modified = true
modified_since (some failed_at) modified = ltb failed_at modified

-- The library has not read the document later than it was modified.
abbrev pub unread_since : Option Held → ℕ → Bool
unread_since none modified = true
unread_since (some held) modified = leb held.ingested_at modified

-- An archived copy that can be read.
abbrev pub has_archive : Options → Shown → Bool
has_archive options d = not (is_empty d.archived_file_name) && options.supports d.archived_file_name

-- Which copy is pushed, by its name and whether it is the original: the original where it can be
-- read, unless an archived copy is preferred and can be read; else an archived copy that can.
abbrev pub is_copy : Options → Shown → Text × Bool → Bool
is_copy options d (name, true) =
    text_eq name d.original_file_name
    && (options.supports d.original_file_name
        && not (options.prefer_archive && has_archive options d))
is_copy options d (name, false) =
    text_eq name d.archived_file_name
    && (has_archive options d
        && (options.prefer_archive || not (options.supports d.original_file_name)))

-- The document, read under the id's key, is pushed as a copy: no job is reading it, it is newer than
-- the last job that failed for good, the library has no later reading of it, and the copy is the one
-- to push and has a name.
abbrev pub needs_push : List Held → List Job → Options → Text × Bool → Shown → Bool
needs_push held jobs options copy d =
    not (is_reading (latest (target (key options d.id)) jobs))
    && (modified_since (refused_by (latest (target (key options d.id)) jobs)) d.modified
        && (unread_since (last_held (target (key options d.id)) held none) d.modified
            && (is_copy options d copy && not (is_empty copy.0))))

-- A document that this sync pushed, that is not shown and that no job is reading.
abbrev pub must_go : List Shown → List Job → Options → Held → Bool
must_go shown jobs options d =
    starts_with (target (options.prefix ++ codes "-")) d.source
    && (not (any (λ s. text_eq (target (key options s.id)) d.source) shown)
        && not (is_reading (latest d.source jobs)))

-- A copy that an action pushes.
abbrev pub is_of : Text × Bool → Action → Bool
is_of (name, true) a = text_eq name a.filename && a.original
is_of (name, false) a = text_eq name a.filename && not a.original

refused-modified_since :
    (o : Option ℕ) (modified : ℕ) → not (is_refused o modified) ≡ modified_since o modified
unfolding is_refused
refused-modified_since none modified = refl
refused-modified_since (some at) modified = ground arith

current-unread_since :
    (o : Option Held) (modified : ℕ) → not (is_current o modified) ≡ unread_since o modified
unfolding is_current
current-unread_since none modified = refl
current-unread_since (some held) modified = ground arith

with_copy-is_copy :
    (d : Shown) (options : Options) (copy : Text × Bool) (a : Action)
    → is_push a ≡ true
    → (is_push (with_copy d options a) && is_of copy (with_copy d options a))
      ≡ (is_copy options d copy && not (is_empty copy.0))
unfolding with_copy choose
with_copy-is_copy d options (name, original) a h = ground (
  arith,
  h,
  text_eq_iff name d.original_file_name,
  text_eq_iff name d.archived_file_name,
  text_eq_iff name [],
)

decide-push :
    (d : Shown) (held : List Held) (jobs : List Job) (options : Options) (copy : Text × Bool)
    → (is_push (decide d (key options d.id) (by_source held []) (read_queue jobs) options)
        && is_of copy (decide d (key options d.id) (by_source held []) (read_queue jobs) options))
      ≡ needs_push held jobs options copy d
unfolding decide get
decide-push d held jobs options copy = rw (by_source-last (target (key options d.id)) held []) (
    rw ((read_queue-latest (target (key options d.id)) jobs).0) (
      rw ((read_queue-latest (target (key options d.id)) jobs).1) (
        ground (
          arith,
          refused-modified_since (refused_by (latest (target (key options d.id)) jobs)) d.modified,
          current-unread_since (last_held (target (key options d.id)) held none) d.modified,
          with_copy-is_copy d options copy (push_of (key options d.id) d.id) refl,
        ))))

decide-id :
    (d : Shown) (k : Text) (m : List (Text × Held)) (q : QueueState) (options : Options)
    → (decide d k m q options).id ≡ d.id
unfolding decide with_copy
decide-id d k m q options = ground arith

decide-not-retire :
    (d : Shown) (k : Text) (m : List (Text × Held)) (q : QueueState) (options : Options)
    → is_retire (decide d k m q options) ≡ false
unfolding decide with_copy
decide-not-retire d k m q options = ground arith

-- A plan pushes a copy of a document with an id.
abbrev pub pushes : ℕ → Text × Bool → List Action → Bool
pushes id copy = any (λ a. (is_push a && is_of copy a) && a.id == id)

-- A plan retires a document of the library.
abbrev pub retires : Text → List Action → Bool
retires doc_id = any (λ a. is_retire a && text_eq a.doc_id doc_id)

decisions-pushes :
    (id : ℕ) (copy : Text × Bool) (shown : List Shown) (held : List Held) (jobs : List Job)
    (options : Options)
    → pushes id copy (decisions shown (by_source held []) (read_queue jobs) options)
      ≡ any (λ d. needs_push held jobs options copy d && d.id == id) shown
unfolding decisions
decisions-pushes id copy [] held jobs options = refl
decisions-pushes id copy (d ∷ shown) held jobs options = ground (
  arith,
  decide-push d held jobs options copy,
  decide-id d (key options d.id) (by_source held []) (read_queue jobs) options,
  decisions-pushes id copy shown held jobs options,
)

decisions-retires :
    (doc_id : Text) (shown : List Shown) (m : List (Text × Held)) (q : QueueState)
    (options : Options)
    → retires doc_id (decisions shown m q options) ≡ false
unfolding decisions
decisions-retires doc_id [] m q options = refl
decisions-retires doc_id (d ∷ shown) m q options = ground (
  arith,
  decide-not-retire d (key options d.id) m q options,
  decisions-retires doc_id shown m q options,
)

has-kept :
    (source : Text) (shown : List Shown) (options : Options)
    → has source (kept shown options) ≡ any (λ s. text_eq (target (key options s.id)) source) shown
unfolding kept has
has-kept source [] options = refl
has-kept source (d ∷ shown) options = ground (arith, has-kept source shown options)

is_retired-must_go :
    (d : Held) (shown : List Shown) (jobs : List Job) (options : Options)
    → is_retired d (kept shown options) (read_queue jobs).busy options
      ≡ must_go shown jobs options d
unfolding is_retired
is_retired-must_go d shown jobs options =
    rw (has-kept d.source shown options) (rw ((read_queue-latest d.source jobs).0) (ground arith))

retirements-pushes :
    (id : ℕ) (copy : Text × Bool) (held : List Held) (keep busy : List Text) (options : Options)
    → pushes id copy (retirements held keep busy options) ≡ false
unfolding retirements retire_of
retirements-pushes id copy [] keep busy options = refl
retirements-pushes id copy (d ∷ held) keep busy options =
    ground (arith, retirements-pushes id copy held keep busy options)

retirements-retires :
    (doc_id : Text) (held : List Held) (shown : List Shown) (jobs : List Job) (options : Options)
    → retires doc_id (retirements held (kept shown options) (read_queue jobs).busy options)
      ≡ any (λ d. must_go shown jobs options d && text_eq d.doc_id doc_id) held
unfolding retirements retire_of
retirements-retires doc_id [] shown jobs options = refl
retirements-retires doc_id (d ∷ held) shown jobs options =
    rw (is_retired-must_go d shown jobs options)
      (ground (arith, retirements-retires doc_id held shown jobs options))

-- A plan pushes a copy of the document with an id exactly when a document that is shown under that
-- id needs it: no job is reading it, it was modified after its last job where that failed for good,
-- the library did not read its source later than it was modified, and the copy has a name and is the
-- one to push: the original where it can be read, unless an archived copy is preferred and can be
-- read, and else an archived copy that can be read.
pub plan-pushes :
    (id : ℕ) (copy : Text × Bool) (shown : List Shown) (held : List Held) (jobs : List Job)
    (options : Options)
    → pushes id copy (plan shown held jobs options)
      ≡ any (λ d. needs_push held jobs options copy d && d.id == id) shown
unfolding plan
plan-pushes id copy shown held jobs options = ground (
  arith,
  any-append (λ (a : Action). (is_push a && is_of copy a) && a.id == id)
      (decisions shown (by_source held []) (read_queue jobs) options)
      (retirements held (kept shown options) (read_queue jobs).busy options),
  decisions-pushes id copy shown held jobs options,
  retirements-pushes id copy held (kept shown options) (read_queue jobs).busy options,
)

-- A plan retires a document of the library exactly when one of that id has a source with this
-- sync's prefix, no document that is shown has that source as its target, and the latest job of
-- the source is not queued or running.
pub plan-retires :
    (doc_id : Text) (shown : List Shown) (held : List Held) (jobs : List Job) (options : Options)
    → retires doc_id (plan shown held jobs options)
      ≡ any (λ d. must_go shown jobs options d && text_eq d.doc_id doc_id) held
unfolding plan
plan-retires doc_id shown held jobs options = ground (
  arith,
  any-append (λ (a : Action). is_retire a && text_eq a.doc_id doc_id)
      (decisions shown (by_source held []) (read_queue jobs) options)
      (retirements held (kept shown options) (read_queue jobs).busy options),
  decisions-retires doc_id shown (by_source held []) (read_queue jobs) options,
  retirements-retires doc_id held shown jobs options,
)
