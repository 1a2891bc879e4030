-- ===== src/Sync/Plan.antt =====
-- What each document needs.
pub mod Safe
pub mod Run
use docsearch.Strings.{starts_with}
use docsearch.Upload.{target, key_of}
use docsearch.Sync.{
  Shown, Action, Held, key, read_queue, Options, no_reason, QueueState, Job, push_kind, skip_kind,
  starts_with, retire_kind, no_copy, being_read, refused_before, unchanged,
}
use docsearch.Maps.{assign, has, get}
use docsearch.Prelude.{
  ℕ, Bool, true, false, not, ◌&&◌, ◌||◌, Option, none, some, List, [], ◌∷◌, ◌++◌, arith, ltb,
  if◌then◌else◌, is_empty, Text, codes,
}

unfoldable pub by_source : List Held → List (Text × Held) → List (Text × Held)
unfolding assign
by_source [] m = m
by_source (d ∷ ds) m = by_source ds (assign d.source d m)

unfoldable pub choose : Shown → Options → Text × Bool
choose d options =
    let has_archive =
      not (is_empty d.archived_file_name) && options.supports d.archived_file_name in
    if options.prefer_archive && has_archive
    then (d.archived_file_name, false)
    else if options.supports d.original_file_name
    then (d.original_file_name, true)
    else if has_archive
    then (d.archived_file_name, false)
    else ([], false)

abbrev pub push_of : Text → ℕ → Action
push_of key id = record {
  key = key;
  filename = [];
  doc_id = [];
  reason = no_reason;
  kind = push_kind;
  id = id;
  original = false;
}

-- The last job on the target was refused, and the document is not newer.
unfoldable pub is_refused : Option ℕ → ℕ → Bool
is_refused none modified = false
is_refused (some at) modified = not (ltb at modified)

-- The library read the document after it was last modified.
unfoldable pub is_current : Option Held → ℕ → Bool
is_current none modified = false
is_current (some held) modified = ltb modified held.ingested_at

unfoldable pub doc_id_of : Option Held → Text
doc_id_of none = []
doc_id_of (some held) = held.doc_id

unfoldable pub with_copy : Shown → Options → Action → Action
unfolding choose
with_copy d options action =
    let chosen = choose d options in
    if is_empty chosen.0
    then record action {
      filename = chosen.0;
      original = chosen.1;
      kind = skip_kind;
      reason = no_copy;
    }
    else record action { filename = chosen.0; original = chosen.1 }

unfoldable pub decide : Shown → Text → List (Text × Held) → QueueState → Options → Action
unfolding target has get is_refused is_current doc_id_of with_copy
decide d key by_source queue options =
    let action = push_of key d.id in
    if has (target key) queue.busy
    then record action { kind = skip_kind; reason = being_read }
    else if is_refused (get (target key) queue.refused) d.modified
    then record action { kind = skip_kind; reason = refused_before }
    else if is_current (get (target key) by_source) d.modified
    then record action {
      kind = skip_kind;
      reason = unchanged;
      doc_id = doc_id_of (get (target key) by_source);
    }
    else with_copy d options action

-- Whether a document of the library is one of this sync's that has to go.
unfoldable pub is_retired : Held → List Text → List Text → Options → Bool
unfolding target has starts_with
is_retired d keep busy options = not (
    not (starts_with (target (options.prefix ++ codes "-")) d.source)
    || has d.source keep
    || has d.source busy)

unfoldable pub retire_of : Held → Action
unfolding key_of
retire_of d = record {
  key = (key_of d.source).0;
  filename = [];
  doc_id = d.doc_id;
  reason = no_reason;
  kind = retire_kind;
  id = 0;
  original = false;
}

unfoldable pub retirements : List Held → List Text → List Text → Options → List Action
unfolding is_retired retire_of
retirements [] keep busy options = []
retirements (d ∷ ds) keep busy options =
    let rest = retirements ds keep busy options in
    if is_retired d keep busy options then retire_of d ∷ rest else rest

unfoldable pub kept : List Shown → Options → List Text
unfolding target key
kept [] options = []
kept (d ∷ ds) options = target (key options d.id) ∷ kept ds options

unfoldable pub decisions : List Shown → List (Text × Held) → QueueState → Options → List Action
unfolding decide key
decisions [] by_source queue options = []
decisions (d ∷ ds) by_source queue options =
    decide d (key options d.id) by_source queue options ∷ decisions ds by_source queue options

unfoldable pub plan : List Shown → List Held → List Job → Options → List Action
unfolding by_source read_queue decisions retirements kept
plan shown held jobs options =
    let queue = read_queue jobs in
    decisions shown (by_source held []) queue options
    ++ retirements held (kept shown options) queue.busy options
