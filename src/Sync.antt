-- ===== src/Sync.antt =====
-- internal/docsync/docsync.go: what a sync does with each document.
pub mod Queue
pub mod Keys
pub mod Plan
use docsearch.Strings.{starts_with}
use docsearch.Upload.{target, key_of}
use docsearch.Maps.{has, assign, get}
use docsearch.Prelude.{
  ℕ, zero, suc, ◌+◌, ◌/◌, ◌%◌, Bool, true, false, not, ◌&&◌, ◌||◌, Option, none, some, List, [],
  ◌∷◌, ◌++◌, ltb, if◌then◌else◌, is_empty, Text, codes, arith,
}

-- A Paperless document; a time is its distance from the zero time, an id is positive.
pub record Shown : Type 0 where
  pub id : ℕ
  pub modified : ℕ
  pub archived_file_name : Text
  pub original_file_name : Text

-- A document of the library.
pub record Held : Type 0 where
  pub doc_id : Text
  pub source : Text
  pub ingested_at : ℕ

pub data Status : Type 0 where
  queued running done failed cancelled : Status

-- `updated_at` is what `time.Parse` reads in the field.
pub record Job : Type 0 where
  pub source : Text
  pub status : Status
  pub permanent : Bool
  pub updated_at : Option ℕ

pub data Kind : Type 0 where
  push_kind skip_kind retire_kind : Kind

pub data Reason : Type 0 where
  no_reason being_read refused_before unchanged no_copy : Reason

pub record Action : Type 0 where
  pub key : Text
  pub filename : Text
  pub doc_id : Text
  pub reason : Reason
  pub kind : Kind
  pub id : ℕ
  pub original : Bool

pub record Options : Type 0 where
  pub supports : Text → Bool
  pub prefix : Text
  pub prefer_archive : Bool
  pub allow_empty : Bool

-- `strconv.Itoa`, a decimal digit a step; `suc n` steps are enough for `n`.
unfoldable pub decimal : ℕ → ℕ → Text → Text
decimal zero n rest = rest
decimal (suc fuel) n rest =
    let more = decimal fuel (n / 10) ((48 + n % 10) ∷ rest) in
    if ltb n 10 then (48 + n % 10) ∷ rest else more

unfoldable pub itoa : ℕ → Text
unfolding decimal
itoa n = decimal (n + 1) n []

unfoldable pub key : Options → ℕ → Text
unfolding itoa
key options id = options.prefix ++ (codes "-" ++ itoa id)

pub record QueueState : Type 0 where
  pub busy : List Text
  pub refused : List (Text × ℕ)

unfoldable pub is_active : Status → Bool
is_active queued = true
is_active running = true
is_active done = false
is_active failed = false
is_active cancelled = false

unfoldable pub is_failed : Status → Bool
is_failed failed = true
is_failed queued = false
is_failed running = false
is_failed done = false
is_failed cancelled = false

unfoldable pub refuse_at : Text → Option ℕ → QueueState → QueueState
unfolding assign
refuse_at source none q = q
refuse_at source (some at) q = record q { refused = assign source at q.refused }

unfoldable pub note : Job → QueueState → QueueState
unfolding is_active is_failed refuse_at
note j q =
    if is_active j.status
    then record q { busy = j.source ∷ q.busy }
    else if not (is_failed j.status) || not j.permanent
    then q
    else refuse_at j.source j.updated_at q

unfoldable pub read_from : List Text → List Job → QueueState → QueueState
unfolding note has
read_from seen [] q = q
read_from seen (j ∷ jobs) q =
    let before = has j.source seen in
    read_from (if before then seen else j.source ∷ seen) jobs (if before then q else note j q)

unfoldable pub read_queue : List Job → QueueState
unfolding read_from
read_queue jobs = read_from [] jobs (record { busy = []; refused = [] })
