-- ===== src/Sync/Queue.antt =====
-- What the queue says of a source.
use docsearch.Maps.{has, get, get-assign}
use docsearch.Sync.{
  Job, refuse_at, note, read_from, read_queue, is_active, QueueState, has, is_failed, queued,
  running, done, failed, cancelled,
}
use docsearch.Prelude.{
  ℕ, ◌≡◌, inl, inr, Bool, false, not, ◌&&◌, ◌||◌, Option, none, some, List, [], ◌∷◌, arith,
  if◌then◌else◌, Bool-cases, Text, text_eq, text_eq_iff, refl, Option-cases, ap, true,
}

-- The first job of a source, in a listing of the newest first.
abbrev pub latest : Text → List Job → Option Job
latest source [] = none
latest source (j ∷ jobs) = if text_eq j.source source then some j else latest source jobs

-- The job is queued or running.
abbrev pub is_reading : Option Job → Bool
is_reading none = false
is_reading (some j) = elim j.status [
  | queued ↦ true
  | running ↦ true
  | done ↦ false
  | failed ↦ false
  | cancelled ↦ false
]

-- When the job failed for good, where it did and the time can be read.
abbrev pub refused_by : Option Job → Option ℕ
refused_by none = none
refused_by (some j) = elim j.status [
  | queued ↦ none
  | running ↦ none
  | done ↦ none
  | failed ↦ if j.permanent then j.updated_at else none
  | cancelled ↦ none
]

abbrev or_else : Option ℕ → Option ℕ → Option ℕ
or_else none o = o
or_else (some n) o = some n

refuse_at-busy :
    (source : Text) (at : Option ℕ) (q : QueueState) → (refuse_at source at q).busy ≡ q.busy
unfolding refuse_at
refuse_at-busy source none q = refl
refuse_at-busy source (some at) q = refl

refuse_at-refused :
    (source other : Text) (at : Option ℕ) (q : QueueState)
    → get source (refuse_at other at q).refused
      ≡ (if text_eq other source then or_else at (get source q.refused) else get source q.refused)
unfolding refuse_at
refuse_at-refused source other none q = ground arith
refuse_at-refused source other (some at) q = ground (arith, get-assign source other at q.refused)

note-busy :
    (source : Text) (j : Job) (q : QueueState)
    → has source (note j q).busy
      ≡ (text_eq j.source source && is_reading (some j) || has source q.busy)
unfolding note has is_active is_failed
note-busy source j q = ground (arith, refuse_at-busy j.source j.updated_at q)

note-refused :
    (source : Text) (j : Job) (q : QueueState)
    → get source (note j q).refused ≡ (
        if text_eq j.source source
        then or_else (refused_by (some j)) (get source q.refused)
        else get source q.refused)
unfolding note is_active is_failed
note-refused source j q = ground (arith, refuse_at-refused source j.source j.updated_at q)

read_from-step :
    (seen : List Text) (j : Job) (jobs : List Job) (q : QueueState) (before : Bool)
    → has j.source seen ≡ before
    → read_from seen (j ∷ jobs) q
      ≡ read_from (if before then seen else j.source ∷ seen) jobs (if before then q else note j q)
unfolding read_from
read_from-step seen j jobs q before h =
    ap (λ b. read_from (if b then seen else j.source ∷ seen) jobs (if b then q else note j q)) h

read_from-nil : (seen : List Text) (q : QueueState) → read_from seen [] q ≡ q
unfolding read_from
read_from-nil seen q = refl

read_from-busy :
    (source : Text) (seen : List Text) (jobs : List Job) (q : QueueState)
    → has source (read_from seen jobs q).busy
      ≡ (has source q.busy || not (has source seen) && is_reading (latest source jobs))
unfolding has
read_from-busy source seen [] q = rw (read_from-nil seen q) (ground arith)
read_from-busy source seen (j ∷ jobs) q = elim (Bool-cases (has j.source seen)) [
  | inl before ↦
      rw (read_from-step seen j jobs q true before)
        (ground (arith, read_from-busy source seen jobs q, text_eq_iff j.source source))
  | inr new ↦ rw (read_from-step seen j jobs q false new) (
      ground (
        arith,
        read_from-busy source (j.source ∷ seen) jobs (note j q),
        note-busy source j q,
        text_eq_iff j.source source,
      ))
]

read_from-refused :
    (source : Text) (seen : List Text) (jobs : List Job) (q : QueueState)
    → get source (read_from seen jobs q).refused ≡ (
        if has source seen
        then get source q.refused
        else or_else (refused_by (latest source jobs)) (get source q.refused))
unfolding has
read_from-refused source seen [] q = rw (read_from-nil seen q) (ground arith)
read_from-refused source seen (j ∷ jobs) q = elim (Bool-cases (has j.source seen)) [
  | inl before ↦
      rw (read_from-step seen j jobs q true before)
        (ground (arith, read_from-refused source seen jobs q, text_eq_iff j.source source))
  | inr new ↦ rw (read_from-step seen j jobs q false new) (
      ground (
        arith,
        read_from-refused source (j.source ∷ seen) jobs (note j q),
        note-refused source j q,
        text_eq_iff j.source source,
      ))
]

-- A source is busy exactly when its first job in the listing is queued or running, and it is held as
-- refused, at the time of that job, exactly when that job failed for good and its time can be read.
pub read_queue-latest :
    (source : Text) (jobs : List Job)
    → (has source (read_queue jobs).busy ≡ is_reading (latest source jobs))
      × (get source (read_queue jobs).refused ≡ refused_by (latest source jobs))
unfolding read_queue has get
read_queue-latest source jobs = (
  read_from-busy source [] jobs (record { busy = []; refused = [] }),
  ground (
    arith,
    read_from-refused source [] jobs (record { busy = []; refused = [] }),
    Option-cases (refused_by (latest source jobs)),
  ),
)
