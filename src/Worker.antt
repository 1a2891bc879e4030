-- ===== src/Worker.antt =====
-- internal/service/worker/worker.go: a job is claimed, attempted and brought to an end.
pub mod Endings
pub mod Rotation
use docsearch.Results.{Result, ok, err}
use docsearch.Prelude.{
  ℕ, zero, suc, Bool, true, false, not, ◌&&◌, ◌||◌, Option, none, some, arith, leb, if◌then◌else◌,
  Text, codes,
}

pub record Job : Type 0 where
  pub title : Text
  pub source : Text
  pub id : ℕ
  pub attempts : ℕ
  pub force : Bool

pub data Verdict : Type 0 where
  requeued given_up : Verdict

-- What a job's watch saw; `going` is Go's `running`.
pub data Watched : Type 0 where
  going cancelled lost : Watched

-- An error of an ingest, by what `errors.Is` and `errors.As` find in it.
pub record Failure : Type 0 where
  pub text : Text
  pub lost_claim : Bool
  pub was_cancelled : Bool
  pub structure : Bool
  pub unsupported : Bool
  pub blocked : Bool
  pub unresolved : Bool

-- An error of the source registry; `missing` is a file in a root that is not there yet.
pub record SourceFailure : Type 0 where
  pub text : Text
  pub missing : Bool

-- A finished ingest: whether it found nothing to do, and its document.
pub record Ingested : Type 0 where
  pub unchanged : Bool
  pub doc_id : Text

-- An ingest and its watch, when both are over; `expired` is the job's timeout.
pub record Attempt : Type 0 where
  pub result : Result Failure Ingested
  pub watched : Watched
  pub expired : Bool

-- The call on the queue that ends a job, or none.
pub data Ending : Type 0 where
  complete : Text → Ending
  published left_alone cancel : Ending
  finish : Verdict → Text → Bool → Ending

pub record Service (W S : Type 0) : Type 0 where
  pub claim : W → Result Text (Option Job) × W
  pub source_for : Text → Result SourceFailure S
  pub attempt : S → Job → W → Attempt × W
  pub complete_without_document : ℕ → Text → W → Option Text × W
  pub cancel_job : ℕ → W → Option Text × W
  pub finish_job : ℕ → Verdict → Text → Bool → W → Option Text × W
  -- No error, or an error and whether it is that the claim was lost.
  pub renew_lease : ℕ → W → Option Bool × W
  pub cancel_requested : ℕ → W → Result Text Bool × W

abbrev too_long : Text
too_long = codes "the job ran past the longest a job may run"

-- `refused`
unfoldable pub is_refusal : Failure → Bool
is_refusal f = f.blocked && not f.unresolved

unfoldable pub permanent : Failure → Bool
unfolding is_refusal
permanent f = f.structure || (f.unsupported || is_refusal f)

abbrev pub is_lost : Watched → Bool
is_lost lost = true
is_lost going = false
is_lost cancelled = false

abbrev pub is_cancelled : Watched → Bool
is_cancelled cancelled = true
is_cancelled going = false
is_cancelled lost = false

-- `fail`, up to its call.
unfoldable pub fail : ℕ → Job → Text → Bool → Ending
fail max_attempts job reason permanent =
    finish (if permanent || leb max_attempts job.attempts then given_up else requeued) reason
      permanent

-- `done`, up to its call.
unfoldable pub finished : Ingested → Ending
finished result = if result.unchanged then complete result.doc_id else published

-- The switch of `execute`.
unfoldable pub ending_of : ℕ → Job → Attempt → Ending
unfolding fail finished permanent
ending_of max_attempts job attempt = elim attempt.result [
  | ok result ↦ finished result
  | err e ↦
      if is_lost attempt.watched || e.lost_claim
      then left_alone
      else if attempt.expired
      then fail max_attempts job too_long true
      else if is_cancelled attempt.watched || e.was_cancelled
      then cancel
      else fail max_attempts job e.text (permanent e)
]

module _ {W S : Type 0} (service : Service W S) (max_attempts : ℕ) where
  unfoldable pub write : Job → Ending → W → Option Text × W
  write job (complete doc_id) w = service.complete_without_document job.id doc_id w
  write job published w = (none, w)
  write job left_alone w = (none, w)
  write job cancel w = service.cancel_job job.id w
  write job (finish verdict reason permanent) w =
      service.finish_job job.id verdict reason permanent w

  unfoldable pub execute_from : Job → Result SourceFailure S → W → Option Text × W
  unfolding write fail ending_of
  execute_from job (err e) w = write job (fail max_attempts job e.text (not e.missing)) w
  execute_from job (ok source) w =
      let (attempt, w) = service.attempt source job w in
      write job (ending_of max_attempts job attempt) w

  unfoldable pub execute : Job → W → Option Text × W
  unfolding execute_from
  execute job w = execute_from job (service.source_for job.source) w

  -- Beside an error, `Next` also says that there was a job, which no caller reads.
  unfoldable pub worked : Option Text × W → Result Text Bool × W
  worked (none, w) = (ok true, w)
  worked (some e, w) = (err e, w)

  unfoldable pub execute_claimed : Result Text (Option Job) × W → Result Text Bool × W
  unfolding execute worked
  execute_claimed (err e, w) = (err e, w)
  execute_claimed (ok none, w) = (ok false, w)
  execute_claimed (ok (some job), w) = worked (execute job w)

  -- `Next`.
  unfoldable pub next : W → Result Text Bool × W
  unfolding execute_claimed
  next w = execute_claimed (service.claim w)

  abbrev pub renewal_lost : Option Bool → Bool
  renewal_lost none = false
  renewal_lost (some is_lost_claim) = is_lost_claim

  abbrev pub wants_cancel : Result Text Bool → Bool
  wants_cancel (ok b) = b
  wants_cancel (err e) = false

  -- `check`: the lease is renewed, and what ends the watch, if anything does.
  unfoldable pub check : ℕ → W → Option Watched × W
  check id w =
      let renewed = service.renew_lease id w in
      let asked = service.cancel_requested id renewed.1 in
      if renewal_lost renewed.0
      then (some lost, renewed.1)
      else if wants_cancel asked.0
      then (some cancelled, asked.1)
      else (none, asked.1)

  -- `watch`, of an ingest that ends after a number of polls.
  unfoldable pub watch : ℕ → ℕ → W → Watched × W
  unfolding check
  watch zero id w = (going, w)
  watch (suc polls) id w =
      let more = watch polls id (check id w).1 in
      elim (check id w).0 [ some result ↦ (result, (check id w).1) | none ↦ more ]
