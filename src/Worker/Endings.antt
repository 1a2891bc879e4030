-- ===== src/Worker/Endings.antt =====
-- internal/service/worker/worker.go: what a job's attempt asks of the queue.
use docsearch.Results.{Result, ok, err, Result-cases}
use docsearch.Worker.{
  Ending, Failure, ending_of, Result, fail, complete, finished, finish, Job, Attempt, is_lost,
  cancel, is_cancelled, requeued, permanent, given_up, Service, SourceFailure, execute, write,
  execute_from,
}
use docsearch.Prelude.{
  ℕ, ◌≡◌, inl, inr, Bool, true, false, not, ◌&&◌, ◌||◌, arith, ltb, List, [], ◌∷◌, ◌++◌, ◌==◌,
  is_empty, any,
}

-- A queue with a log of the calls that end a job.
unfoldable pub logged : {W S : Type 0} → Service W S → Service (W × List (ℕ × Ending)) S
logged s = record {
  claim = λ (w, log). ((s.claim w).0, ((s.claim w).1, log));
  source_for = s.source_for;
  attempt = λ source job (w, log). ((s.attempt source job w).0, ((s.attempt source job w).1, log));
  complete_without_document = λ id doc_id (w, log). (
    (s.complete_without_document id doc_id w).0,
    ((s.complete_without_document id doc_id w).1, log ++ (id, complete doc_id) ∷ []),
  );
  cancel_job =
      λ id (w, log). ((s.cancel_job id w).0, ((s.cancel_job id w).1, log ++ (id, cancel) ∷ []));
  finish_job = λ id verdict reason permanent (w, log). (
    (s.finish_job id verdict reason permanent w).0,
    (
      (s.finish_job id verdict reason permanent w).1,
      log ++ (id, finish verdict reason permanent) ∷ [],
    ),
  );
  renew_lease = λ id (w, log). ((s.renew_lease id w).0, ((s.renew_lease id w).1, log));
  cancel_requested =
      λ id (w, log). ((s.cancel_requested id w).0, ((s.cancel_requested id w).1, log));
}

abbrev pub requeues : Ending → Bool
requeues (finish requeued reason permanent) = true
requeues _ = false

abbrev pub gives_up : Ending → Bool
gives_up (finish given_up reason permanent) = true
gives_up _ = false

abbrev pub cancels : Ending → Bool
cancels cancel = true
cancels _ = false

-- What a job met: a source that cannot be built, or an attempt.
abbrev pub met_from :
    {W S : Type 0} → Service W S → Job → Result SourceFailure S → W → Result SourceFailure Attempt
met_from s job (ok source) w = ok (s.attempt source job w).0
met_from s job (err e) w = err e

abbrev pub met : {W S : Type 0} → Service W S → Job → W → Result SourceFailure Attempt
met s job w = met_from s job (s.source_for job.source) w

-- A failure that another attempt need not meet: it is none of a document with a structure that is
-- refused, a format that is not supported, and an address that is refused although it resolves.
abbrev pub is_passing : Failure → Bool
is_passing e = not e.structure && (not e.unsupported && (not e.blocked || e.unresolved))

abbrev holds_claim : Attempt → Failure → Bool
holds_claim a e = not (is_lost a.watched) && not e.lost_claim

abbrev was_stopped : Attempt → Failure → Bool
was_stopped a e = is_cancelled a.watched || e.was_cancelled

abbrev pub requeue_due : ℕ → Job → Result SourceFailure Attempt → Bool
requeue_due max_attempts job (err e) = e.missing && ltb job.attempts max_attempts
requeue_due max_attempts job (ok a) = elim a.result [
  | ok result ↦ false
  | err e ↦
      holds_claim a e
      && (not a.expired
          && (not (was_stopped a e) && (is_passing e && ltb job.attempts max_attempts)))
]

abbrev pub cancel_due : Result SourceFailure Attempt → Bool
cancel_due (err e) = false
cancel_due (ok a) = elim a.result [
  | ok result ↦ false
  | err e ↦ holds_claim a e && (not a.expired && was_stopped a e)
]

abbrev pub give_up_due : ℕ → Job → Result SourceFailure Attempt → Bool
give_up_due max_attempts job (err e) = not e.missing || not (ltb job.attempts max_attempts)
give_up_due max_attempts job (ok a) = elim a.result [
  | ok result ↦ false
  | err e ↦
      holds_claim a e
      && (a.expired
          || not (was_stopped a e) && (not (is_passing e) || not (ltb job.attempts max_attempts)))
]

-- Another worker has the job, or the ingest published its document.
abbrev pub none_due : Result SourceFailure Attempt → Bool
none_due (err e) = false
none_due (ok a) = elim a.result [ ok result ↦ not result.unchanged | err e ↦ not (holds_claim a e) ]

-- The calls that one job makes to end it.
abbrev pub calls_of : {W S : Type 0} → Service W S → ℕ → Job → W → List (ℕ × Ending)
calls_of s max_attempts job w = (execute (logged s) max_attempts job (w, [])).1.1

abbrev pub asks : (Ending → Bool) → Job → List (ℕ × Ending) → Bool
asks p job calls = any (λ c. c.0 == job.id && p c.1) calls

abbrev Decides : ℕ → Job → Result SourceFailure Attempt → List (ℕ × Ending) → Type 0
Decides max_attempts job m calls =
    (asks requeues job calls ≡ requeue_due max_attempts job m)
    × (asks cancels job calls ≡ cancel_due m)
    × (asks gives_up job calls ≡ give_up_due max_attempts job m)
    × (is_empty calls ≡ none_due m)

module _ {W S : Type 0} (s : Service W S) (max_attempts : ℕ) (job : Job) where
  ending_of-Decides :
      (a : Attempt) (w : W)
      → Decides max_attempts job
          (ok a)
          (write (logged s) max_attempts job (ending_of max_attempts job a) (w, [])).1.1
  unfolding ending_of fail finished permanent write logged
  ending_of-Decides a w = elim (Result-cases a.result) [
    | inl (result, succeeded) ↦
        rw succeeded (ground arith, ground arith, ground arith, ground arith)
    | inr (e, failed) ↦ rw failed (ground arith, ground arith, ground arith, ground arith)
  ]

  execute_from-Decides :
      (r : Result SourceFailure S) (w : W)
      → Decides max_attempts job
          (met_from s job r w)
          (execute_from (logged s) max_attempts job r (w, [])).1.1
  unfolding execute_from fail write logged
  execute_from-Decides (ok source) w =
      ending_of-Decides (s.attempt source job w).0 (s.attempt source job w).1
  execute_from-Decides (err e) w = (ground arith, ground arith, ground arith, ground arith)

  -- Of the calls that end a job, `execute` makes none exactly when another worker took the job over
  -- or the ingest published a document. It puts the job back exactly when attempts remain and either
  -- its source is missing in a root, or its ingest failed with the claim held, in time and not
  -- cancelled, by a failure that another attempt need not meet. It cancels the job exactly when the
  -- ingest failed with the claim held and in time, and was cancelled. It gives the job up exactly
  -- when its source cannot be built and is not missing or no attempt remains, or the ingest failed
  -- with the claim held and ran out of time, or was not cancelled and met a failure that every
  -- attempt meets or no attempt remains.
  pub execute-decides :
      (w : W)
      → (asks requeues job (calls_of s max_attempts job w)
          ≡ requeue_due max_attempts job (met s job w))
        × (asks cancels job (calls_of s max_attempts job w) ≡ cancel_due (met s job w))
        × (asks gives_up job (calls_of s max_attempts job w)
            ≡ give_up_due max_attempts job (met s job w))
        × (is_empty (calls_of s max_attempts job w) ≡ none_due (met s job w))
  unfolding execute logged
  execute-decides w = execute_from-Decides (s.source_for job.source) w
