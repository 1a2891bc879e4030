-- ===== src/Examples/Workers.antt =====
-- An attempt at a job, and a round over two queues.
use docsearch.Worker.Endings.{
  asks, requeue_due, requeues, met, calls_of, cancels, cancel_due, gives_up, give_up_due, none_due,
  execute-decides,
}
use docsearch.Worker.Rotation.Rounds.{verdict_of, answers}
use docsearch.Worker.Rotation.{Queue, Crew, serve}
use docsearch.Worker.{Attempt, Job, going, Service}
use docsearch.Prelude.{
  ℕ, ◌+◌, ◌≡◌, refl, true, false, none, List, [], ◌∷◌, if◌then◌else◌, Text, codes, text_eq,
  is_empty,
}
use docsearch.Results.{ok, err}

abbrev some_job : Job
some_job = record { title = []; source = codes "s"; id = 7; attempts = 1; force = false }

abbrev broken : Attempt
broken = record {
  result = err (record {
    text = codes "reset";
    lost_claim = false;
    was_cancelled = false;
    structure = false;
    unsupported = false;
    blocked = false;
    unresolved = false;
  });
  watched = going;
  expired = false;
}

-- A queue whose world counts the calls; the source is a file that is there, and its ingest fails.
abbrev counting : Service ℕ Unit
counting = record {
  claim = λ n. (ok none, n);
  source_for = λ target.
      if text_eq target (codes "s")
      then ok tt
      else err (record { text = codes "gone"; missing = true });
  attempt = λ source job n. (broken, n);
  complete_without_document = λ id doc_id n. (none, n + 1);
  cancel_job = λ id n. (none, n + 1);
  finish_job = λ id verdict reason permanent n. (none, n + 1);
  renew_lease = λ id n. (none, n);
  cancel_requested = λ id n. (ok false, n);
}

execute-decides_example :
    (asks requeues some_job (calls_of counting 3 some_job 0)
      ≡ requeue_due 3 some_job (met counting some_job 0))
    × (asks cancels some_job (calls_of counting 3 some_job 0)
        ≡ cancel_due (met counting some_job 0))
    × (asks gives_up some_job (calls_of counting 3 some_job 0)
        ≡ give_up_due 3 some_job (met counting some_job 0))
    × (is_empty (calls_of counting 3 some_job 0) ≡ none_due (met counting some_job 0))
execute-decides_example = execute-decides counting 3 some_job 0

requeued_once : requeue_due 3 some_job (met counting some_job 0) ≡ true
unfolding text_eq
requeued_once = refl

abbrev queue_of : Text → Queue
queue_of library = record { user = codes "u"; library = library }

-- A worker is its queue; the queue "b" fails, and the world counts jobs.
abbrev crew : Crew ℕ Queue
crew = record {
  waiting = λ w. (ok (queue_of (codes "a") ∷ queue_of (codes "b") ∷ []), w);
  worker = λ q. q;
  next = λ q w. (if text_eq q.library (codes "b") then err (codes "gone") else ok true, w + 1);
  sleep = λ w. (none, w);
}

abbrev two_queues : List Queue
two_queues = queue_of (codes "a") ∷ queue_of (codes "b") ∷ []

one_worked : verdict_of crew true (answers crew true two_queues [] 0) ≡ ok true
unfolding serve text_eq
one_worked = refl
