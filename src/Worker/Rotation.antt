-- ===== src/Worker/Rotation.antt =====
-- internal/service/worker/rotation.go: one worker serves the queues of every library in turn.
pub mod Rounds
use docsearch.Results.{Result, err, ok}
use docsearch.Prelude.{
  ℕ, Bool, true, false, ◌&&◌, ◌||◌, Option, none, some, List, [], ◌∷◌, ◌++◌, arith, ◌==◌,
  if◌then◌else◌, is_some, length, Text, text_eq,
}

pub record Queue : Type 0 where
  pub user : Text
  pub library : Text

-- A built worker is a `V`; `next` is its `Next`.
pub record Crew (W V : Type 0) : Type 0 where
  pub waiting : W → Result Text (List Queue) × W
  pub worker : Queue → V
  pub next : V → W → Result Text Bool × W
  pub sleep : W → Option Text × W

unfoldable pub queue_eq : Queue → Queue → Bool
unfolding text_eq
queue_eq a b = text_eq a.user b.user && text_eq a.library b.library

unfoldable pub built_for : {V : Type 0} → Queue → List (Queue × V) → Option V
unfolding queue_eq
built_for queue [] = none
built_for queue ((q, v) ∷ rest) = if queue_eq q queue then some v else built_for queue rest

-- The loop of `round` keeps the workers that were built, whether any queue had a job, and the errors.
pub record Round (W V : Type 0) : Type 0 where
  pub world : W
  pub built : List (Queue × V)
  pub any_worked : Bool
  pub errors : List Text

module _ {W V : Type 0} (crew : Crew W V) (once : Bool) where
  -- The worker of a queue, and the map that holds it.
  unfoldable pub worker_from : Queue → List (Queue × V) → Option V → V × List (Queue × V)
  worker_from queue built (some v) = (v, built)
  worker_from queue built none = (crew.worker queue, built ++ (queue, crew.worker queue) ∷ [])

  unfoldable pub worker_of : Queue → List (Queue × V) → V × List (Queue × V)
  unfolding worker_from built_for
  worker_of queue built = worker_from queue built (built_for queue built)

  -- `serve`.
  unfoldable pub serve : Queue → List (Queue × V) → W → Result Text Bool × W
  unfolding worker_of
  serve queue built w = crew.next (worker_of queue built).0 w

  unfoldable pub note_result : Result Text Bool → Round W V → Round W V
  note_result (err e) r = record r { errors = r.errors ++ e ∷ [] }
  note_result (ok did) r = record r { any_worked = r.any_worked || did }

  unfoldable pub serve_one : Queue → Round W V → Round W V
  unfolding serve note_result
  serve_one queue r =
      note_result (serve queue r.built r.world).0
        (record r { world = (serve queue r.built r.world).1; built = (worker_of queue r.built).1 })

  unfoldable pub serve_all : List Queue → Round W V → Round W V
  unfolding serve_one
  serve_all [] r = r
  serve_all (queue ∷ queues) r = serve_all queues (serve_one queue r)

  abbrev pub first_error : List Text → Result Text Bool → Result Text Bool
  first_error [] otherwise = otherwise
  first_error (e ∷ es) otherwise = err e

  -- The end of `round`: every queue failing is an error, one queue failing is not.
  unfoldable pub round_result : ℕ → Round W V → Result Text Bool
  round_result queues r =
      if length r.errors == queues then first_error r.errors (ok r.any_worked) else ok r.any_worked

  unfoldable pub round_over :
      List (Queue × V) → Result Text (List Queue) × W → Result Text Bool × (List (Queue × V) × W)
  unfolding serve_all round_result
  round_over built (err e, w) = (err e, (built, w))
  round_over built (ok queues, w) =
      let r : Round W V =
        serve_all queues (record { world = w; built = built; any_worked = false; errors = [] }) in
      (round_result (length queues) r, (r.built, r.world))

  unfoldable pub round : List (Queue × V) → W → Result Text Bool × (List (Queue × V) × W)
  unfolding round_over
  round built w = round_over built (crew.waiting w)

  -- `turn`, on what the round came to: whether to stop, and the wait.
  unfoldable pub turn_end : Result Text Bool × (List (Queue × V) × W) → Result Text Bool × W
  turn_end (err e, (built, w)) = (err e, w)
  turn_end (ok true, (built, w)) = (ok false, w)
  turn_end (ok false, (built, w)) =
      if once then (ok true, w) else (ok (is_some (crew.sleep w).0), (crew.sleep w).1)

  unfoldable pub turn : List (Queue × V) → W → Result Text Bool × W
  unfolding round turn_end
  turn built w = turn_end (round built w)
