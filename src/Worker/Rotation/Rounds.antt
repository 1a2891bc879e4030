-- ===== src/Worker/Rotation/Rounds.antt =====
-- What a round comes to.
use docsearch.Results.{Result, ok, err}
use docsearch.Worker.Rotation.{
  queue_eq, Crew, Queue, Result, serve_all, serve, Round, worker_of, serve_one, note_result,
  round_over, built_for, worker_from,
}
use docsearch.Prelude.{
  ◌≡◌, refl, sym, ◌↔◌, inl, inr, Bool, true, false, ◌||◌, List, [], ◌∷◌, ◌++◌, arith, if◌then◌else◌,
  any, Text, text_eq_iff, ◌∙◌, Bool-cases, Option, none, some,
}

abbrev pub or_else : {V : Type 0} → Option V → Option V → Option V
or_else none o = o
or_else (some v) o = some v

or_else-none : {V : Type 0} (o : Option V) → or_else o none ≡ o
or_else-none none = refl
or_else-none (some v) = refl

or_else-both :
    {V : Type 0} (o : Option V) (here later : Bool) (v : V)
    → or_else (or_else o (if here then some v else none)) (if later then some v else none)
      ≡ or_else o (if elim here [ true ↦ true | false ↦ later ] then some v else none)
or_else-both none true later v = refl
or_else-both none false later v = refl
or_else-both (some u) here later v = refl

queue_eq_iff : (a b : Queue) → (queue_eq a b ≡ true) ↔ (a ≡ b)
unfolding queue_eq
queue_eq_iff a b = ground (arith, text_eq_iff a.user b.user, text_eq_iff a.library b.library)

module _ {W V : Type 0} (crew : Crew W V) (once : Bool) where
  -- The answers of the queues, each served once and in order, whatever the others answered.
  abbrev pub answers : List Queue → List (Queue × V) → W → List (Result Text Bool)
  answers [] built w = []
  answers (queue ∷ queues) built w =
      (serve crew once queue built w).0
      ∷ answers queues (worker_of crew once queue built).1 (serve crew once queue built w).1

  abbrev pub did_work : Result Text Bool → Bool
  did_work (ok did) = did
  did_work (err e) = false

  abbrev pub errors_of : List (Result Text Bool) → List Text
  errors_of [] = []
  errors_of (ok did ∷ rest) = errors_of rest
  errors_of (err e ∷ rest) = e ∷ errors_of rest

  abbrev pub succeeds : Result Text Bool → Bool
  succeeds (ok did) = true
  succeeds (err e) = false

  -- Where some queue succeeded, whether one of them worked; where all failed, the first answer.
  abbrev pub verdict_of : List (Result Text Bool) → Result Text Bool
  verdict_of [] = ok false
  verdict_of (r ∷ rs) = if any succeeds (r ∷ rs) then ok (any did_work (r ∷ rs)) else r

  -- What the loop has gathered after some queues, by what it had before and their answers.
  abbrev Gathers : List (Result Text Bool) → Round W V → Round W V → Type 0
  Gathers rs r s =
      (s.errors ≡ r.errors ++ errors_of rs) × (s.any_worked ≡ (r.any_worked || any did_work rs))

  note_result-world :
      (res : Result Text Bool) (r : Round W V)
      → ((note_result crew once res r).world ≡ r.world)
        × ((note_result crew once res r).built ≡ r.built)
  unfolding note_result
  note_result-world (ok did) r = (refl, refl)
  note_result-world (err e) r = (refl, refl)

  built_for-append :
      (q k : Queue) (v : V) (built : List (Queue × V))
      → built_for q (built ++ (k, v) ∷ [])
        ≡ or_else (built_for q built) (if queue_eq k q then some v else none)
  unfolding built_for
  built_for-append q k v [] = refl
  built_for-append q k v ((p, u) ∷ built) = elim (Bool-cases (queue_eq p q)) [
    | inl same ↦ rw same refl
    | inr other ↦ rw other (built_for-append q k v built)
  ]

  built_for-worker_from :
      (q queue : Queue) (built : List (Queue × V)) (o : Option V)
      → built_for queue built ≡ o
      → built_for q (worker_from crew once queue built o).1
        ≡ or_else (built_for q built) (if queue_eq queue q then some (crew.worker q) else none)
  unfolding worker_from
  built_for-worker_from q queue built none e = elim (Bool-cases (queue_eq queue q)) [
    | inl same ↦
        built_for-append q queue (crew.worker queue) built ∙ rw ((queue_eq_iff queue q).0 same) refl
    | inr other ↦ built_for-append q queue (crew.worker queue) built ∙ rw other refl
  ]
  built_for-worker_from q queue built (some v) e = elim (Bool-cases (queue_eq queue q)) [
    | inl same ↦ rw (sym ((queue_eq_iff queue q).0 same)) (rw e refl)
    | inr other ↦ rw other (sym (or_else-none (built_for q built)))
  ]

  serve_all-built :
      (q : Queue) (queues : List Queue) (r : Round W V)
      → built_for q (serve_all crew once queues r).built
        ≡ or_else
            (built_for q r.built)
            (if any (λ p. queue_eq p q) queues then some (crew.worker q) else none)
  unfolding serve_all
  serve_all-built q [] r = sym (or_else-none (built_for q r.built))
  serve_all-built q (queue ∷ queues) r =
      serve_all-built q queues (serve_one crew once queue r)
      ∙ rw
          ((note_result-world (serve crew once queue r.built r.world).0 (record r {
            world = (serve crew once queue r.built r.world).1;
            built = (worker_of crew once queue r.built).1;
          })).1)
          (rw (built_for-worker_from q queue r.built (built_for queue r.built) refl) (
            or_else-both (built_for q r.built) (queue_eq queue q) (any (λ p. queue_eq p q) queues)
              (crew.worker q)))

  -- After a round, a queue that had a worker still has it, a waiting queue that had none has a new
  -- one, and no other queue has got one.
  pub round_over-built :
      (q : Queue) (built : List (Queue × V)) (queues : List Queue) (w : W)
      → built_for q (round_over crew once built (ok queues, w)).1.0
        ≡ or_else
            (built_for q built)
            (if any (λ p. queue_eq p q) queues then some (crew.worker q) else none)
  unfolding round_over
  round_over-built q built queues w =
      serve_all-built q queues
        (record { world = w; built = built; any_worked = false; errors = [] })
