-- ===== src/Sync/Plan/Run/Acts.antt =====
-- What a run makes of a plan.
use docsearch.Sync.Plan.{plan}
use docsearch.Sync.{Options, Action, Held, Job, Shown}
use docsearch.Sync.Plan.Run.{
  Peers, Error, Options, act_all, run_planned, run, plan_with_shown, read_plan, act, guarded,
  plan_with_jobs, plan, plan_with_held, job_window,
}
use docsearch.Results.{Result, ok, err, ok-injective}
use docsearch.Prelude.{◌≡◌, refl, ap, true, false, List, [], ◌∷◌, map, arith, Text, sym}

abbrev pub of_result : {A B : Type 0} → (A → B) → Result Error A → Result Error B
of_result f (ok a) = ok (f a)
of_result f (err e) = err e

module _ {W B : Type 0} (peers : Peers W B) (options : Options) where
  act_all-actions :
      (actions : List Action) (w : W) → map (λ o. o.0) (act_all peers options actions w).0 ≡ actions
  unfolding act_all
  act_all-actions [] w = refl
  act_all-actions (action ∷ actions) w =
      ap (λ rest. action ∷ rest) (act_all-actions actions (act peers options action w).1)

  run_planned-outcomes :
      (p : Result Error (List Action) × W)
      → of_result (map (λ o. o.0)) (run_planned peers options p).0 ≡ p.0
  unfolding run_planned
  run_planned-outcomes (err e, w) = refl
  run_planned-outcomes (ok actions, w) = ap ok (act_all-actions actions w)

  -- A run reports an outcome for each action of its plan, in the plan's order, whichever of them
  -- fail, and it fails exactly when its plan fails, with that error.
  pub run-outcomes :
      (w : W) → of_result (map (λ o. o.0)) (run peers options w).0 ≡ (read_plan peers options w).0
  unfolding run
  run-outcomes w = run_planned-outcomes (read_plan peers options w)

  plan_with_shown-nil :
      (w : W) (actions : List Action)
      → options.allow_empty ≡ false
      → (plan_with_shown peers options (ok [], w)).0 ≡ ok actions
      → actions ≡ []
  unfolding plan_with_shown
  plan_with_shown-nil w actions strict h = by_held (peers.list_held w) h
    where
      by_guard :
          (planned : List Action) → guarded peers options [] planned ≡ ok actions → actions ≡ []
      by_guard [] h = cc h
      by_guard (a ∷ more) h = ground (arith, h, strict)

      by_jobs :
          (held : List Held) (jobs : Result Text (List Job) × W)
          → (plan_with_jobs peers options [] held jobs).0 ≡ ok actions
          → actions ≡ []
      by_jobs held (err e, w) h = cc h
      by_jobs held (ok jobs, w) h = by_guard (plan [] held jobs options) h

      by_held :
          (held : Result Text (List Held) × W)
          → (plan_with_held peers options [] held).0 ≡ ok actions
          → actions ≡ []
      by_held (err e, w) h = cc h
      by_held (ok held, w) h = by_jobs held (peers.list_jobs true job_window w) h

  read_plan-nil :
      (shown : Result Text (List Shown) × W) (actions : List Action)
      → options.allow_empty ≡ false
      → shown.0 ≡ ok []
      → (plan_with_shown peers options shown).0 ≡ ok actions
      → actions ≡ []
  read_plan-nil (err e, w) actions strict none_shown h = cc none_shown
  read_plan-nil (ok [], w) actions strict none_shown h = plan_with_shown-nil w actions strict h
  read_plan-nil (ok (s ∷ shown), w) actions strict none_shown h = cc none_shown

  run_planned-nil :
      (p : Result Error (List Action) × W) (outcomes : List (Action × List Text))
      → ((actions : List Action) → p.0 ≡ ok actions → actions ≡ [])
      → (run_planned peers options p).0 ≡ ok outcomes
      → (outcomes ≡ []) × ((run_planned peers options p).1 ≡ p.1)
  unfolding run_planned
  run_planned-nil (err e, w) outcomes idle h = cc h
  run_planned-nil (ok [], w) outcomes idle h = (sym (ok-injective h), refl)
  run_planned-nil (ok (a ∷ actions), w) outcomes idle h = cc (idle (a ∷ actions) refl)

  -- When Paperless shows nothing and an empty sync was not allowed, a run that succeeds did nothing:
  -- it has no outcome, and it left the world as the reading of the two sides left it.
  pub run-nothing_shown :
      (w : W) (outcomes : List (Action × List Text))
      → options.allow_empty ≡ false
      → (peers.list_shown w).0 ≡ ok []
      → (run peers options w).0 ≡ ok outcomes
      → (outcomes ≡ []) × ((run peers options w).1 ≡ (read_plan peers options w).1)
  unfolding run read_plan
  run-nothing_shown w outcomes strict none_shown h =
      run_planned-nil (plan_with_shown peers options (peers.list_shown w)) outcomes
        (λ actions. read_plan-nil (peers.list_shown w) actions strict none_shown) h
