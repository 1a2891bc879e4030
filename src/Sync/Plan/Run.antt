-- ===== src/Sync/Plan/Run.antt =====
-- The sync itself: it reads both sides, plans and acts.
pub mod Acts
use docsearch.Sync.Plan.{plan}
use docsearch.Sync.{push_kind, skip_kind, retire_kind, Options, Shown, Action, Held, Job}
use docsearch.Results.{Result, err, ok}
use docsearch.Prelude.{
  ℕ, Bool, true, not, ◌&&◌, List, [], ◌∷◌, ◌++◌, arith, if◌then◌else◌, is_empty, Text, Option,
}

pub data Error : Type 0 where
  cause : Text → Error
  nothing_shown : Error

-- The two sides, and the uploader. `W` is what their calls read and change, `B` a file's content.
pub record Peers (W B : Type 0) : Type 0 where
  pub list_shown : W → Result Text (List Shown) × W
  pub list_held : W → Result Text (List Held) × W
  pub list_jobs : Bool → ℕ → W → Result Text (List Job) × W
  pub remove : Text → W → List Text × W
  pub download : ℕ → Bool → W → Result Text B × W
  pub put : Text → Text → B → W → List Text × W
  pub close : B → W → List Text × W

abbrev pub job_window : ℕ
job_window = 10000

module _ {W B : Type 0} (peers : Peers W B) (options : Options) where
  -- The end of `Syncer.Plan`: a plan that would retire everything is refused.
  unfoldable pub guarded : List Shown → List Action → Result Error (List Action)
  guarded shown actions =
      if is_empty shown && (not (is_empty actions) && not options.allow_empty)
      then err nothing_shown
      else ok actions

  unfoldable pub plan_with_jobs :
      List Shown → List Held → Result Text (List Job) × W → Result Error (List Action) × W
  unfolding guarded plan
  plan_with_jobs shown held (err e, w) = (err (cause e), w)
  plan_with_jobs shown held (ok jobs, w) = (guarded shown (plan shown held jobs options), w)

  unfoldable pub plan_with_held :
      List Shown → Result Text (List Held) × W → Result Error (List Action) × W
  unfolding plan_with_jobs
  plan_with_held shown (err e, w) = (err (cause e), w)
  plan_with_held shown (ok held, w) = plan_with_jobs shown held (peers.list_jobs true job_window w)

  unfoldable pub plan_with_shown : Result Text (List Shown) × W → Result Error (List Action) × W
  unfolding plan_with_held
  plan_with_shown (err e, w) = (err (cause e), w)
  plan_with_shown (ok shown, w) = plan_with_held shown (peers.list_held w)

  -- `Syncer.Plan`.
  unfoldable pub read_plan : W → Result Error (List Action) × W
  unfolding plan_with_shown
  read_plan w = plan_with_shown (peers.list_shown w)

  -- `push`, on what the download gave. An error is a list that is not empty, as `errors.Join` has it.
  unfoldable pub push_body : Action → Result Text B × W → List Text × W
  push_body action (err e, w) = (e ∷ [], w)
  push_body action (ok body, w) =
      let (refused, w) = peers.put action.filename action.key body w in
      let (unclosed, w) = peers.close body w in (refused ++ unclosed, w)

  unfoldable pub act : Action → W → List Text × W
  unfolding push_body
  act action w = elim action.kind [
    | push_kind ↦ push_body action (peers.download action.id action.original w)
    | retire_kind ↦ peers.remove action.doc_id w
    | skip_kind ↦ ([], w)
  ]

  unfoldable pub act_all : List Action → W → List (Action × List Text) × W
  unfolding act
  act_all [] w = ([], w)
  act_all (action ∷ actions) w =
      let (errors, w) = act action w in
      let (outcomes, w) = act_all actions w in ((action, errors) ∷ outcomes, w)

  unfoldable pub run_planned :
      Result Error (List Action) × W → Result Error (List (Action × List Text)) × W
  unfolding act_all
  run_planned (err e, w) = (err e, w)
  run_planned (ok actions, w) = let (outcomes, w) = act_all actions w in (ok outcomes, w)

  -- `Syncer.Run`.
  unfoldable pub run : W → Result Error (List (Action × List Text)) × W
  unfolding read_plan run_planned
  run w = run_planned (read_plan w)
