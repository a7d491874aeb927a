-- ===== src/Bench/Control.antt =====
-- internal/bench/runner.go: `Start`, `Cancel` and `ActiveID`, each as one step under the runner's lock.
-- The store and its errors are a parameter; its SaveRun gives a new run its ID.
use ai_model_scheduler.Base.{
  true, ◌&&◌, sprint, suc, false, none, ◌==◌, [], ok, ◌∷◌, some, err, not, if◌then◌else◌, List, ℕ,
  Bool, Result, Option, String,
}
use ai_model_scheduler.Bench.Eval.{uses_dataset, normalize, EvalSpec, EvalError}
use ai_model_scheduler.Bench.Config.{Config, Suite}
use ai_model_scheduler.Bench.Run.{config_pending, ConfigResult, run_pending, Run}

pub record Store (E F W : Type 0) : Type 0 where
  pub get_suite : String → W → Result E Suite × W
  pub get_dataset : String → W → Option E × W
  pub save_new : Run F → W → Result E (Run F) × W

-- `active` of the runner, "" where no run is in progress, and whether its context was cancelled.
pub record Control : Type 0 where
  pub active : String
  pub cancelling : Bool

pub data StartError (E : Type 0) : Type 0 where
  loading_suite saving : E → StartError E
  bad_spec : EvalError → StartError E
  no_dataset : String → E → StartError E
  run_active : StartError E

abbrev pub pending : {F : Type 0} → F → ℕ → Config → ConfigResult F
pending zero_sec i c = record {
  index = i;
  label = c.label;
  config = c;
  status = config_pending;
  error = "";
  warnings = [];
  progress = "";
  deployment = "";
  started_at = 0;
  finished_at = 0;
  startup_sec = zero_sec;
  metrics = none;
}

-- for i, c := range suite.Configs
unfoldable pub pending_results : {F : Type 0} → F → ℕ → List Config → List (ConfigResult F)
pending_results zero_sec i [] = []
pending_results zero_sec i (c ∷ cs) = pending zero_sec i c ∷ pending_results zero_sec (suc i) cs

unfoldable pub new_run : {F : Type 0} → F → Suite → EvalSpec → ℕ → Run F
new_run zero_sec suite eval t = record {
  id = "";
  suite_id = suite.id;
  suite_name = suite.name;
  eval = eval;
  status = run_pending;
  error = "";
  started_at = t;
  finished_at = 0;
  restore = [];
  restored = false;
  results = pending_results zero_sec 0 suite.configs;
}

module _ {E F W : Type 0} (zero_sec : F) (store : Store E F W) (now : W → ℕ × W) where
  -- The outcome, the runner and the rest of the state after a step.
  abbrev pub Started : Type 0
  Started = Result (StartError E) (Run F) × (Control × W)

  unfoldable pub adopt : Control → Result E (Run F) × W → Started
  adopt control (err e, w) = (err (saving e), (control, w))
  adopt control (ok run, w) = (ok run, (record { active = run.id; cancelling = false }, w))

  -- From the lock on.
  unfoldable pub begin : Control → Suite → EvalSpec → W → Started
  unfolding adopt
  begin control suite eval w =
      if not (control.active == "")
      then (err run_active, (control, w))
      else let (t, w') = now w in adopt control (store.save_new (new_run zero_sec suite eval t) w')

  unfoldable pub with_dataset : Control → Suite → EvalSpec → Option E × W → Started
  with_dataset control suite eval (none, w) = begin control suite eval w
  with_dataset control suite eval (some e, w) = (err (no_dataset eval.dataset_id e), (control, w))

  unfoldable pub with_spec : Control → Suite → Result EvalError EvalSpec → W → Started
  unfolding with_dataset
  with_spec control suite (err e) w = (err (bad_spec e), (control, w))
  with_spec control suite (ok eval) w =
      if uses_dataset eval && not (eval.dataset_id == "")
      then with_dataset control suite eval (store.get_dataset eval.dataset_id w)
      else begin control suite eval w

  unfoldable pub with_suite : Control → EvalSpec → Result E Suite × W → Started
  unfolding with_spec
  with_suite control eval (err e, w) = (err (loading_suite e), (control, w))
  with_suite control eval (ok suite, w) = with_spec control suite (normalize eval) w

  -- Runner.Start; the run that it gives is the one that `execute` takes up.
  unfoldable pub start : Control → String → EvalSpec → W → Started
  unfolding with_suite
  start control suite_id eval w = with_suite control eval (store.get_suite suite_id w)

-- Runner.Cancel; an error where the run is not the active one. The routes give no empty identifier.
unfoldable pub cancel : Control → String → Option String × Control
cancel control run_id =
    if not (control.active == run_id)
    then (some (sprint ("run " ∷ run_id ∷ " is not active" ∷ [])), control)
    else (none, record control { cancelling = true })

-- The last section of finish
unfoldable pub release : Control → Control
release control = record { active = ""; cancelling = false }

-- Runner.ActiveID
unfoldable pub active_id : Control → String
active_id control = control.active
