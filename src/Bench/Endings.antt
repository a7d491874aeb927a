-- ===== src/Bench/Endings.antt =====
-- internal/bench/runner.go: how `execute` and `Recover` leave a run.
use ai_model_scheduler.Base.{
  ◌++◌, inl, All-append, inr, ◌∷◌, List, [], Option, if◌then◌else◌, Bool, ℕ, ℤ, ◌≡◌, ◌⊎◌, All, true,
  false, refl,
}
use ai_model_scheduler.Bench.Run.{
  run_complete, run_failed, run_cancelled, RunStatus, config_skipped, is_active, ConfigResult,
  Floats, Run,
}
use ai_model_scheduler.Bench.Execute.{
  skipped_run, run_all, finish, execute, run_staged, skipped, skip_all,
}
use ai_model_scheduler.Bench.Outcomes.{run_config-IsEnded, IsEnded}
use ai_model_scheduler.Bench.Cluster.{State, Host, Cluster}
use ai_model_scheduler.Jobspec.Job.{Env}
use ai_model_scheduler.Bench.Stopping.{restore}
use ai_model_scheduler.Bench.Keeps.{
  Yields-carry, Yields-if_err, Yields-pure, Yields-on_result, Yields-if, Yields-bind, Yields,
}
use ai_model_scheduler.Bench.Staging.{StagedDataset}
use ai_model_scheduler.Bench.Configs.{Focus}

-- The configuration ended, or it was passed over.
unfoldable pub IsOver : {F : Type 0} → ConfigResult F → Type 0
IsOver res = IsEnded res ⊎ (res.status ≡ config_skipped)

-- The run is over, and so is each of its configurations.
unfoldable pub IsFinal : {F : Type 0} → Run F → Type 0
IsFinal run = (is_active run.status ≡ false) × All IsOver run.results

skip_all-IsOver : {F : Type 0} (rs : List (ConfigResult F)) → All IsOver (skip_all rs)
unfolding skip_all IsOver skipped
skip_all-IsOver [] = tt
skip_all-IsOver (r ∷ rs) = (inr refl, skip_all-IsOver rs)

module _ {F W : Type 0} (cluster : Cluster F W) (host : Host F W) where
  pub restore-results :
      (run : Run F) → Yields (λ run'. run'.results ≡ run.results) (restore cluster host run)
  unfolding restore
  restore-results run =
      Yields-if run.restored _ _ (Yields-pure run refl)
        (Yields-bind _ _ λ errs. Yields-bind _ _ λ _. Yields-pure _ refl)

module _ {F W : Type 0} (floats : Floats F) (cluster : Cluster F W) (host : Host F W) (env : Env)
    (eval_timeout : ℤ) (fuel : ℕ) where
  run_all-IsOver :
      (run : Run F) (staged : Option StagedDataset) (before after : List (ConfigResult F))
      → All IsOver before
      → Yields
          (All IsOver)
          (run_all floats cluster host env eval_timeout fuel run staged before after)
  unfolding run_all IsOver skipped
  run_all-IsOver run staged before [] h = Yields-pure before h
  run_all-IsOver run staged before (res ∷ after) h =
      let f : Focus F = record { run = run; before = before; after = after } in
      Yields-bind _ _ λ ended.
        Yields-if ended _ _
          (run_all-IsOver run staged (before ++ skipped res ∷ []) after
            (All-append IsOver before _ h (inr refl, tt)))
          (Yields-carry {R = IsEnded} _ _
            (record {
              at = λ s.
                  (run_config-IsEnded floats cluster host env eval_timeout fuel f staged res s).0;
            })
            λ done k. Yields-bind _ _ λ _.
              run_all-IsOver run staged (before ++ done ∷ []) after
                (All-append IsOver before _ h (inl k, tt)))

  finish-IsFinal :
      (run : Run F) (status : RunStatus)
      → is_active status ≡ false
      → All IsOver run.results
      → Yields IsFinal (finish cluster host run status)
  unfolding finish IsFinal
  finish-IsFinal run status ended over =
      Yields-bind _ _ λ t. Yields-bind _ _ λ _. Yields-bind _ _ λ _. Yields-pure _ (ended, over)

  -- restore, then finish
  restored-IsFinal :
      (run restored : Run F) (status : RunStatus)
      → is_active status ≡ false
      → All IsOver run.results
      → restored.results ≡ run.results
      → Yields IsFinal (finish cluster host restored status)
  restored-IsFinal run restored status ended over same =
      finish-IsFinal restored status ended (rw same over)

  if_cancelled :
      (b : Bool) (status : RunStatus)
      → is_active status ≡ false
      → is_active (if b then run_cancelled else status) ≡ false
  unfolding is_active
  if_cancelled true status h = refl
  if_cancelled false status h = h

  run_staged-IsFinal :
      (run : Run F) (staged : Option StagedDataset)
      → Yields IsFinal (run_staged floats cluster host env eval_timeout fuel run staged)
  unfolding run_staged skipped_run is_active
  run_staged-IsFinal run staged = Yields-bind _ _ λ (e, stopping).
      Yields-if_err e _ _
        (λ text.
          let skipping = skipped_run floats cluster host env eval_timeout fuel stopping text in
          Yields-carry _ _ (restore-results cluster host skipping) λ restored same.
            restored-IsFinal skipping restored run_failed refl (skip_all-IsOver stopping.results)
              same)
        (Yields-carry _ _ (run_all-IsOver stopping staged [] stopping.results tt) λ results over.
          Yields-carry _ _ (restore-results cluster host (record stopping { results = results }))
            λ restored same. Yields-bind _ _ λ ended.
              restored-IsFinal (record stopping { results = results }) restored _
                (if_cancelled ended run_complete refl) over same)

  execute-parts :
      (run : Run F) → Yields IsFinal (execute floats cluster host env eval_timeout fuel run)
  unfolding execute skipped_run is_active
  execute-parts run = Yields-bind _ _ λ _. Yields-bind _ _ λ staged.
      Yields-on_result staged _ _
        (λ text. Yields-bind _ _ λ ended.
          finish-IsFinal _ _ (if_cancelled ended run_failed refl) (skip_all-IsOver run.results))
        λ st. run_staged-IsFinal _ st

  -- Whatever the cluster answers, `execute` returns a run that is no longer active, in which every
  -- configuration is complete with metrics, failed or skipped.
  pub execute-IsFinal :
      (run : Run F) (s : State F W)
      → IsFinal (execute floats cluster host env eval_timeout fuel run s).0
  execute-IsFinal run s = (execute-parts run).at s
