-- ===== src/Bench/Execute.antt =====
-- internal/bench/runner.go: `execute`, `finish` and `Recover`.
use ai_model_scheduler.Base.{
  String, ℕ, ℤ, true, not, List, [], ◌∷◌, ◌++◌, Option, if◌then◌else◌, has_prefix,
}
use ai_model_scheduler.Bench.Run.{
  config_failed, ConfigStatus, run_complete, run_interrupted, run_cancelled, run_failed, RunStatus,
  run_running, is_active, Run, config_skipped, config_pending, config_deploying, config_evaluating,
  config_failed, Floats, ConfigResult,
}
use ai_model_scheduler.Bench.Cluster.{
  ◌>>=◌, ◌>>◌, pure, finished, purged_prefix, note, act, ◌>>◌, if_err, on_result, pure, read, M,
  Host, Cluster,
}
use ai_model_scheduler.Jobspec.Job.{Env}
use ai_model_scheduler.Nomadapi.Deployment.{Deployment}
use ai_model_scheduler.Bench.Staging.{stage_dataset, StagedDataset}
use ai_model_scheduler.Bench.Stopping.{restore, deployment_prefix, save, stop_others, stop}
use ai_model_scheduler.Bench.Configs.{whole, run_config, Focus}
use ai_model_scheduler.Jobspec.BenchJobs.{bench_job_prefix}

-- A result that is passed over.
unfoldable pub skipped : {F : Type 0} → ConfigResult F → ConfigResult F
skipped res = record res { status = config_skipped }

unfoldable pub skip_all : {F : Type 0} → List (ConfigResult F) → List (ConfigResult F)
skip_all [] = []
skip_all (r ∷ rs) = skipped r ∷ skip_all rs

unfoldable pub interrupted_at : {F : Type 0} → ConfigStatus → ConfigResult F → ConfigResult F
interrupted_at config_pending res = skipped res
interrupted_at config_deploying res = record res {
  status = config_failed;
  error = "interrupted by app restart";
}
interrupted_at config_evaluating res = record res {
  status = config_failed;
  error = "interrupted by app restart";
}
interrupted_at _ res = res

-- The result of a configuration that a restart interrupted.
unfoldable pub interrupted : {F : Type 0} → ConfigResult F → ConfigResult F
unfolding interrupted_at
interrupted res = interrupted_at res.status res

unfoldable pub interrupt_all : {F : Type 0} → List (ConfigResult F) → List (ConfigResult F)
interrupt_all [] = []
interrupt_all (r ∷ rs) = interrupted r ∷ interrupt_all rs

module _ {F W : Type 0} (cluster : Cluster F W) (host : Host F W) where
  -- Runner.finish: the run has ended, and another one may start.
  unfoldable pub finish : Run F → RunStatus → M F W (Run F)
  finish run status = do
    t ← read host.now
    let run' = record run { status = status; finished_at = t }
    save cluster host run'
    note (finished run')
    pure run'

  -- The loop of Recover that purges the bench deployments.
  unfoldable pub purge_leftovers : List Deployment → M F W (Unit {0})
  purge_leftovers [] = pure tt
  purge_leftovers (d ∷ deps) =
      let rest = purge_leftovers deps in
      let purged_first = stop cluster host d.name true >> rest in
      if has_prefix d.name deployment_prefix then purged_first else rest

  -- The body of Recover's loop, for one run that the store lists.
  unfoldable pub recover_run : Run F → M F W (Run F)
  recover_run run = if not (is_active run.status) then pure run else do
    let run' = record run { results = interrupt_all run.results }
    listing ← read cluster.list_managed
    on_result listing (λ _. pure tt) purge_leftovers
    act (purged_prefix bench_job_prefix) (cluster.purge_jobs_with_prefix bench_job_prefix)
    restored ← restore cluster host run'
    t ← read host.now
    let ended = record restored { status = run_interrupted; finished_at = t }
    save cluster host ended
    pure ended

  unfoldable pub recover_each : List (Run F) → M F W (List (Run F))
  recover_each [] = pure []
  recover_each (r ∷ rs) = do r' ← recover_run r; rs' ← recover_each rs; pure (r' ∷ rs')

  -- Recover, with the runs as it leaves them.
  unfoldable pub recover : M F W (List (Run F))
  recover = do runs ← read host.list_runs; on_result runs (λ _. pure []) recover_each

module _ {F W : Type 0} (floats : Floats F) (cluster : Cluster F W) (host : Host F W) (env : Env)
    (eval_timeout : ℤ) (fuel : ℕ) where
  -- The loop of execute: the results so far, and those to come.
  unfoldable pub run_all :
      Run F
      → Option StagedDataset
      → List (ConfigResult F)
      → List (ConfigResult F)
      → M F W (List (ConfigResult F))
  run_all run staged before [] = pure before
  run_all run staged before (res ∷ after) = do
    ended ← read host.cancelled
    if ended then run_all run staged (before ++ skipped res ∷ []) after else (do
      let f : Focus F = record { run = run; before = before; after = after }
      done ← run_config floats cluster host env eval_timeout fuel f staged res
      save cluster host (whole f done)
      run_all run staged (before ++ done ∷ []) after)

  -- The run as execute leaves it when an error ends it early.
  unfoldable pub skipped_run : Run F → String → Run F
  skipped_run run text = record run { error = text; results = skip_all run.results }

  unfoldable pub run_staged : Run F → Option StagedDataset → M F W (Run F)
  run_staged run staged = do
    (e, stopping) ← stop_others cluster host run
    if_err e
        (λ text. do
          restored ← restore cluster host (skipped_run stopping text)
          finish cluster host restored run_failed)
        (do
          results ← run_all stopping staged [] stopping.results
          restored ← restore cluster host (record stopping { results = results })
          ended ← read host.cancelled
          finish cluster host restored (if ended then run_cancelled else run_complete))

  unfoldable pub execute : Run F → M F W (Run F)
  execute run = do
    let running = record run { status = run_running }
    save cluster host running
    staged ← stage_dataset cluster host env fuel running
    on_result staged
        (λ text. do
          ended ← read host.cancelled
          finish cluster host (skipped_run running text)
              (if ended then run_cancelled else run_failed))
        (run_staged running)
