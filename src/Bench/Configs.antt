-- ===== src/Bench/Configs.antt =====
-- internal/bench/runner.go: `runConfig` and `noteServerExits`.
use ai_model_scheduler.Base.{
  path_join, String, ℕ, ◌-◌, ℤ, true, List, [], ◌∷◌, ◌++◌, Option, none, some, length, Result, err,
  if◌then◌else◌, ◌==◌, sprint, show_nat, ◌+ℤ◌,
}
use ai_model_scheduler.Jobspec.Job.{Env}
use ai_model_scheduler.Jobspec.BenchJobs.{BenchEval, bench_eval_job, bench_job_prefix, bench_dir}
use ai_model_scheduler.Nomadapi.Deployment.{Deployment, no_deployment}
use ai_model_scheduler.Bench.Config.{params}
use ai_model_scheduler.Bench.Run.{
  Floats, Run, ConfigResult, config_deploying, config_evaluating, config_complete, config_failed,
}
use ai_model_scheduler.Bench.Cluster.{
  Cluster, Host, M, pure, ◌>>=◌, ◌>>◌, read, act, if_err, on_result, registered, deployed,
}
use ai_model_scheduler.Bench.Polling.{wait_healthy, seconds, find_deployment, wrap_ℤ}
use ai_model_scheduler.Bench.Staging.{StagedDataset, short, purge_job}
use ai_model_scheduler.Bench.Watch.{watch_eval, no_usage, Watched}
use ai_model_scheduler.Bench.Stopping.{deployment_prefix, save, stop}

-- The result under way, between those before and those after it in the run.
pub record Focus (F : Type 0) : Type 0 where
  pub run : Run F
  pub before : List (ConfigResult F)
  pub after : List (ConfigResult F)

-- The run as `save` stores it while the result stands as given.
unfoldable pub whole : {F : Type 0} → Focus F → ConfigResult F → Run F
whole f res = record f.run { results = f.before ++ res ∷ f.after }

-- bench-<short>-<index>
unfoldable pub deployment_name : String → ℕ → String
deployment_name run_id index = sprint (deployment_prefix ∷ short run_id ∷ "-" ∷ show_nat index ∷ [])

unfoldable pub eval_job_id : String → ℕ → String
eval_job_id run_id index = sprint (bench_job_prefix ∷ short run_id ∷ "-" ∷ show_nat index ∷ [])

parts_dir : Option StagedDataset → String
parts_dir none = ""
parts_dir (some st) = st.dir

parts_sum : Option StagedDataset → String
parts_sum none = ""
parts_sum (some st) = st.sha256

unfoldable pub eval_spec :
    {F : Type 0} → Run F → ConfigResult F → Option StagedDataset → String → BenchEval
unfolding parts_dir parts_sum
eval_spec run res staged endpoint = record {
  job_id = eval_job_id run.id res.index;
  endpoint = endpoint;
  model_name = deployment_name run.id res.index;
  runtime = res.config.runtime;
  accuracy = run.eval.accuracy;
  dataset_parts = parts_dir staged;
  dataset_sha256 = parts_sum staged;
  dataset_path = run.eval.dataset_path;
  tasks = run.eval.tasks;
  limit = run.eval.limit;
  concurrency = run.eval.concurrency;
  prompts = run.eval.prompts;
  max_tokens = run.eval.max_tokens;
  ready_timeout_sec = run.eval.ready_timeout_sec;
  out_dir = path_join (bench_dir ∷ run.id ∷ show_nat res.index ∷ []);
}

unfoldable pub exits_warning : List String → String → String
exits_warning exits last = sprint (
    "model server exited "
    ∷ show_nat (length exits)
    ∷ " time(s) during the run and was restarted; last exit: "
    ∷ last
    ∷ [])

last_of : String → List String → String
last_of d [] = d
last_of d (x ∷ xs) = last_of x xs

-- The allocation of a deployment, where the listing shows one.
unfoldable pub alloc_of : Option Deployment → String
alloc_of none = ""
alloc_of (some d) = d.alloc_id

unfoldable pub out_of_fuel : {A : Type 0} → Option (Result String A) → Result String A
out_of_fuel none = err "out of fuel"
out_of_fuel (some r) = r

module _ {F W : Type 0} (floats : Floats F) (cluster : Cluster F W) (host : Host F W) (env : Env)
    (eval_timeout : ℤ) (fuel : ℕ) where
  -- The closure `fail` of runConfig.
  unfoldable pub fail : ConfigResult F → String → M F W (ConfigResult F)
  fail res text = do
    t ← read host.now
    pure (record res { status = config_failed; error = text; finished_at = t })

  unfoldable pub warn_exits : ConfigResult F → List String → ConfigResult F
  unfolding last_of
  warn_exits res [] = res
  warn_exits res (x ∷ xs) = record res {
    warnings = res.warnings ++ exits_warning (x ∷ xs) (last_of x xs) ∷ [];
  }

  unfoldable pub note_server_exits : ConfigResult F → M F W (ConfigResult F)
  note_server_exits res = do
    listing ← read cluster.list_managed
    on_result listing (λ _. pure res)
        λ deps.
          let alloc = alloc_of (find_deployment res.deployment deps) in
          if alloc == ""
          then pure res
          else do exits ← read (cluster.task_exits alloc); pure (warn_exits res exits)

  unfoldable pub finish_config : ℕ → ℕ → Watched F → M F W (ConfigResult F)
  finish_config start ready (outcome, res) =
      on_result (out_of_fuel outcome) (fail res) λ (m, resources). do
        t ← read host.now
        pure (record res {
          metrics = some (record m { resources = some resources });
          startup_sec = floats.add (floats.seconds (ready - start)) m.wait_sec;
          status = config_complete;
          progress = "";
          finished_at = t;
        })

  -- From the healthy endpoint on; the eval job is purged once it was registered.
  unfoldable pub evaluate :
      Focus F → Option StagedDataset → ℕ → String → ConfigResult F → M F W (ConfigResult F)
  evaluate f staged start endpoint res = do
    ready ← read host.now
    let res' = record res { status = config_evaluating }
    save cluster host (whole f res')
    let spec = eval_spec f.run res' staged endpoint
    let job = bench_eval_job env spec
    e ← act (registered job) (cluster.register_job job)
    if_err e (λ text. fail res' (sprint ("starting eval job: " ∷ text ∷ [])))
        (do
          t ← read host.now
          watched ←
              watch_eval floats cluster host (λ r. do save cluster host (whole f r); pure tt) fuel
                spec.job_id t (wrap_ℤ (seconds f.run.eval.ready_timeout_sec +ℤ eval_timeout)) 0
                (no_usage floats) res'
          done ← finish_config start ready watched
          purge_job cluster host env fuel spec.job_id
          pure done)

  -- From the deployment on; the exits of the server are noted while it can still be read.
  unfoldable pub measure :
      Focus F → Option StagedDataset → ℕ → ConfigResult F → M F W (ConfigResult F)
  measure f staged start res = do
    t ← read host.now
    waited ←
        wait_healthy cluster host fuel res.deployment t (seconds f.run.eval.ready_timeout_sec)
          no_deployment 0
    done ←
        on_result (out_of_fuel waited) (fail res) (λ endpoint. evaluate f staged start endpoint res)
    note_server_exits done

  -- runConfig: the deployment is purged on every path.
  unfoldable pub run_config :
      Focus F → Option StagedDataset → ConfigResult F → M F W (ConfigResult F)
  run_config f staged res = do
    t ← read host.now
    let name = deployment_name f.run.id res.index
    let res' = record res { deployment = name; started_at = t; status = config_deploying }
    save cluster host (whole f res')
    start ← read host.now
    let p = params res.config name
    e ← act (deployed p) (cluster.deploy p)
    done ←
        if_err e (λ text. fail res' (sprint ("deploy: " ∷ text ∷ []))) (measure f staged start res')
    stop cluster host name true
    pure done
