-- ===== src/Bench/Stopping.antt =====
-- internal/bench/runner.go: `stopOthers` and `restore`.
use ai_model_scheduler.Base.{
  String, pos, Bool, true, false, List, [], ◌∷◌, ◌++◌, Option, none, some, if◌then◌else◌, ◌==◌,
  sprint, has_prefix, contains, trim_space, join,
}
use ai_model_scheduler.Jobspec.Params.{Params}
use ai_model_scheduler.Nomadapi.Deployment.{Deployment}
use ai_model_scheduler.Bench.Run.{Run}
use ai_model_scheduler.Bench.Cluster.{
  Cluster, Host, M, pure, ◌>>=◌, ◌>>◌, read, act, if_err, on_result, deployed, stopped, saved,
}

abbrev pub deployment_prefix : String
deployment_prefix = "bench-"

-- What the listing tells of the parameters, where none are stored.
unfoldable pub listed_params : Deployment → Params
listed_params d = record {
  name = d.name;
  runtime = d.runtime;
  model = d.model;
  port = d.port;
  gpu = d.gpu;
  ctx_size = pos 0;
  threads = pos 0;
  gpu_layers = pos 0;
  env = [];
  extra_args = "";
  cpu_mhz = d.cpu_mhz;
  mem_mb = d.mem_mb;
}

unfoldable pub stored_or_listed : Option Params → Deployment → Params
stored_or_listed (some p) d = p
stored_or_listed none d = listed_params d

unfoldable pub stopping_error : String → String → String
stopping_error name text = sprint ("stopping " ∷ name ∷ ": " ∷ text ∷ [])

-- A relaunch that fails, unless the deployment is there already, leaves a line.
unfoldable pub relaunch_error : Params → Option String → List String
relaunch_error p none = []
relaunch_error p (some text) =
    if contains text "already exists"
    then []
    else sprint ("relaunch " ∷ p.name ∷ ": " ∷ text ∷ []) ∷ []

-- run.Error, with a line for each relaunch that failed
unfoldable pub add_errors : String → List String → String
add_errors error [] = error
add_errors error (e ∷ es) = trim_space (sprint (error ∷ "\n" ∷ join "\n" (e ∷ es) ∷ []))

module _ {F W : Type 0} (cluster : Cluster F W) (host : Host F W) where
  -- Runner.save: a failure is only logged.
  unfoldable pub save : Run F → M F W (Option String)
  save run = act (saved run) (host.save_run run)

  unfoldable pub stop : String → Bool → M F W (Option String)
  stop name purge = act (stopped name purge) (cluster.stop name purge)

  -- The loop of `stopOthers`: the error that ends it, and the run with what was stopped so far.
  unfoldable pub stop_each : List Deployment → Run F → M F W (Option String × Run F)
  stop_each [] run = pure (none, run)
  stop_each (d ∷ deps) run =
      let rest = stop_each deps run in
      let purged_first = stop d.name true >> rest in
      if has_prefix d.name deployment_prefix
      then purged_first
      else if d.status == "dead"
      then rest
      else do
        stored ← read (cluster.deployment_params d.name)
        e ← stop d.name false
        if_err e (λ text. pure (some (stopping_error d.name text), run))
            (stop_each deps
              (record run { restore = run.restore ++ stored_or_listed stored d ∷ [] }))

  unfoldable pub save_stopped : Option String × Run F → M F W (Option String × Run F)
  save_stopped (some text, run) = pure (some text, run)
  save_stopped (none, run) = do save run; pure (none, run)

  unfoldable pub stop_others : Run F → M F W (Option String × Run F)
  unfolding save_stopped
  stop_others run = do
    listing ← read cluster.list_managed
    on_result listing (λ text. pure (some (sprint ("listing deployments: " ∷ text ∷ [])), run))
        (λ deps. do outcome ← stop_each deps run; save_stopped outcome)

  -- The loop of `restore`, with the error lines so far.
  unfoldable pub relaunch_each : List Params → List String → M F W (List String)
  relaunch_each [] errs = pure errs
  relaunch_each (p ∷ ps) errs = do
    e ← act (deployed p) (cluster.deploy p)
    relaunch_each ps (errs ++ relaunch_error p e)

  unfoldable pub restore : Run F → M F W (Run F)
  restore run = if run.restored then pure run else do
    errs ← relaunch_each run.restore []
    let run' = record run { restored = true; error = add_errors run.error errs }
    save run'
    pure run'
