-- ===== src/Bench/Running.antt =====
-- internal/bench/runner.go: `runConfig` and the loop over the configurations take nothing down.
use ai_model_scheduler.Base.{
  show_nat, sprint, refl, true, false, has_prefix-append, true, false, ◌≡◌, has_prefix, [], ◌++◌,
  ◌∷◌, Option, ℕ, ℤ, List, String,
}
use ai_model_scheduler.Bench.Outage.{Target, Keeps-read, Covers}
use ai_model_scheduler.Bench.Unstopped.{
  Covers-Reads, Keeps-purge_job, Keeps-purge, Keeps-registered, Keeps-deployed, Keeps-save,
}
use ai_model_scheduler.Jobspec.Params.{Params}
use ai_model_scheduler.Bench.Run.{config_deploying, config_evaluating, ConfigResult, Run, Floats}
use ai_model_scheduler.Bench.Cluster.{Host, Cluster}
use ai_model_scheduler.Jobspec.Job.{Env}
use ai_model_scheduler.Bench.Configs.{
  whole, alloc_of, eval_spec, deployment_name, out_of_fuel, Focus, evaluate, finish_config, fail,
  measure, run_config, note_server_exits,
}
use ai_model_scheduler.Bench.Execute.{run_all}
use ai_model_scheduler.Bench.Watch.{no_usage, Watched}
use ai_model_scheduler.Bench.Keeps.{
  Keeps-if_err, Keeps-if, Keeps-pure, Keeps-on_result, Keeps-bind, Keeps,
}
use ai_model_scheduler.Bench.Staging.{short, StagedDataset}
use ai_model_scheduler.Nomadapi.Deployment.{no_deployment}
use ai_model_scheduler.Bench.Config.{params}
use ai_model_scheduler.Jobspec.BenchJobs.{bench_eval_job}
use ai_model_scheduler.Bench.Polling.{find_deployment}
use ai_model_scheduler.Bench.Reading.{Keeps-watch_eval, Keeps-wait_healthy}
use ai_model_scheduler.Bench.Stopping.{deployment_prefix}

module _ {F W : Type 0} (n : Target) (ps : List Params) (floats : Floats F) (cluster : Cluster F W)
    (host : Host F W) (env : Env) (eval_timeout : ℤ) (fuel : ℕ)
    (apart : has_prefix n.name deployment_prefix ≡ false) where
  Keeps-fail :
      (res : ConfigResult F) (text : String)
      → Keeps (Covers n ps) (fail floats cluster host env eval_timeout fuel res text)
  unfolding fail
  Keeps-fail res text = Keeps-bind _ _ (Keeps-read n ps host.now) λ _. Keeps-pure _

  Keeps-note_server_exits :
      (res : ConfigResult F)
      → Keeps (Covers n ps) (note_server_exits floats cluster host env eval_timeout fuel res)
  unfolding note_server_exits
  Keeps-note_server_exits res = Keeps-bind _ _ (Keeps-read n ps cluster.list_managed) λ listing.
      Keeps-on_result listing _ _ (λ _. Keeps-pure _)
        λ deps. Keeps-if _ _ _ (Keeps-pure _) (
          Keeps-bind _ _
            (Keeps-read n ps (cluster.task_exits (alloc_of (find_deployment res.deployment deps))))
            λ _. Keeps-pure _)

  Keeps-finish_config :
      (start ready : ℕ) (watched : Watched F)
      → Keeps
          (Covers n ps)
          (finish_config floats cluster host env eval_timeout fuel start ready watched)
  unfolding finish_config
  Keeps-finish_config start ready (outcome, res) =
      Keeps-on_result (out_of_fuel outcome) _ _ (Keeps-fail res)
        λ (m, resources). Keeps-bind _ _ (Keeps-read n ps host.now) λ _. Keeps-pure _

  Keeps-evaluate :
      (f : Focus F) (staged : Option StagedDataset) (start : ℕ) (endpoint : String)
      (res : ConfigResult F)
      → Keeps
          (Covers n ps)
          (evaluate floats cluster host env eval_timeout fuel f staged start endpoint res)
  unfolding evaluate
  Keeps-evaluate f staged start endpoint res = Keeps-bind _ _ (Keeps-read n ps host.now) λ ready.
      let res' : ConfigResult F = record res { status = config_evaluating } in
      let spec = eval_spec f.run res' staged endpoint in
      let job = bench_eval_job env spec in
      Keeps-bind _ _ (Keeps-save n ps cluster host (whole f res')) λ _.
        Keeps-bind _ _ (Keeps-registered n ps job (cluster.register_job job)) λ e.
          Keeps-if_err e _ _ (λ text. Keeps-fail res' _)
            (Keeps-bind _ _ (Keeps-read n ps host.now) λ t.
              Keeps-bind _ _
                (Keeps-watch_eval cluster host (Covers-Reads n ps cluster host) floats _
                  (λ r.
                    Keeps-bind _ _ (Keeps-save n ps cluster host (whole f r)) λ _. Keeps-pure tt)
                  fuel spec.job_id t _ 0 (no_usage floats) res')
                λ watched. Keeps-bind _ _ (Keeps-finish_config start ready watched) λ done.
                  Keeps-bind _ _ (Keeps-purge_job n ps cluster host env fuel spec.job_id)
                    λ _. Keeps-pure done)

  Keeps-measure :
      (f : Focus F) (staged : Option StagedDataset) (start : ℕ) (res : ConfigResult F)
      → Keeps (Covers n ps) (measure floats cluster host env eval_timeout fuel f staged start res)
  unfolding measure
  Keeps-measure f staged start res = Keeps-bind _ _ (Keeps-read n ps host.now) λ t.
      Keeps-bind _ _
        (Keeps-wait_healthy cluster host (Covers-Reads n ps cluster host) fuel res.deployment t _
          no_deployment 0)
        λ waited.
          Keeps-bind _ _
            (Keeps-on_result (out_of_fuel waited) _ _ (Keeps-fail res)
              λ endpoint. Keeps-evaluate f staged start endpoint res)
            Keeps-note_server_exits

  deployment_name_lem :
      (run_id : String) (index : ℕ)
      → has_prefix (deployment_name run_id index) deployment_prefix ≡ true
  unfolding deployment_name has_prefix
  deployment_name_lem run_id index =
      has_prefix-append deployment_prefix (sprint (short run_id ∷ "-" ∷ show_nat index ∷ []))
        deployment_prefix refl

  Keeps-run_config :
      (f : Focus F) (staged : Option StagedDataset) (res : ConfigResult F)
      → Keeps (Covers n ps) (run_config floats cluster host env eval_timeout fuel f staged res)
  unfolding run_config
  Keeps-run_config f staged res = Keeps-bind _ _ (Keeps-read n ps host.now) λ t.
      let name = deployment_name f.run.id res.index in
      let res' : ConfigResult F = record res {
        deployment = name;
        started_at = t;
        status = config_deploying;
      } in
      let p = params res.config name in
      Keeps-bind _ _ (Keeps-save n ps cluster host (whole f res')) λ _.
        Keeps-bind _ _ (Keeps-read n ps host.now) λ start.
          Keeps-bind _ _ (Keeps-deployed n ps p (cluster.deploy p)) λ e.
            Keeps-bind _ _
              (Keeps-if_err e _ _ (λ text. Keeps-fail res' _) (Keeps-measure f staged start res'))
              λ done.
                Keeps-bind _ _ (Keeps-purge n ps cluster host name apart (deployment_name_lem _ _))
                  λ _. Keeps-pure done

  pub Keeps-run_all :
      (run : Run F) (staged : Option StagedDataset) (before after : List (ConfigResult F))
      → Keeps
          (Covers n ps)
          (run_all floats cluster host env eval_timeout fuel run staged before after)
  unfolding run_all
  Keeps-run_all run staged before [] = Keeps-pure before
  Keeps-run_all run staged before (res ∷ after) =
      let f : Focus F = record { run = run; before = before; after = after } in
      Keeps-bind _ _ (Keeps-read n ps host.cancelled) λ ended.
        Keeps-if ended _ _ (Keeps-run_all run staged _ after) (
          Keeps-bind _ _ (Keeps-run_config f staged res) λ done.
            Keeps-bind _ _ (Keeps-save n ps cluster host (whole f done))
              λ _. Keeps-run_all run staged (before ++ done ∷ []) after)
