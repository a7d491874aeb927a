-- ===== src/Bench/Covered.antt =====
-- internal/bench/runner.go: staging the dataset and the loop over the configurations take no
-- deployment down.
use Prim.Native.Char.{Char}
use ai_model_scheduler.Base.{zero, suc, [], suc, ℤ, ℕ, List, String}
use ai_model_scheduler.Bench.Outage.{Target, Keeps-read, Covers}
use ai_model_scheduler.Bench.Unstopped.{
  Covers-Reads, Keeps-purge_jobs, Keeps-finish_batch, Keeps-register_parts,
}
use ai_model_scheduler.Jobspec.Params.{Params}
use ai_model_scheduler.Bench.Cluster.{Host, Cluster}
use ai_model_scheduler.Bench.Run.{Run}
use ai_model_scheduler.Jobspec.Job.{Env}
use ai_model_scheduler.Bench.Staging.{stage_parts, stage_dataset, stage_batches}
use ai_model_scheduler.Bench.Keeps.{Keeps-on_result, Keeps-bind, Keeps-if, Keeps-pure, Keeps}
use ai_model_scheduler.Bench.Reading.{Keeps-wait_batch}

module _ {F W : Type 0} (n : Target) (ps : List Params) (cluster : Cluster F W) (host : Host F W)
    (env : Env) (fuel : ℕ) where
  Keeps-stage_batches :
      (rounds : ℕ) (run_id dir : String) (timeout : ℤ) (i : ℕ) (parts : List (List Char))
      → Keeps (Covers n ps) (stage_batches cluster host env fuel rounds run_id dir timeout i parts)
  unfolding stage_batches
  Keeps-stage_batches zero run_id dir timeout i parts = Keeps-pure _
  Keeps-stage_batches (suc rounds) run_id dir timeout i parts = Keeps-if _ _ _ (Keeps-pure _) (
      Keeps-bind _ _ (Keeps-register_parts n ps cluster host env fuel run_id dir i _ []) λ r.
        Keeps-on_result r _ _ (λ _. Keeps-pure _)
          λ ids. Keeps-bind _ _ (Keeps-read n ps host.now) λ start.
            Keeps-bind _ _
              (Keeps-wait_batch cluster host (Covers-Reads n ps cluster host) fuel start timeout
                ids)
              λ waited. Keeps-bind _ _ (Keeps-purge_jobs n ps cluster host env fuel ids) λ _.
                Keeps-bind _ _ (Keeps-finish_batch n ps cluster host env fuel waited) λ outcome.
                  Keeps-on_result outcome _ _ (λ _. Keeps-pure _)
                    λ _. Keeps-stage_batches rounds run_id dir timeout _ _)

  pub Keeps-stage_dataset :
      (run : Run F) → Keeps (Covers n ps) (stage_dataset cluster host env fuel run)
  unfolding stage_dataset stage_parts
  Keeps-stage_dataset run = Keeps-if _ _ _ (Keeps-pure _) (
      Keeps-bind _ _ (Keeps-read n ps (host.read_dataset run.eval.dataset_id)) λ content.
        Keeps-on_result content _ _ (λ _. Keeps-pure _)
          λ bytes.
            Keeps-on_result (host.pack bytes) _ _ (λ _. Keeps-pure _)
              λ packed.
                Keeps-bind _ _ (Keeps-stage_batches _ run.id _ _ 0 _)
                  λ done. Keeps-on_result done _ _ (λ _. Keeps-pure _) λ _. Keeps-pure _)
