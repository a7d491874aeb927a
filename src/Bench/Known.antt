-- ===== src/Bench/Known.antt =====
-- internal/bench/cluster.go: what the services have on record for a deployment.
use ai_model_scheduler.Bench.Told.{IsKnown}
use ai_model_scheduler.Base.{
  err, ok, eq_iff, ◌==◌, ◌≢◌, ◌≡◌, sprint, List, Result, Option, String, refl, [], ◌∷◌, some,
}
use ai_model_scheduler.Nomadapi.Api.{◌>>=◌, return, on_ok, ApiJob, Api}
use ai_model_scheduler.Jobspec.Params.{Params}
use ai_model_scheduler.Jobspec.Job.{Job, Env}
use ai_model_scheduler.Deploy.Service.{DeployError, PortRange}
use ai_model_scheduler.Bench.Cluster.{GpuStats}
use ai_model_scheduler.Bench.Adapter.{
  nomad_cluster, params_of, deployment_params, params_of-build, meta_params,
}
use ai_model_scheduler.Jobspec.Common.{job_prefix}
use ai_model_scheduler.Jobspec.Runtimes.{build}
use ai_model_scheduler.Bench.Stopping.{listed_params, stored_or_listed}
use ai_model_scheduler.Nomadapi.Deployment.{Deployment}
use ai_model_scheduler.Nomadapi.Listing.{job_meta}

module _ {F W : Type 0} (api : Api W) (decode : String → Option Params) (encode : Params → String)
    (env : Env) (range : PortRange) (show_error : DeployError → String)
    (gpu_stats : W → Result String (List (GpuStats F)) × W) (name : String) where
  -- Each job that Nomad answers under the deployment's id has the meta of a job that `build` made of
  -- parameters of that name.
  unfoldable pub AreBuilt : Type 0
  AreBuilt =
      (w : W) (held : ApiJob)
      → (api.job_info (sprint (job_prefix ∷ name ∷ [])) w).0 ≡ ok held
      → (p : Params) × (job : Job) × (p.name ≡ name)
        × (build encode p env ≡ ok job)
        × (held.meta ≡ job.meta)

  -- The parameters that a job's meta holds, or else those of the listing, have the name.
  of_meta :
      (reads : (p : Params) → (decode (encode p) ≡ some p) × (encode p ≢ "")) (w : W)
      (held : ApiJob) (d : Deployment)
      → (api.job_info (sprint (job_prefix ∷ name ∷ [])) w).0 ≡ ok held
      → AreBuilt
      → (stored_or_listed (params_of decode held.meta) d).name ≡ name
  unfolding AreBuilt stored_or_listed
  of_meta reads w held d e built =
      let (p, job, named, made, same) = built w held e in
      let (decodes, full) = reads p in
      let stored : params_of decode held.meta ≡ some p =
        rw same (params_of-build encode decode p env job decodes full made) in
      rw stored named

  of_info :
      (reads : (p : Params) → (decode (encode p) ≡ some p) × (encode p ≢ "")) (w w' : W)
      (info : Result String ApiJob) (d : Deployment)
      → (api.job_info (sprint (job_prefix ∷ name ∷ [])) w).0 ≡ info
      → AreBuilt
      → d.name ≡ name
      → (stored_or_listed
          (meta_params decode
            (on_ok info
              (λ text. return (
                err
                  (sprint ("fetching job " ∷ sprint (job_prefix ∷ name ∷ []) ∷ ": " ∷ text ∷ []))))
              (λ job. return (ok job.meta))
              w').0)
          d).name
        ≡ name
  unfolding meta_params stored_or_listed listed_params on_ok return
  of_info reads w w' (err text) d e built same = same
  of_info reads w w' (ok held) d e built same = of_meta reads w held d e built

  -- So what the client's cluster has on record for the deployment bears its name, given that the
  -- decoding of parameters reads back what was written of them, and that is not empty.
  nomad_cluster-IsKnown :
      (reads : (p : Params) → (decode (encode p) ≡ some p) × (encode p ≢ ""))
      → AreBuilt
      → IsKnown
          (nomad_cluster api decode encode env range show_error gpu_stats)
          (record { name = name; is_mine = λ p. p.name == name })
  unfolding IsKnown deployment_params job_meta ◌>>=◌ return
  nomad_cluster-IsKnown reads built w d same =
      (eq_iff _ _).1 (of_info reads w _ _ d refl built same)
