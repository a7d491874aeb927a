-- ===== src/Bench/Adapter.antt =====
-- internal/bench/cluster.go: the services as the runner's cluster. The text of a deployment's error,
-- json.Unmarshal of parameters and the hardware service's samples are arguments.
use ai_model_scheduler.Base.{
  inr, ◌∙◌, ap, sym, inl, Bool-cases, eq_iff, arith, ◌≢◌, ◌≡◌, sprint, has_prefix, ok, get_text,
  err, ◌==◌, Dict, Bool, if◌then◌else◌, List, String, Result, Option, refl, [], ◌∷◌, none, some,
  true, false,
}
use ai_model_scheduler.Nomadapi.Api.{return, Act, JobStub, Allocation, Api, ◌>>=◌}
use ai_model_scheduler.Jobspec.Params.{name_re, Params}
use ai_model_scheduler.Nomadapi.Allocs.{latest_alloc, alloc_events, AllocEvent}
use ai_model_scheduler.Jobspec.Job.{Job, Env}
use ai_model_scheduler.Deploy.Service.{stop, deploy, DeployError, PortRange, Client}
use ai_model_scheduler.Nomadapi.Listing.{stop_job, register, list_by_prefix, job_meta, list_managed}
use ai_model_scheduler.Nomadapi.Logs.{tail_logs, read_all_logs}
use ai_model_scheduler.Jobspec.Common.{job_prefix, task_name, params_key}
use ai_model_scheduler.Bench.Cluster.{Cluster, GpuStats}
use ai_model_scheduler.Jobspec.Runtimes.{build}
use ai_model_scheduler.Jobspec.Built.{build-Serves}
use ai_model_scheduler.Nomadapi.Dispatch.{batch_failure_reason}

-- The parameters that the meta of a job holds.
unfoldable pub named_params : Option Params → Option Params
named_params none = none
named_params (some p) = if p.name == "" then none else some p

unfoldable pub params_of : (String → Option Params) → Dict String → Option Params
unfolding named_params
params_of decode meta =
    let raw = get_text params_key meta in if raw == "" then none else named_params (decode raw)

unfoldable pub meta_params : (String → Option Params) → Result String (Dict String) → Option Params
unfolding params_of
meta_params decode (err _) = none
meta_params decode (ok meta) = params_of decode meta

-- The messages of the events that end a task.
unfoldable pub exits : List AllocEvent → List String
exits [] = []
exits (ev ∷ events) =
    let rest = exits events in if ev.type == "Terminated" then ev.message ∷ rest else rest

unfoldable pub exits_of : Result String (List AllocEvent) → List String
unfolding exits
exits_of (err _) = []
exits_of (ok events) = exits events

unfoldable pub batch_status_of : Result String (Option Allocation) → Result String (String × String)
batch_status_of (err text) = err text
batch_status_of (ok none) = ok ("", "")
batch_status_of (ok (some alloc)) = ok (alloc.id, alloc.client_status)

module _ {W : Type 0} (api : Api W) where
  -- DeploymentParams
  unfoldable pub deployment_params : (String → Option Params) → String → Act W (Option Params)
  deployment_params decode name = do
    meta ← job_meta api (sprint (job_prefix ∷ name ∷ []))
    return (meta_params decode meta)

  -- TaskExits
  unfoldable pub task_exits : String → Act W (List String)
  task_exits alloc_id = do events ← alloc_events api alloc_id; return (exits_of events)

  -- BatchStatus
  unfoldable pub batch_status : String → Act W (Result String (String × String))
  batch_status job_id = do alloc ← latest_alloc api job_id; return (batch_status_of alloc)

  -- ReadLogs of the standard output, which is all that the runner reads
  unfoldable pub read_logs : String → Bool → Act W (String × Option String)
  read_logs alloc_id whole =
      if whole
      then read_all_logs api alloc_id task_name "stdout"
      else tail_logs api alloc_id task_name "stdout" 4096

  unfoldable pub purge_each : String → List JobStub → Act W (Option String)
  purge_each prefix [] = return none
  purge_each prefix (stub ∷ stubs) =
      let rest = purge_each prefix stubs in
      if has_prefix stub.id prefix then (stop_job api stub.id true >>= λ _. rest) else rest

  unfoldable pub purge_listed : String → Result String (List JobStub) → Act W (Option String)
  purge_listed prefix (err text) = return (some text)
  purge_listed prefix (ok stubs) = purge_each prefix stubs

  -- PurgeJobsWithPrefix
  unfoldable pub purge_jobs_with_prefix : String → Act W (Option String)
  purge_jobs_with_prefix prefix = list_by_prefix api prefix >>= purge_listed prefix

  -- What the deployment service calls of the client.
  abbrev pub deploy_client : Client W
  deploy_client = record {
    list_managed = list_managed api;
    register = register api;
    stop = stop_job api;
  }

  text_of : {E : Type 0} → (E → String) → Option E → Option String
  text_of show none = none
  text_of show (some e) = some (show e)

  module _ {F : Type 0} (decode : String → Option Params) (encode : Params → String) (env : Env)
      (range : PortRange) (show_error : DeployError → String)
      (gpu_stats : W → Result String (List (GpuStats F)) × W) where
    unfoldable pub deploy_text : Params → Act W (Option String)
    unfolding text_of
    deploy_text p = do e ← deploy deploy_client encode env range p; return (text_of show_error e)

    -- NomadCluster
    abbrev pub nomad_cluster : Cluster F W
    nomad_cluster = record {
      list_managed = list_managed api;
      deployment_params = deployment_params decode;
      deploy = deploy_text;
      stop = stop deploy_client encode env range;
      register_job = register api;
      batch_status = batch_status;
      read_logs = read_logs;
      failure_reason = batch_failure_reason api;
      task_exits = task_exits;
      purge_job = λ id. stop_job api id true;
      purge_jobs_with_prefix = purge_jobs_with_prefix;
      gpu_stats = gpu_stats;
    }

name_re-named : (name : String) → name_re name ≡ true → (name == "") ≡ false
unfolding name_re
name_re-named name h = elim (Bool-cases (name == "")) [
  | inl e ↦ let empty : name_re "" ≡ true = sym (ap name_re ((eq_iff name "").0 e)) ∙ h in cc
  | inr e ↦ e
]

-- The parameters that `build` made a job of are those that are read from the job's meta again, where
-- the decoding reads back what was written of them, and that is not empty.
pub params_of-build :
    (encode : Params → String) (decode : String → Option Params) (p : Params) (env : Env)
    (job : Job)
    → decode (encode p) ≡ some p
    → encode p ≢ ""
    → build encode p env ≡ ok job
    → params_of decode job.meta ≡ some p
unfolding params_of named_params
params_of-build encode decode p env job decodes full h =
    let (deployable, image, serves) = build-Serves encode p env job h in
    let written : (encode p == "") ≡ false = ground (arith, eq_iff (encode p) "", full) in
    rw (serves.params, written, decodes, name_re-named p.name deployable.named) refl
