-- ===== src/Server/DeployForm.antt =====
-- internal/server/ui_pages.go: the deploy form and the logs of a deployment. The values of the form and
-- of the query, strconv.Atoi (its error left out), strconv.Quote and json.Unmarshal of parameters are
-- arguments.
use ai_model_scheduler.Base.{
  ◌≢◌, ◌≡◌, not, sprint, ◌==◌, if◌then◌else◌, Dict, ok, err, Option, List, pos, ℤ, Result, String,
  refl, [], ◌∷◌, none, some,
}
use ai_model_scheduler.Nomadapi.Api.{ApiJob, on_ok, Act, Api, ◌>>=◌, return}
use ai_model_scheduler.Jobspec.Params.{Params}
use ai_model_scheduler.Deploy.Service.{deploy, suggest_free_port, PortRange, DeployError}
use ai_model_scheduler.Server.Forms.{form_int}
use ai_model_scheduler.Nomadapi.Deployment.{Deployment}
use ai_model_scheduler.Catalog.Cache.{Entry}
use ai_model_scheduler.Jobspec.Job.{Job, Env}
use ai_model_scheduler.Bench.Stopping.{listed_params}
use ai_model_scheduler.Server.Deployments.{
  deployment_detail, if_found, find_deployment, Detail, stream_of, find_named,
}
use ai_model_scheduler.Nomadapi.Listing.{list_managed, job_meta}
use ai_model_scheduler.Bench.Adapter.{params_of-build, deploy_client, meta_params}
use ai_model_scheduler.Server.Replies.{shown, redirect, View, Reply}
use ai_model_scheduler.Server.Pages.{parse_env_lines}
use ai_model_scheduler.Nomadapi.Logs.{tail_logs}
use ai_model_scheduler.Jobspec.Common.{task_name, job_prefix}
use ai_model_scheduler.Deploy.Messages.{error_text}
use ai_model_scheduler.Jobspec.Runtimes.{build}

-- deployFormData
pub record FormData : Type 0 where
  pub params : Params
  pub env_text : String
  pub suggested_port : ℤ
  pub models : List Entry
  pub error : String

-- logsData
pub record LogsData : Type 0 where
  pub name : String
  pub stream : String
  pub logs : String
  pub error : String

abbrev pub no_params : Params
no_params = record {
  name = "";
  runtime = "";
  model = "";
  port = pos 0;
  gpu = "";
  ctx_size = pos 0;
  threads = pos 0;
  gpu_layers = pos 0;
  env = [];
  extra_args = "";
  cpu_mhz = pos 0;
  mem_mb = pos 0;
}

-- findDeploymentQuiet, with the listing
unfoldable pub found_quiet : String → Result String (List Deployment) → Option Deployment
found_quiet name (err _) = none
found_quiet name (ok deps) = find_named name deps

unfoldable pub listed_or_named : String → Option Deployment → Params
listed_or_named name none = record no_params { name = name }
listed_or_named name (some d) = listed_params d

unfoldable pub relaunched : Params → Option Params → Params
relaunched listed none = listed
relaunched listed (some stored) = stored

unfoldable pub port_or_zero : Result DeployError ℤ → ℤ
port_or_zero (err _) = pos 0
port_or_zero (ok port) = port

module _ (form_value : String → String) (atoi : String → ℤ) where
  unfoldable pub form_params : Dict String → Params
  unfolding form_int
  form_params env = record {
    name = form_value "name";
    runtime = form_value "runtime";
    model = form_value "model";
    port = form_int form_value atoi "port";
    gpu = form_value "gpu";
    ctx_size = form_int form_value atoi "ctx_size";
    threads = form_int form_value atoi "threads";
    gpu_layers = form_int form_value atoi "gpu_layers";
    env = env;
    extra_args = form_value "extra_args";
    cpu_mhz = form_int form_value atoi "cpu_mhz";
    mem_mb = form_int form_value atoi "mem_mb";
  }

module _ {W : Type 0} (api : Api W) (quote : String → String) (encode : Params → String)
    (decode : String → Option Params) (env : Env) (range : PortRange) (models : List Entry) where
  -- relaunchParams
  unfoldable pub relaunch_params : String → Act W Params
  unfolding found_quiet listed_or_named relaunched
  relaunch_params name = do
    listed ← list_managed api
    meta ← job_meta api (sprint (job_prefix ∷ name ∷ []))
    return (relaunched (listed_or_named name (found_quiet name listed)) (meta_params decode meta))

  -- deployFormData, with the cached models
  unfoldable pub deploy_form_data : Act W FormData
  unfolding port_or_zero
  deploy_form_data = do
    port ← suggest_free_port (deploy_client api) encode env range
    return (record {
      params = no_params;
      env_text = "";
      suggested_port = port_or_zero port;
      models = models;
      error = "";
    })

  -- uiDeployPage, with the values "from", "model" and "runtime" of the query
  unfoldable pub ui_deploy_page : String → String → String → Act W (View FormData)
  ui_deploy_page from model runtime = do
    form ← deploy_form_data
    if not (from == "")
        then (do p ← relaunch_params from; return (shown (record form { params = p })))
        else return
            (shown (record form { params = record no_params { model = model; runtime = runtime } }))

  -- The form again, with what was typed and the error.
  unfoldable pub form_again : Params → String → String → Act W (View FormData)
  form_again p env_text text = do
    form ← deploy_form_data
    return (shown (record form { params = p; env_text = env_text; error = text }))

  unfoldable pub submitted : Params → String → Option DeployError → Act W (View FormData)
  submitted p env_text none = return (redirect "/")
  submitted p env_text (some e) = form_again p env_text (error_text quote range e)

  module _ (form_value : String → String) (atoi : String → ℤ) where
    unfoldable pub submit_env : Result String (Dict String) → Act W (View FormData)
    unfolding form_params
    submit_env (err line) =
        form_again (form_params form_value atoi []) (form_value "env")
          (sprint ("environment line " ∷ quote line ∷ " is not KEY=VALUE" ∷ []))
    submit_env (ok env') =
        deploy (deploy_client api) encode env range (form_params form_value atoi env')
        >>= submitted (form_params form_value atoi env') (form_value "env")

    -- uiDeploySubmit
    unfoldable pub ui_deploy_submit : Act W (View FormData)
    ui_deploy_submit = submit_env (parse_env_lines (form_value "env"))

  unfoldable pub logs_error : String → Option String → String
  logs_error logs none = ""
  logs_error logs (some text) = if logs == "" then text else ""

  unfoldable pub logs_data : String → String → Option Deployment → Act W LogsData
  unfolding logs_error
  logs_data name stream none =
      return (record { name = name; stream = stream; logs = ""; error = "deployment not found" })
  logs_data name stream (some d) =
      if d.alloc_id == ""
      then return (record { name = name; stream = stream; logs = ""; error = "no allocation yet" })
      else (do
        got ← tail_logs api d.alloc_id task_name stream 16384
        return
            (record { name = name; stream = stream; logs = got.0; error = logs_error got.0 got.1 }))

  -- partialLogs
  unfoldable pub partial_logs : String → String → Act W LogsData
  unfolding found_quiet stream_of
  partial_logs name stream = do
    listed ← list_managed api
    logs_data name (stream_of stream) (found_quiet name listed)

  -- uiDeploymentDetail
  unfoldable pub ui_deployment_detail : String → Act W (Reply String Detail)
  ui_deployment_detail name = do
    found ← find_deployment api quote encode env range name
    if_found api quote encode env range found
        λ d. do detail ← deployment_detail api quote encode env range d; return (200, ok detail)

  relaunch_params_meta :
      (name : String) (w : W) (stored : Params)
      → meta_params decode (job_meta api (sprint (job_prefix ∷ name ∷ [])) (list_managed api w).1).0
        ≡ some stored
      → (relaunch_params name w).0 ≡ stored
  unfolding relaunch_params relaunched return ◌>>=◌
  relaunch_params_meta name w stored h = rw h refl

  -- The relaunch form of a deployment shows the parameters that its job was built from, if Nomad
  -- still has the job as it was registered, where the decoding of the parameters reads what the
  -- encoding wrote of them.
  pub relaunch_params-build :
      (p : Params) (job : Job) (found : ApiJob) (w w' : W)
      → decode (encode p) ≡ some p
      → encode p ≢ ""
      → build encode p env ≡ ok job
      → api.job_info (sprint (job_prefix ∷ p.name ∷ [])) (list_managed api w).1 ≡ (ok found, w')
      → found.meta ≡ job.meta
      → (relaunch_params p.name w).0 ≡ p
  unfolding job_meta meta_params on_ok return ◌>>=◌
  relaunch_params-build p job found w w' decodes full built info same =
      relaunch_params_meta p.name w p
        (rw (info, same) (params_of-build encode decode p env job decodes full built))
