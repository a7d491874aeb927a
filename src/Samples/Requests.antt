-- ===== src/Samples/Requests.antt =====
-- Requests to the server.
use ai_model_scheduler.Jobspec.Common.{base_job}
use ai_model_scheduler.Base.{
  false, Bool, join, All, show_int, ℤ, Dict, get_text, has_prefix, insert_by, sort_by, any, eq_iff,
  pos, ◌==◌, err, if◌then◌else◌, ◌≡◌, sprint, ok, arith, ◌≢◌, String, Option, List, ℕ, refl, [],
  ◌∷◌, some, suc, true,
}
use ai_model_scheduler.Samples.Cluster.{api}
use ai_model_scheduler.Samples.Data.{qwen, env, encode}
use ai_model_scheduler.Samples.Jobs.{validate-qwen, qwen_job, build-qwen, qwen_named, decode}
use ai_model_scheduler.Samples.Ports.{range}
use ai_model_scheduler.Samples.Startup.{sources}
use ai_model_scheduler.Samples.Sessions.{busy_runner, busy_runner-Reachable, busy}
use ai_model_scheduler.Samples.Stores.{disk, codec, suites, datasets, decode_row}
use ai_model_scheduler.Samples.Benchmarks.{floats, run}
use ai_model_scheduler.Settings.{
  image_vars, dur_var, int_var, str_var, env_vars, check_settings, defaults, load, Settings,
  Sources,
}
use ai_model_scheduler.Server.Selection.{partial_model_select-IsSelection, IsSelection}
use ai_model_scheduler.Nomadapi.Api.{on_ok, return, ◌>>=◌, Act, Api}
use ai_model_scheduler.Server.Auth.{handler-unauthorized, handler}
use ai_model_scheduler.Server.DeployForm.{relaunch_params-build, relaunch_params}
use ai_model_scheduler.Server.Models.{partial_model_select}
use ai_model_scheduler.Catalog.Cache.{Entry}
use ai_model_scheduler.Nomadapi.Deployment.{no_deployment, Deployment}
use ai_model_scheduler.Nomadapi.Listing.{
  task_resources, vendor_of, trim_prefix, of_job, with_alloc, is_managed, list_found, list_each,
  list_listed, list_managed,
}
use ai_model_scheduler.Server.Replies.{Reply}
use ai_model_scheduler.Server.Deployments.{api_create_deployment}
use ai_model_scheduler.Deploy.Service.{is_live_named}
use ai_model_scheduler.Server.Conflicts.{api_create_deployment-taken}
use ai_model_scheduler.Nomadapi.Allocs.{latest_stub, fetch_latest, latest_alloc}
use ai_model_scheduler.Bench.Session.{Session}
use ai_model_scheduler.Server.Runs.{api_start_run}
use ai_model_scheduler.Server.Busy.{api_start_run-executing}
use ai_model_scheduler.Server.Defaults.{form_eval-join_ints}
use ai_model_scheduler.Server.Pages.{join_ints}
use ai_model_scheduler.Server.RunForm.{form_eval}

abbrev quote : String → String
quote s = sprint ("\"" ∷ s ∷ "\"" ∷ [])

-- A cluster that has the job of `qwen` as it was registered.
abbrev stored_api : Api ℕ
stored_api = record api {
  job_info = λ id w. (ok (record { meta = qwen_job.meta; groups = [] }), w);
}

relaunch_params-build_example :
    (relaunch_params stored_api quote encode decode env range [] "qwen" 3).0 ≡ qwen
unfolding list_managed ◌>>=◌ list_listed return list_each has_prefix list_found is_managed get_text
    base_job latest_alloc on_ok fetch_latest latest_stub
relaunch_params-build_example =
    relaunch_params-build stored_api quote encode decode env range [] qwen qwen_job
      (record { meta = qwen_job.meta; groups = [] }) 3 3 refl qwen_named build-qwen refl refl

abbrev model : String → String → Entry
model p k = record { path = p; kind = k; size_bytes = pos 1 }

partial_model_select-IsSelection_example :
    IsSelection
      (model "b" "gguf" ∷ model "c" "hf" ∷ model "a" "gguf" ∷ [])
      (partial_model_select (model "b" "gguf" ∷ model "c" "hf" ∷ model "a" "gguf" ∷ [], ""))
partial_model_select-IsSelection_example =
    partial_model_select-IsSelection (model "b" "gguf" ∷ model "c" "hf" ∷ model "a" "gguf" ∷ []) ""

-- Settings with a user and a password.
abbrev guarded : Sources
guarded = record sources {
  getenv = λ key.
      if key == "NOMAD_DRIVER"
      then "docker"
      else if key == "BASIC_AUTH_USER"
      then "ada"
      else if key == "BASIC_AUTH_PASS"
      then "secret"
      else "";
}

abbrev guarded_settings : Settings
guarded_settings = record defaults {
  driver = "docker";
  basic_auth_user = "ada";
  basic_auth_pass = "secret";
}

load-guarded : load guarded ≡ ok guarded_settings
unfolding load check_settings env_vars str_var int_var dur_var image_vars
load-guarded = refl

has_secret : guarded_settings.basic_auth_pass ≢ ""
has_secret h = ground (arith, (eq_iff "secret" "").1 h)

abbrev guess : Option (String × String)
guess = some ("ada", "guess")

is_wrong : guess ≢ some ("ada", "secret")
is_wrong h =
    let same : ◌≡◌ {A = String} "guess" "secret" = cc in
    ground (arith, (eq_iff "guess" "secret").1 same)

abbrev answering : Option (String × String) → Act ℕ (Reply String String)
answering credentials w = ((200, ok "deployments"), suc w)

handler-unauthorized_example :
    handler guarded_settings answering guess 3 ≡ ((401, err "unauthorized"), 3)
handler-unauthorized_example =
    handler-unauthorized guarded_settings guarded answering guess 3 load-guarded has_secret is_wrong

abbrev listed : List Deployment
listed = (record no_deployment { job_id = "model-qwen"; name = "qwen"; status = "running" }) ∷ []

-- A cluster with one job, which has no allocations.
abbrev bare_api : Api ℕ
bare_api = record api { allocations = λ id w. (ok [], w) }

lists : list_managed bare_api 3 ≡ (ok listed, 3)
unfolding list_managed ◌>>=◌ list_listed return sort_by insert_by list_each has_prefix list_found
    is_managed get_text with_alloc latest_alloc on_ok fetch_latest latest_stub of_job trim_prefix
    vendor_of task_resources
lists = refl

takes : any (is_live_named "qwen") listed ≡ true
unfolding any
takes = refl

api_create_deployment-taken_example :
    ((api_create_deployment bare_api quote encode env range (ok qwen) 3).0.0 ≡ 409)
    × ((api_create_deployment bare_api quote encode env range (ok qwen) 3).1 ≡ 3)
api_create_deployment-taken_example =
    api_create_deployment-taken bare_api quote encode env range qwen listed 3 3 validate-qwen lists
      takes

abbrev second : Session (Dict String)
second =
    (api_start_run floats disk "data" suites codec datasets decode_row "s1" run.eval busy_runner).1

api_start_run-executing_example :
    ((api_start_run floats disk "data" suites codec datasets decode_row "s1" run.eval
        busy_runner).0.0
      ≢ 201)
    × (second.executing ≡ busy_runner.executing)
    × (second.control ≡ busy_runner.control)
api_start_run-executing_example =
    api_start_run-executing floats disk "data" suites codec datasets decode_row busy_runner
      "20250101-000000-abc123" [] [] "s1" run.eval busy_runner-Reachable busy

abbrev levels_atoi : String → ℤ × Bool
levels_atoi text =
    if text == "1" then (pos 1, true) else if text == "16" then (pos 16, true) else (pos 0, false)

abbrev levels : List ℤ
levels = pos 1 ∷ pos 16 ∷ []

abbrev levels_form : String → String
levels_form key = if key == "concurrency" then "1, 16" else ""

levels_read : All (λ n. levels_atoi (show_int n) ≡ (n, true)) levels
unfolding show_int
levels_read = (refl, (refl, tt))

levels_shown : levels_form "concurrency" ≡ join_ints levels
unfolding show_int join_ints join
levels_shown = refl

form_eval-join_ints_example : (form_eval levels_form levels_atoi []).concurrency ≡ levels
form_eval-join_ints_example =
    form_eval-join_ints levels_form levels_atoi [] levels levels_read levels_shown
