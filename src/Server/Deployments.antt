-- ===== src/Server/Deployments.antt =====
-- internal/server/api_deployments.go: the handlers of the deployments. The decoded request and the
-- values of a query are arguments.
use ai_model_scheduler.Base.{
  sprint, ok, err, Result, Bool, ◌||◌, not, contains, ◌==◌, Option, List, ℕ, if◌then◌else◌, String,
  [], ◌∷◌, none, some,
}
use ai_model_scheduler.Nomadapi.Api.{Act, Api, ◌>>=◌, return}
use ai_model_scheduler.Nomadapi.Deployment.{Deployment}
use ai_model_scheduler.Jobspec.Params.{Params}
use ai_model_scheduler.Jobspec.Job.{Env}
use ai_model_scheduler.Nomadapi.Allocs.{alloc_events, AllocEvent}
use ai_model_scheduler.Deploy.Service.{deploy, stop, DeployError, PortRange}
use ai_model_scheduler.Server.Replies.{shown, reply_done, http_error, View, Reply}
use ai_model_scheduler.Nomadapi.Listing.{list_managed}
use ai_model_scheduler.Server.Pages.{deployments_tab, Tab}
use ai_model_scheduler.Bench.Adapter.{deploy_client}
use ai_model_scheduler.Nomadapi.Logs.{tail_logs}
use ai_model_scheduler.Jobspec.Common.{task_name}
use ai_model_scheduler.Deploy.Messages.{error_text}

-- deploymentDetail
pub record Detail : Type 0 where
  pub deployment : Deployment
  pub events : List AllocEvent

pub record LogText : Type 0 where
  pub alloc_id : String
  pub stream : String
  pub logs : String

unfoldable pub find_named : String → List Deployment → Option Deployment
find_named name [] = none
find_named name (d ∷ deps) =
    let rest = find_named name deps in if d.name == name then some d else rest

-- Any stream but stdout is stderr.
unfoldable pub stream_of : String → String
stream_of stream = if not (stream == "stdout") then "stderr" else stream

-- http.StatusConflict, by the text
unfoldable pub create_status : String → ℕ
create_status text =
    if contains text "already exists" || contains text "already used" then 409 else 400

-- The filter of partialDeployments, and the value of the cookie that it sets.
unfoldable pub choose_filter : String → Option String → String × Option String
choose_filter filter cookie =
    if filter == ""
    then (elim cookie [ none ↦ "" | some value ↦ value ], none)
    else (filter, some filter)

module _ {W : Type 0} (api : Api W) (quote : String → String) (encode : Params → String) (env : Env)
    (range : PortRange) where
  unfoldable pub listing_error : {A : Type 0} → String → Reply String A
  listing_error text = (502, err (sprint ("listing deployments: " ∷ text ∷ [])))

  unfoldable pub reply_listing : Result String (List Deployment) → Reply String (List Deployment)
  unfolding listing_error
  reply_listing (err text) = listing_error text
  reply_listing (ok deps) = (200, ok deps)

  -- apiListDeployments
  unfoldable pub api_list_deployments : Act W (Reply String (List Deployment))
  api_list_deployments = do listed ← list_managed api; return (reply_listing listed)

  unfoldable pub reply_found : String → Option Deployment → Reply String Deployment
  reply_found name (some d) = (200, ok d)
  reply_found name none = (404, err (sprint ("deployment " ∷ quote name ∷ " not found" ∷ [])))

  unfoldable pub found_in : String → Result String (List Deployment) → Reply String Deployment
  unfolding listing_error reply_found
  found_in name (err text) = listing_error text
  found_in name (ok deps) = reply_found name (find_named name deps)

  -- findDeployment: the deployment, or the answer that it writes
  unfoldable pub find_deployment : String → Act W (Reply String Deployment)
  find_deployment name = do listed ← list_managed api; return (found_in name listed)

  -- What follows findDeployment, where it found one.
  unfoldable pub if_found :
      {A : Type 0}
      → Reply String Deployment
      → (Deployment → Act W (Reply String A))
      → Act W (Reply String A)
  if_found (status, err text) next = return (status, err text)
  if_found (status, ok d) next = next d

  unfoldable pub created : String → Option DeployError → Reply String String
  unfolding create_status
  created name none = (201, ok name)
  created name (some e) = let text = error_text quote range e in (create_status text, err text)

  -- apiCreateDeployment
  unfoldable pub api_create_deployment : Result String Params → Act W (Reply String String)
  api_create_deployment (err text) = return (400, err (sprint ("decoding request: " ∷ text ∷ [])))
  api_create_deployment (ok p) = do
    e ← deploy (deploy_client api) encode env range p
    return (created p.name e)

  unfoldable pub with_events : Deployment → Result String (List AllocEvent) → Detail
  with_events d (err _) = record { deployment = d; events = [] }
  with_events d (ok events) = record { deployment = d; events = events }

  -- deploymentDetail
  unfoldable pub deployment_detail : Deployment → Act W Detail
  deployment_detail d =
      if not (d.alloc_id == "")
      then (do events ← alloc_events api d.alloc_id; return (with_events d events))
      else return (record { deployment = d; events = [] })

  -- apiGetDeployment
  unfoldable pub api_get_deployment : String → Act W (Reply String Detail)
  api_get_deployment name = do
    found ← find_deployment name
    if_found found λ d. do detail ← deployment_detail d; return (200, ok detail)

  -- apiDeleteDeployment
  unfoldable pub api_delete_deployment : String → Bool → Act W (Reply String String)
  api_delete_deployment name purge = do
    found ← find_deployment name
    if_found found λ d. do
      e ← stop (deploy_client api) encode env range name purge
      return (reply_done 200 502 name e)

  unfoldable pub logs_reply : Deployment → String → String × Option String → Reply String LogText
  logs_reply d stream (logs, none) =
      (200, ok (record { alloc_id = d.alloc_id; stream = stream; logs = logs }))
  logs_reply d stream (logs, some text) =
      if logs == ""
      then (502, err (sprint ("reading logs: " ∷ text ∷ [])))
      else (200, ok (record { alloc_id = d.alloc_id; stream = stream; logs = logs }))

  unfoldable pub deployment_logs : String → Deployment → Act W (Reply String LogText)
  unfolding stream_of
  deployment_logs stream d =
      if d.alloc_id == ""
      then return (404, err (sprint ("deployment " ∷ quote d.name ∷ " has no allocation yet" ∷ [])))
      else (do
        got ← tail_logs api d.alloc_id task_name (stream_of stream) 16384
        return (logs_reply d (stream_of stream) got))

  -- apiDeploymentLogs
  unfoldable pub api_deployment_logs : String → String → Act W (Reply String LogText)
  api_deployment_logs name stream = do
    found ← find_deployment name
    if_found found (deployment_logs stream)

  unfoldable pub tab_view : String → Result String (List Deployment) → View Tab
  tab_view filter (err text) = http_error 502 text
  tab_view filter (ok deps) = shown (deployments_tab filter deps)

  -- renderDeployments
  unfoldable pub render_deployments : String → Act W (View Tab)
  render_deployments filter = do listed ← list_managed api; return (tab_view filter listed)

  -- partialDeployments, with the cookie that it sets
  unfoldable pub partial_deployments : String → Option String → Act W (View Tab × Option String)
  unfolding choose_filter
  partial_deployments filter cookie = do
    view ← render_deployments (choose_filter filter cookie).0
    return (view, (choose_filter filter cookie).1)

  unfoldable pub stopped_view : String → Option String → Act W (View Tab)
  stopped_view filter (some text) = return (http_error 502 text)
  stopped_view filter none = render_deployments filter

  -- uiStopDeployment
  unfoldable pub ui_stop_deployment : String → Bool → String → Act W (View Tab)
  ui_stop_deployment name purge filter =
      stop (deploy_client api) encode env range name purge >>= stopped_view filter
