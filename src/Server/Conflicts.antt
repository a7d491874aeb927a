-- ===== src/Server/Conflicts.antt =====
-- The status of internal/server/api_deployments.go for a deployment that is in the way of another.
use ai_model_scheduler.Base.{
  some, any, none, ok, List, has_prefix, true, contains, arith, contains-append_left, show_int,
  sprint, contains-append_right, ◌≡◌, ℤ, String, refl, [], ◌∷◌,
}
use ai_model_scheduler.Deploy.Service.{
  is_live_named, deploy_listed, deploy, port_used, already_exists, PortRange, DeployError,
}
use ai_model_scheduler.Server.Deployments.{created, api_create_deployment, create_status}
use ai_model_scheduler.Deploy.Messages.{error_text}
use ai_model_scheduler.Nomadapi.Api.{◌>>=◌, return, Api}
use ai_model_scheduler.Jobspec.Params.{validate, Params}
use ai_model_scheduler.Jobspec.Job.{Env}
use ai_model_scheduler.Nomadapi.Deployment.{Deployment}
use ai_model_scheduler.Nomadapi.Listing.{list_managed}
use ai_model_scheduler.Bench.Adapter.{deploy_client}

-- The errors of a request that another deployment is in the way of.
pub data IsConflict : DeployError → Type 0 where
  name_taken : (name : String) → IsConflict (already_exists name)
  port_taken : (p : ℤ) (name : String) → IsConflict (port_used p name)

says_exists : (text : String) → contains text "already exists" ≡ true → create_status text ≡ 409
unfolding create_status
says_exists text h = rw h refl

says_used : (text : String) → contains text "already used" ≡ true → create_status text ≡ 409
unfolding create_status
says_used text h = ground (arith, h)

conflict_status :
    (quote : String → String) (range : PortRange) (e : DeployError)
    → IsConflict e
    → create_status (error_text quote range e) ≡ 409
unfolding error_text contains has_prefix
conflict_status quote range _ (name_taken name) =
    says_exists (error_text quote range (already_exists name)) (
      contains-append_right "deployment " (sprint (quote name ∷ " already exists" ∷ []))
        "already exists"
        (contains-append_right (quote name) (sprint (" already exists" ∷ [])) "already exists"
          refl))
conflict_status quote range _ (port_taken p name) =
    says_used (error_text quote range (port_used p name)) (
      contains-append_right "port "
        (sprint (show_int p ∷ " already used by deployment " ∷ quote name ∷ [])) "already used"
        (contains-append_right (show_int p)
          (sprint (" already used by deployment " ∷ quote name ∷ [])) "already used"
          (contains-append_left " already used by deployment " (sprint (quote name ∷ []))
            "already used" refl)))

module _ {W : Type 0} (api : Api W) (quote : String → String) (encode : Params → String) (env : Env)
    (range : PortRange) where
  deploy_taken :
      (p : Params) (deps : List Deployment) (w w' : W)
      → validate p ≡ none
      → list_managed api w ≡ (ok deps, w')
      → any (is_live_named p.name) deps ≡ true
      → deploy (deploy_client api) encode env range p w ≡ (some (already_exists p.name), w')
  unfolding deploy deploy_listed
  deploy_taken p deps w w' valid listed taken = rw (deploy, valid, listed, taken) refl

  -- A valid request for a name that a live deployment of the listing has is answered with 409, and
  -- nothing is registered: the state is the one that the listing left.
  pub api_create_deployment-taken :
      (p : Params) (deps : List Deployment) (w w' : W)
      → validate p ≡ none
      → list_managed api w ≡ (ok deps, w')
      → any (is_live_named p.name) deps ≡ true
      → ((api_create_deployment api quote encode env range (ok p) w).0.0 ≡ 409)
        × ((api_create_deployment api quote encode env range (ok p) w).1 ≡ w')
  unfolding api_create_deployment created return ◌>>=◌
  api_create_deployment-taken p deps w w' valid listed taken =
      rw (deploy_taken p deps w w' valid listed taken)
        (conflict_status quote range _ (name_taken p.name), refl)
