-- ===== src/Deploy/Service.antt =====
-- internal/deploy/service.go. The Nomad client is the parameter `client`: what its calls answer may
-- depend on everything that happened before, which is the state `W`.
use ai_model_scheduler.Base.{
  String, ℕ, zero, suc, ℤ, pos, Bool, not, ◌&&◌, ◌||◌, List, [], ◌∷◌, Option, none, some, any,
  eqb_ℤ, ltb_ℤ, leb_ℤ, suc_ℤ, span, ◌==◌, if◌then◌else◌, Result, ok, err,
}
use ai_model_scheduler.Jobspec.Params.{Params, SpecError, validate}
use ai_model_scheduler.Jobspec.Job.{Env, Job}
use Prim.Native.String
use ai_model_scheduler.Jobspec.Common.{job_prefix}
use ai_model_scheduler.Jobspec.Runtimes.{build}
use ai_model_scheduler.Nomadapi.Deployment.{Deployment}

-- What the service calls of *nomadapi.Client: ListManaged, Register and Stop. An error is its text.
pub record Client (W : Type 0) : Type 0 where
  pub list_managed : W → Result String (List Deployment) × W
  pub register : Job → W → Option String × W
  pub stop : String → Bool → W → Option String × W

-- The fields of config.Config that the service reads beside the builders' environment.
pub record PortRange : Type 0 where
  pub min : ℤ
  pub max : ℤ

pub data DeployError : Type 0 where
  spec : SpecError → DeployError
  checking : String → DeployError
  listing_failed : String → DeployError
  already_exists : String → DeployError
  port_outside : ℤ → DeployError
  port_used : ℤ → String → DeployError
  no_free_ports : DeployError
  registering : String → DeployError

abbrev pub is_live : Deployment → Bool
is_live d = not (d.status == "dead")

-- used[d.Port] = true
unfoldable pub used_ports : List Deployment → List ℤ
used_ports [] = []
used_ports (d ∷ deps) =
    let rest = used_ports deps in
    if is_live d && not (eqb_ℤ d.port (pos 0)) then d.port ∷ rest else rest

unfoldable pub is_used : ℤ → List ℤ → Bool
unfolding any
is_used p used = any (eqb_ℤ p) used

-- The live deployment whose port is asked for.
unfoldable pub port_holder : ℤ → List Deployment → Option String
port_holder p [] = none
port_holder p (d ∷ deps) =
    let rest = port_holder p deps in if eqb_ℤ d.port p && is_live d then some d.name else rest

module _ (range : PortRange) where
  -- for p := PortMin; p <= PortMax; p++
  unfoldable pub scan : ℕ → ℤ → List ℤ → Option ℤ
  scan zero p used = none
  scan (suc rounds) p used =
      let rest = scan rounds (suc_ℤ p) used in
      if not (leb_ℤ p range.max) then none else if is_used p used then rest else some p

  -- suggestPort: the rounds are the ports of the range
  unfoldable pub suggest_port : List Deployment → Result DeployError ℤ
  suggest_port deps = elim (scan (span range.min range.max) range.min (used_ports deps)) [
    | some p ↦ ok p
    | none ↦ err no_free_ports
  ]

  unfoldable pub choose_port : ℤ → List Deployment → Result DeployError ℤ
  choose_port p deps =
      if eqb_ℤ p (pos 0)
      then suggest_port deps
      else if ltb_ℤ p range.min || ltb_ℤ range.max p
      then err (port_outside p)
      else elim (port_holder p deps) [ some name ↦ err (port_used p name) | none ↦ ok p ]

abbrev pub is_live_named : String → Deployment → Bool
is_live_named name d = d.name == name && is_live d

module _ {W : Type 0} (client : Client W) (encode : Params → String) (env : Env)
    (range : PortRange) where
  unfoldable pub register_built : Params → W → Option DeployError × W
  register_built p w = elim (build encode p env) [
    | err e ↦ (some (spec e), w)
    | ok job ↦
        let (e, w') = client.register job w in
        (elim e [ none ↦ none | some text ↦ some (registering text) ], w')
  ]

  unfoldable pub deploy_listed :
      Params → Result String (List Deployment) → W → Option DeployError × W
  deploy_listed p (err text) w = (some (checking text), w)
  deploy_listed p (ok deps) w =
      if any (is_live_named p.name) deps
      then (some (already_exists p.name), w)
      else elim (choose_port range p.port deps) [
        | err e ↦ (some e, w)
        | ok port ↦ register_built (record p { port = port }) w
      ]

  -- Service.Deploy
  unfoldable pub deploy : Params → W → Option DeployError × W
  deploy p w = elim (validate p) [
    | some e ↦ (some (spec e), w)
    | none ↦ let (listing, w') = client.list_managed w in deploy_listed p listing w'
  ]

  -- Service.Stop
  unfoldable pub stop : String → Bool → W → Option String × W
  stop name purge w = client.stop (String.◌++◌ job_prefix name) purge w

  -- Service.SuggestPort
  unfoldable pub suggest_free_port : W → Result DeployError ℤ × W
  suggest_free_port w =
      let (listing, w') = client.list_managed w in
      (
        elim listing [ err text ↦ err (listing_failed text) | ok deps ↦ suggest_port range deps ],
        w',
      )
