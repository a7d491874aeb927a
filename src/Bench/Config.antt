-- ===== src/Bench/Config.antt =====
-- internal/bench/types.go: configurations and suites.
use ai_model_scheduler.Base.{
  String, ℕ, suc, ℤ, pos, Bool, List, [], ◌∷◌, Option, none, some, any, if◌then◌else◌, ◌==◌, ltb,
  Dict, trim_space, len,
}
use ai_model_scheduler.Jobspec.Params.{Params, SpecError, validate}

pub record Config : Type 0 where
  pub label : String
  pub runtime : String
  pub model : String
  pub gpu : String
  pub ctx_size : ℤ
  pub threads : ℤ
  pub gpu_layers : ℤ
  pub env : Dict String
  pub extra_args : String
  pub cpu_mhz : ℤ
  pub mem_mb : ℤ

-- Config.Params: the port is left to the deployment.
unfoldable pub params : Config → String → Params
params c name = record {
  name = name;
  runtime = c.runtime;
  model = c.model;
  port = pos 0;
  gpu = c.gpu;
  ctx_size = c.ctx_size;
  threads = c.threads;
  gpu_layers = c.gpu_layers;
  env = c.env;
  extra_args = c.extra_args;
  cpu_mhz = c.cpu_mhz;
  mem_mb = c.mem_mb;
}

pub data ConfigError : Type 0 where
  label_required : ConfigError
  label_too_long : String → ConfigError
  bad_params : SpecError → ConfigError

-- Config.Validate
unfoldable pub validate_config : Config → Option ConfigError
validate_config c =
    if trim_space c.label == ""
    then some label_required
    else if ltb 60 (len c.label)
    then some (label_too_long c.label)
    else elim (validate (params c "bench-validate")) [ some e ↦ some (bad_params e) | none ↦ none ]

-- A time is a count of nanoseconds.
pub record Suite : Type 0 where
  pub id : String
  pub name : String
  pub configs : List Config
  pub created_at : ℕ
  pub updated_at : ℕ

pub data SuiteError : Type 0 where
  name_required no_configs : SuiteError
  bad_config : ℕ → String → ConfigError → SuiteError
  duplicate_label : String → SuiteError

unfoldable pub is_seen : String → List String → Bool
unfolding any
is_seen l seen = any (λ s. s == l) seen

-- for i, c := range s.Configs, with the labels seen so far
unfoldable pub validate_configs : ℕ → List String → List Config → Option SuiteError
validate_configs i seen [] = none
validate_configs i seen (c ∷ cs) =
    let rest = validate_configs (suc i) (c.label ∷ seen) cs in
    elim (validate_config c) [
      | some e ↦ some (bad_config (suc i) c.label e)
      | none ↦ if is_seen c.label seen then some (duplicate_label c.label) else rest
    ]

-- len(s.Configs) == 0, then the loop
unfoldable pub validate_list : List Config → Option SuiteError
validate_list [] = some no_configs
validate_list (c ∷ cs) = validate_configs 0 [] (c ∷ cs)

-- Suite.Validate
unfoldable pub validate_suite : Suite → Option SuiteError
validate_suite s = if trim_space s.name == "" then some name_required else validate_list s.configs
