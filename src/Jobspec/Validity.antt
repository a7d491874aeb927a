-- ===== src/Jobspec/Validity.antt =====
-- What `Params.Validate` accepts, said without its tests.
use ai_model_scheduler.Base.{
  String, true, ◌≡◌, ◌≢◌, ◌⊎◌, ◌↔◌, none, arith, eq_iff, Dict, All, [], ◌∷◌,
}
use ai_model_scheduler.Jobspec.Params.{
  Params, name_re, env_key_re, is_runtime, is_vendor, validate_env, validate,
}

abbrev pub IsRuntime : String → Type 0
IsRuntime r = (r ≡ "llamacpp") ⊎ (r ≡ "vllm") ⊎ (r ≡ "ollama")

abbrev pub IsVendor : String → Type 0
IsVendor g = (g ≡ "") ⊎ (g ≡ "nvidia") ⊎ (g ≡ "amd") ⊎ (g ≡ "intel")

pub record IsDeployable (p : Params) : Type 0 where
  pub named : name_re p.name ≡ true
  pub served : IsRuntime p.runtime
  pub placed : IsVendor p.gpu
  pub has_model : (p.runtime ≡ "ollama") ⊎ (p.model ≢ "")
  pub keys : All (λ kv. env_key_re kv.0 ≡ true) p.env

is_runtime_iff : (r : String) → (is_runtime r ≡ true) ↔ IsRuntime r
unfolding is_runtime
is_runtime_iff r = ground (arith, eq_iff r "llamacpp", eq_iff r "vllm", eq_iff r "ollama")

is_vendor_iff : (g : String) → (is_vendor g ≡ true) ↔ IsVendor g
unfolding is_vendor
is_vendor_iff g = ground (arith, eq_iff g "", eq_iff g "nvidia", eq_iff g "amd", eq_iff g "intel")

validate_env_iff :
    (env : Dict String) → (validate_env env ≡ none) ↔ All (λ kv. env_key_re kv.0 ≡ true) env
unfolding validate_env
validate_env_iff [] = ground arith
validate_env_iff ((k, v) ∷ env) = ground (arith, validate_env_iff env)

-- `Validate` reports no error exactly on the deployable parameters.
pub validate_iff : (p : Params) → (validate p ≡ none) ↔ IsDeployable p
unfolding validate
validate_iff p = ground (
  arith,
  is_runtime_iff p.runtime,
  is_vendor_iff p.gpu,
  validate_env_iff p.env,
  eq_iff p.runtime "ollama",
  eq_iff p.model "",
)
