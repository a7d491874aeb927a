-- ===== src/Jobspec/Params.antt =====
-- internal/jobspec/base.go: the parameters of one deployment and `Params.Validate`.
use Prim.Native.String.{count}
use ai_model_scheduler.Base.{
  String, Bool, false, ◌&&◌, ◌||◌, [], ◌∷◌, Option, none, some, ℕ, ℤ, leb, eqb, ◌==◌, if◌then◌else◌,
  Dict, all_chars, code, not,
}

pub record Params : Type 0 where
  pub name : String
  pub runtime : String
  pub model : String
  pub port : ℤ
  pub gpu : String
  pub ctx_size : ℤ
  pub threads : ℤ
  pub gpu_layers : ℤ
  pub env : Dict String
  pub extra_args : String
  pub cpu_mhz : ℤ
  pub mem_mb : ℤ

unfoldable pub is_lower_alnum : ℕ → Bool
is_lower_alnum c = (leb b'a' c && leb c b'z') || (leb b'0' c && leb c b'9')

unfoldable pub is_name_char : ℕ → Bool
unfolding is_lower_alnum
is_name_char c = is_lower_alnum c || eqb c b'-'

-- nameRe, ^[a-z0-9][a-z0-9-]{0,30}$: the characters that it allows are one byte each.
unfoldable pub name_re : String → Bool
unfolding is_name_char all_chars
name_re String.[] = false
name_re (String.◌∷◌ c s) = is_lower_alnum (code c) && leb (count s) 30 && all_chars is_name_char s

unfoldable pub is_key_start : ℕ → Bool
is_key_start c = (leb b'A' c && leb c b'Z') || eqb c b'_' || (leb b'a' c && leb c b'z')

-- envKeyRe, ^[A-Za-z_][A-Za-z0-9_]*$
unfoldable pub env_key_re : String → Bool
unfolding is_key_start all_chars
env_key_re String.[] = false
env_key_re (String.◌∷◌ c s) =
    is_key_start (code c) && all_chars (λ d. is_key_start d || (leb b'0' d && leb d b'9')) s

-- The errors of `Validate` and of the builders, one constructor for each message.
pub data SpecError : Type 0 where
  bad_name model_required vllm_needs_gpu : SpecError
  unknown_runtime unknown_vendor bad_env_key : String → SpecError
  no_image : String → String → SpecError

-- for k := range p.Env
unfoldable pub validate_env : Dict String → Option SpecError
unfolding env_key_re
validate_env [] = none
validate_env ((k, v) ∷ env) =
    let rest = validate_env env in if env_key_re k then rest else some (bad_env_key k)

unfoldable pub is_runtime : String → Bool
is_runtime r = r == "llamacpp" || r == "vllm" || r == "ollama"

unfoldable pub is_vendor : String → Bool
is_vendor g = g == "" || g == "nvidia" || g == "amd" || g == "intel"

-- Params.Validate; nil is `none`
unfoldable pub validate : Params → Option SpecError
unfolding is_runtime is_vendor
validate p =
    if not (name_re p.name)
    then some bad_name
    else if not (is_runtime p.runtime)
    then some (unknown_runtime p.runtime)
    else if not (is_vendor p.gpu)
    then some (unknown_vendor p.gpu)
    else if not (p.runtime == "ollama") && p.model == ""
    then some model_required
    else validate_env p.env
