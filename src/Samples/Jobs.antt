-- ===== src/Samples/Jobs.antt =====
-- Parameters, and the jobs that are built for them.
use ai_model_scheduler.Jobspec.Runtimes.{llama_cpp}
use ai_model_scheduler.Base.{◌==◌, if◌then◌else◌, Option, String}
use ai_model_scheduler.Jobspec.Params.{Params, name_re}
use ai_model_scheduler.Jobspec.Params.{validate_env}
use ai_model_scheduler.Jobspec.Common.{runtime_image}
use ai_model_scheduler.Base.{get_text}
use ai_model_scheduler.Jobspec.Runtimes.{build_runtime}
use ai_model_scheduler.Samples.Data.{qwen, env, encode}
use ai_model_scheduler.Jobspec.Validity.{validate_iff, IsDeployable}
use ai_model_scheduler.Jobspec.Runtimes.{
  llama_cache_headroom_mb, llama_cache_ram, llama_args, build,
}
use ai_model_scheduler.Base.{refl, eq_iff, ◌+ℤ◌, ◌↔◌, none, ok, some, arith, ◌≡◌, ◌≤ℤ◌, ◌≢◌, pos}
use ai_model_scheduler.Jobspec.Job.{Job}
use ai_model_scheduler.Jobspec.Params.{validate}
use ai_model_scheduler.Jobspec.Built.{build-Serves, Serves, image_for}
use ai_model_scheduler.Jobspec.Common.{base_job}
use ai_model_scheduler.Jobspec.Arguments.{llama_cache_ram_fits}

validate_iff_example : (validate qwen ≡ none) ↔ IsDeployable qwen
validate_iff_example = validate_iff qwen

pub validate-qwen : validate qwen ≡ none
unfolding validate name_re validate_env
validate-qwen = refl

abbrev pub qwen_job : Job
qwen_job = base_job encode qwen env "llama:cuda" (llama_args qwen env)

pub build-qwen : build encode qwen env ≡ ok qwen_job
unfolding build validate name_re validate_env build_runtime llama_cpp runtime_image get_text
build-qwen = refl

build-Serves_example :
    IsDeployable qwen × (image_for "llamacpp" "nvidia" env ≢ "") × Serves encode qwen env qwen_job
build-Serves_example = build-Serves encode qwen env qwen_job build-qwen

llama_cache_ram_fits_example :
    (pos 0 ≤ℤ llama_cache_ram (pos 16384))
    × (llama_cache_ram (pos 16384) ≤ℤ pos 8192)
    × (pos llama_cache_headroom_mb ≤ℤ pos 16384
        → llama_cache_ram (pos 16384) +ℤ pos llama_cache_headroom_mb ≤ℤ pos 16384)
    × (pos 16384 ≤ℤ pos llama_cache_headroom_mb → llama_cache_ram (pos 16384) ≡ pos 0)
llama_cache_ram_fits_example = llama_cache_ram_fits (pos 16384)

abbrev pub decode : String → Option Params
decode text = if text == "qwen" then some qwen else none

pub qwen_named : encode qwen ≢ ""
qwen_named h = ground (arith, (eq_iff "qwen" "").1 h)
