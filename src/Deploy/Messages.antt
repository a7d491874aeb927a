-- ===== src/Deploy/Messages.antt =====
-- The texts of the errors of internal/deploy/service.go and internal/jobspec/base.go. strconv.Quote, by
-- which %q prints, is an argument.
use ai_model_scheduler.Base.{◌==◌, if◌then◌else◌, show_int, sprint, String, [], ◌∷◌}
use ai_model_scheduler.Jobspec.Params.{
  vllm_needs_gpu, model_required, bad_name, no_image, bad_env_key, unknown_vendor, unknown_runtime,
  SpecError,
}
use ai_model_scheduler.Deploy.Service.{
  no_free_ports, registering, port_used, port_outside, already_exists, listing_failed, checking,
  spec, DeployError, PortRange,
}

module _ (quote : String → String) where
  -- Params.Validate, the builders and runtimeImage
  unfoldable pub spec_text : SpecError → String
  spec_text bad_name = "name must match ^[a-z0-9][a-z0-9-]{0,30}$"
  spec_text model_required = "model is required"
  spec_text vllm_needs_gpu = "vllm requires a GPU; select one on the deploy form"
  spec_text (unknown_runtime r) = sprint ("unknown runtime " ∷ quote r ∷ [])
  spec_text (unknown_vendor g) =
      sprint ("unknown gpu vendor " ∷ quote g ∷ " (want nvidia, amd, intel, or empty for CPU)" ∷ [])
  spec_text (bad_env_key k) = sprint ("invalid environment variable name " ∷ quote k ∷ [])
  spec_text (no_image r gpu) = sprint (
      "no "
      ∷ r
      ∷ " image configured for "
      ∷ (if gpu == "" then "CPU" else gpu)
      ∷ "; set the matching IMAGE_* variable"
      ∷ [])

  unfoldable pub range_text : PortRange → String
  range_text range = sprint (show_int range.min ∷ "-" ∷ show_int range.max ∷ [])

  -- Service.Deploy and suggestPort
  unfoldable pub error_text : PortRange → DeployError → String
  unfolding spec_text range_text
  error_text range (spec e) = spec_text e
  error_text range (checking text) = sprint ("checking existing deployments: " ∷ text ∷ [])
  error_text range (listing_failed text) = text
  error_text range (already_exists name) =
      sprint ("deployment " ∷ quote name ∷ " already exists" ∷ [])
  error_text range (port_outside p) =
      sprint ("port " ∷ show_int p ∷ " outside allowed range " ∷ range_text range ∷ [])
  error_text range (port_used p name) =
      sprint ("port " ∷ show_int p ∷ " already used by deployment " ∷ quote name ∷ [])
  error_text range no_free_ports = sprint ("no free ports in range " ∷ range_text range ∷ [])
  error_text range (registering text) = text
