-- ===== src/Jobspec/Common.antt =====
-- internal/jobspec/base.go: what the runtimes' builders share. json.Marshal of the parameters is the
-- argument `encode`.
use Prim.Native.String.{◌++◌}
use ai_model_scheduler.Base.{
  Result, ok, err, String, List, [], ◌∷◌, Option, none, some, ℤ, pos, eqb_ℤ, ltb_ℤ, ◌==◌,
  if◌then◌else◌, Dict, insert, get_text, sprint,
}
use ai_model_scheduler.Jobspec.Params.{Params, SpecError, no_image}
use ai_model_scheduler.Jobspec.Job.{Env, Value, text, texts, Job}

-- A builder's result: the job, or an error.
abbrev pub Built {ℓ} : Type ℓ → Type ℓ
Built A = Result SpecError A

-- The names of internal/nomadapi that tag a job of this application.
abbrev pub job_prefix : String
job_prefix = "model-"

abbrev pub port_label : String
port_label = "api"

abbrev pub task_name : String
task_name = "server"

abbrev pub managed_by_key : String
managed_by_key = "managed-by"

abbrev pub managed_by_value : String
managed_by_value = "ai-model-scheduler"

abbrev pub kind_key : String
kind_key = "kind"

abbrev pub kind_inference : String
kind_inference = "inference"

abbrev pub kind_helper : String
kind_helper = "helper"

abbrev pub runtime_key : String
runtime_key = "runtime"

abbrev pub model_key : String
model_key = "model"

abbrev pub gpu_key : String
gpu_key = "gpu"

abbrev pub params_key : String
params_key = "params"

unfoldable pub runtime_image : String → String → Dict String → Built String
runtime_image runtime gpu by_vendor =
    let image = get_text gpu by_vendor in
    if image == "" then err (no_image runtime (if gpu == "" then "CPU" else gpu)) else ok image

unfoldable pub gpu_devices : String → Option (List String)
gpu_devices vendor =
    if vendor == "nvidia"
    then some ("nvidia.com/gpu=all" ∷ [])
    else if vendor == "amd"
    then some ("/dev/kfd" ∷ "/dev/dri" ∷ [])
    else if vendor == "intel"
    then some ("/dev/dri" ∷ [])
    else none

abbrev pub default_mem_mb : ℤ
default_mem_mb = pos 8192

unfoldable pub mem_limit_mb : Params → ℤ
mem_limit_mb p = if ltb_ℤ (pos 0) p.mem_mb then p.mem_mb else default_mem_mb

-- host:mount, with or without the read-only mark
unfoldable pub volume : Env → String → String
volume env mark = sprint (env.model_root_host ∷ ":" ∷ env.model_mount ∷ mark ∷ [])

put_devices : Option (List String) → Dict Value → Dict Value
put_devices none config = config
put_devices (some devices) config = insert "devices" (texts devices) config

-- The timeout is set when the configuration names one.
unfoldable pub put_pull_timeout : String → Dict Value → Dict Value
put_pull_timeout timeout config =
    if timeout == "" then config else insert "image_pull_timeout" (text timeout) config

module _ (encode : Params → String) where
  unfoldable pub base_job : Params → Env → String → List String → Job
  unfolding put_devices put_pull_timeout gpu_devices mem_limit_mb volume
  base_job p env image args =
      let config : Dict Value =
        ("image", text image)
        ∷ ("args", texts args)
        ∷ ("ports", texts (port_label ∷ []))
        ∷ ("volumes", texts (volume env ":ro" ∷ []))
        ∷ [] in
      record {
        id = job_prefix ++ p.name;
        name = job_prefix ++ p.name;
        type = "service";
        datacenters = "*" ∷ [];
        group = record {
          name = "model";
          count = 1;
          reserved_ports = record { label = port_label; value = p.port; to = p.port } ∷ [];
          task = record {
            name = task_name;
            driver = env.driver;
            config =
                put_pull_timeout env.image_pull_timeout (put_devices (gpu_devices p.gpu) config);
            env = p.env;
            cpu = if eqb_ℤ p.cpu_mhz (pos 0) then pos 1000 else p.cpu_mhz;
            memory_mb = mem_limit_mb p;
            templates = [];
          };
          restart = none;
          reschedule = none;
        };
        meta =
            (managed_by_key, managed_by_value)
            ∷ (kind_key, kind_inference)
            ∷ (runtime_key, p.runtime)
            ∷ (model_key, p.model)
            ∷ (gpu_key, p.gpu)
            ∷ (params_key, encode p)
            ∷ [];
        parameters = none;
      }
