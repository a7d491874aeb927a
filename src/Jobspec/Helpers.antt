-- ===== src/Jobspec/Helpers.antt =====
-- internal/jobspec/helpers.go: the helper jobs.
use ai_model_scheduler.Base.{
  insert, ◌&&◌, ◌==◌, code, pos, ℤ, eqb, if◌then◌else◌, Bool, List, ℕ, String, Dict, [], ◌∷◌, none,
  some, true, false,
}
use ai_model_scheduler.Jobspec.Job.{texts, text, Value, Job, Env}
use ai_model_scheduler.Jobspec.Common.{
  kind_helper, kind_key, task_name, managed_by_value, managed_by_key, put_pull_timeout, volume,
}
use ai_model_scheduler.Jobspec.Scripts.{
  gpu_stats_script, gpu_probe_script, hf_download_script, indexer_script,
}

-- The text begins with that character.
unfoldable pub starts : ℕ → String → Bool
starts k String.[] = false
starts k (String.◌∷◌ c s) = eqb (code c) k

-- The text begins with "${".
unfoldable pub opens : String → Bool
unfolding starts
opens String.[] = false
opens (String.◌∷◌ c s) = eqb (code c) b'$' && starts b'{' s

-- escapeInterpolation: the "$" of each "${" is written twice.
unfoldable pub escape_interpolation : String → String
unfolding opens
escape_interpolation String.[] = ""
escape_interpolation (String.◌∷◌ c s) =
    let rest = escape_interpolation s in
    if opens (String.◌∷◌ c s) then String.◌∷◌ c (String.◌∷◌ c rest) else String.◌∷◌ c rest

abbrev pub indexer_job_id : String
indexer_job_id = "ams-indexer"

abbrev pub hf_download_job_id : String
hf_download_job_id = "ams-hf-download"

abbrev pub gpu_probe_job_id : String
gpu_probe_job_id = "ams-gpu-probe"

abbrev pub gpu_stats_job_id : String
gpu_stats_job_id = "ams-gpu-stats"

abbrev pub helper_meta : Dict String
helper_meta = (managed_by_key, managed_by_value) ∷ (kind_key, kind_helper) ∷ []

-- helperJob
unfoldable pub helper_job : String → Env → String → List String → Bool → ℤ → ℤ → Job
unfolding volume put_pull_timeout
helper_job id env image sh_args read_only cpu mem =
    let mount = volume env (if read_only then ":ro" else "") in
    record {
      id = id;
      name = id;
      type = "batch";
      datacenters = "*" ∷ [];
      group = record {
        name = "helper";
        count = 1;
        reserved_ports = [];
        task = record {
          name = task_name;
          driver = env.driver;
          config = put_pull_timeout env.image_pull_timeout (
              ("image", text image)
              ∷ ("command", text "/bin/sh")
              ∷ ("args", texts sh_args)
              ∷ ("volumes", texts (mount ∷ []))
              ∷ []);
          env = [];
          cpu = cpu;
          memory_mb = mem;
          templates = [];
        };
        restart = some (record { attempts = some 0; mode = "fail" });
        reschedule = none;
      };
      meta = helper_meta;
      parameters = some (record { required = []; optional = [] });
    }

-- Indexer
unfoldable pub indexer : Env → Job
unfolding helper_job
indexer env =
    helper_job indexer_job_id env env.images.indexer
      ("-c" ∷ escape_interpolation (indexer_script env) ∷ []) true (pos 200) (pos 128)

-- GPUProbe
unfoldable pub gpu_probe : Env → Job
unfolding helper_job
gpu_probe env =
    helper_job gpu_probe_job_id env env.images.indexer
      ("-c" ∷ escape_interpolation gpu_probe_script ∷ []) true (pos 200) (pos 128)

-- The configuration of the agent's task; only an NVIDIA GPU needs its device.
unfoldable pub agent_config : Env → Bool → Dict Value
unfolding put_pull_timeout
agent_config env nvidia =
    let config : Dict Value =
      ("image", text env.images.gpu_stats)
      ∷ ("command", text "/bin/sh")
      ∷ ("args", texts ("-c" ∷ escape_interpolation gpu_stats_script ∷ []))
      ∷ [] in
    put_pull_timeout env.image_pull_timeout
      (if nvidia then insert "devices" (texts ("nvidia.com/gpu=all" ∷ [])) config else config)

-- GPUStatsAgent
unfoldable pub gpu_stats_agent : Env → Bool → Job
unfolding agent_config
gpu_stats_agent env nvidia = record {
  id = gpu_stats_job_id;
  name = gpu_stats_job_id;
  type = "service";
  datacenters = "*" ∷ [];
  group = record {
    name = "agent";
    count = 1;
    reserved_ports = [];
    task = record {
      name = task_name;
      driver = env.driver;
      config = agent_config env nvidia;
      env = [];
      cpu = pos 100;
      memory_mb = pos 128;
      templates = [];
    };
    restart = some (record { attempts = none; mode = "delay" });
    reschedule = none;
  };
  meta = helper_meta;
  parameters = none;
}

-- HFDownload: what it changes of the helper job
unfoldable pub hf_download : Env → String → Job
unfolding helper_job
hf_download env hf_token =
    let job =
      helper_job hf_download_job_id env env.images.hf_download
        ("-c" ∷ escape_interpolation (hf_download_script env) ∷ []) false (pos 500) (pos 4096) in
    let token : Dict String = if hf_token == "" then [] else ("HF_TOKEN", hf_token) ∷ [] in
    let task = record job.group.task { env = token } in
    record job {
      group = record job.group { task = task };
      parameters =
          some
            (record { required = "repo_id" ∷ "dest" ∷ []; optional = "revision" ∷ "include" ∷ [] });
    }
