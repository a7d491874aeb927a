-- ===== src/Jobspec/BenchJobs.antt =====
-- internal/jobspec/bench.go: the batch jobs that measure a configuration and stage a dataset.
use ai_model_scheduler.Base.{
  none, path_join, String, ℤ, pos, not, List, [], ◌∷◌, ◌++◌, map, some, if◌then◌else◌, ◌==◌, Dict,
  sprint, show_int, join,
}
use ai_model_scheduler.Jobspec.Job.{Env, Value, text, texts, Task, Job}
use ai_model_scheduler.Jobspec.Common.{
  task_name, volume, put_pull_timeout, managed_by_key, managed_by_value, kind_key, kind_helper,
}

abbrev pub bench_job_prefix : String
bench_job_prefix = "ams-bench-"

abbrev pub bench_dir : String
bench_dir = "_benchmarks"

abbrev pub bench_tmpl_left : String
bench_tmpl_left = "[[[[ams"

abbrev pub bench_tmpl_right : String
bench_tmpl_right = "ams]]]]"

pub record BenchEval : Type 0 where
  pub job_id : String
  pub endpoint : String
  pub model_name : String
  pub runtime : String
  pub accuracy : String
  pub dataset_parts : String
  pub dataset_sha256 : String
  pub dataset_path : String
  pub tasks : List String
  pub limit : ℤ
  pub concurrency : List ℤ
  pub prompts : ℤ
  pub max_tokens : ℤ
  pub ready_timeout_sec : ℤ
  pub out_dir : String

pub record BenchStage : Type 0 where
  pub job_id : String
  pub dir : String
  pub name : String
  pub content : String

-- A run-once batch job around a task.
unfoldable pub bench_batch_job : String → String → Task → Job
bench_batch_job job_id group_name task = record {
  id = job_id;
  name = job_id;
  type = "batch";
  datacenters = "*" ∷ [];
  group = record {
    name = group_name;
    count = 1;
    reserved_ports = [];
    task = task;
    restart = some (record { attempts = some 0; mode = "fail" });
    reschedule = some (record { attempts = 0 });
  };
  meta = (managed_by_key, managed_by_value) ∷ (kind_key, kind_helper) ∷ [];
  parameters = none;
}

-- The image and the writable model volume of a benchmark task.
bench_config : Env → Dict Value
bench_config env =
    put_pull_timeout env.image_pull_timeout
      (("image", text env.images.bench) ∷ ("volumes", texts (volume env "" ∷ [])) ∷ [])

-- A staged upload goes before a file on the share.
dataset_env : Env → BenchEval → Dict String
dataset_env env spec =
    if not (spec.dataset_parts == "")
    then ("BENCH_DATASET_PARTS", path_join (env.model_mount ∷ spec.dataset_parts ∷ []))
      ∷ ("BENCH_DATASET_SHA256", spec.dataset_sha256)
      ∷ []
    else if not (spec.dataset_path == "")
    then ("BENCH_DATASET", path_join (env.model_mount ∷ spec.dataset_path ∷ [])) ∷ []
    else []

eval_env : Env → BenchEval → Dict String
unfolding dataset_env
eval_env env spec =
    (("BENCH_ENDPOINT", sprint ("http://" ∷ spec.endpoint ∷ []))
      ∷ ("BENCH_MODEL", spec.model_name)
      ∷ ("BENCH_RUNTIME", spec.runtime)
      ∷ ("BENCH_ACCURACY", spec.accuracy)
      ∷ ("BENCH_TASKS", join "," spec.tasks)
      ∷ ("BENCH_LIMIT", show_int spec.limit)
      ∷ ("BENCH_CONCURRENCY", join "," (map show_int spec.concurrency))
      ∷ ("BENCH_PROMPTS", show_int spec.prompts)
      ∷ ("BENCH_MAX_TOKENS", show_int spec.max_tokens)
      ∷ ("BENCH_READY_TIMEOUT", show_int spec.ready_timeout_sec)
      ∷ ("BENCH_OUT_DIR", path_join (env.model_mount ∷ spec.out_dir ∷ []))
      ∷ ("HF_HOME", path_join (env.model_mount ∷ bench_dir ∷ ".hf-cache" ∷ []))
      ∷ [])
    ++ dataset_env env spec

unfoldable pub bench_eval_job : Env → BenchEval → Job
unfolding bench_batch_job bench_config eval_env
bench_eval_job env spec = bench_batch_job spec.job_id "eval" (record {
  name = task_name;
  driver = env.driver;
  config = bench_config env;
  env = eval_env env spec;
  cpu = pos 1000;
  memory_mb = pos 4096;
  templates = [];
})

unfoldable pub bench_stage_job : Env → BenchStage → Job
unfolding bench_batch_job bench_config
bench_stage_job env spec = bench_batch_job spec.job_id "stage" (record {
  name = task_name;
  driver = env.driver;
  config = bench_config env;
  env =
      ("BENCH_MODE", "stage")
      ∷ ("BENCH_STAGE_SRC", "/local/part")
      ∷ ("BENCH_STAGE_DEST", path_join (env.model_mount ∷ spec.dir ∷ spec.name ∷ []))
      ∷ [];
  cpu = pos 100;
  memory_mb = pos 128;
  templates =
      record {
        embedded = spec.content;
        dest_path = "local/part";
        left_delim = bench_tmpl_left;
        right_delim = bench_tmpl_right;
        change_mode = "noop";
      }
      ∷ [];
})
