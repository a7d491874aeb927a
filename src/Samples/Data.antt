-- ===== src/Samples/Data.antt =====
-- The inputs of the samples.
use ai_model_scheduler.Base.{◌∷◌, [], ℤ, String, pos}
use ai_model_scheduler.Bench.Config.{Config}
use ai_model_scheduler.Jobspec.Job.{Images, Env}
use ai_model_scheduler.Jobspec.Params.{Params}
use ai_model_scheduler.Bench.Eval.{EvalSpec}
use ai_model_scheduler.Nomadapi.Deployment.{no_deployment, Deployment}

abbrev pub images : Images
images = record {
  llamacpp = "llama:cpu";
  llamacpp_cuda = "llama:cuda";
  llamacpp_rocm = "llama:rocm";
  llamacpp_intel = "llama:intel";
  vllm = "vllm:cuda";
  vllm_rocm = "vllm:rocm";
  vllm_intel = "vllm:intel";
  ollama = "ollama:cuda";
  ollama_rocm = "ollama:rocm";
  ollama_intel = "ollama:intel";
  indexer = "indexer";
  hf_download = "hf";
  gpu_stats = "stats";
  bench = "bench";
}

abbrev pub env : Env
env = record {
  driver = "docker";
  model_root_host = "/srv/models";
  model_mount = "/models";
  image_pull_timeout = "30m";
  images = images;
}

abbrev pub qwen : Params
qwen = record {
  name = "qwen";
  runtime = "llamacpp";
  model = "qwen/q4.gguf";
  port = pos 0;
  gpu = "nvidia";
  ctx_size = pos 4096;
  threads = pos 0;
  gpu_layers = pos 99;
  env = ("HF_HOME", "/models/hf") ∷ [];
  extra_args = "--jinja";
  cpu_mhz = pos 2000;
  mem_mb = pos 16384;
}

abbrev pub encode : Params → String
encode p = p.name

abbrev pub serving : String → ℤ → Deployment
serving name port = record no_deployment {
  name = name;
  status = "running";
  runtime = "ollama";
  port = port;
}

abbrev pub spec : EvalSpec
spec = record {
  accuracy = "";
  dataset_id = "";
  dataset_path = "";
  tasks = [];
  limit = pos 0;
  concurrency = [];
  prompts = pos 0;
  max_tokens = pos 0;
  ready_timeout_sec = pos 0;
}

abbrev pub on_cpu : Config
on_cpu = record {
  label = "cpu";
  runtime = "llamacpp";
  model = "qwen/q4.gguf";
  gpu = "";
  ctx_size = pos 4096;
  threads = pos 8;
  gpu_layers = pos 0;
  env = [];
  extra_args = "";
  cpu_mhz = pos 0;
  mem_mb = pos 0;
}
