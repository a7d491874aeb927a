-- ===== src/Jobspec/Runtimes.antt =====
-- internal/jobspec/llamacpp.go, vllm.go and ollama.go, and `Build` of base.go.
use Prim.Native.String
use ai_model_scheduler.Base.{
  ok, err, ◌>>=◌, String, Bool, true, false, not, ◌&&◌, ◌||◌, List, [], ◌∷◌, ◌++◌, none, some, ℕ,
  ◌^◌, ◌*◌, ℤ, pos, negsuc, leb, eqb, ltb_ℤ, ◌+ℤ◌, ◌==◌, if◌then◌else◌, Dict, lookup, insert,
  has_prefix, path_join, path_dir, fields, show_int, code, any, ◌-◌, ◌+◌,
}
use ai_model_scheduler.Jobspec.Params.{Params, validate, vllm_needs_gpu, unknown_runtime}
use ai_model_scheduler.Jobspec.Job.{Env, Value, text, texts, number, Job}
use ai_model_scheduler.Jobspec.Common.{Built, runtime_image, mem_limit_mb, volume, base_job}

abbrev pub llama_cache_headroom_mb : ℕ
llama_cache_headroom_mb = 3072

unfoldable pub min_ℤ : ℤ → ℤ → ℤ
min_ℤ a b = if ltb_ℤ b a then b else a

unfoldable pub max_ℤ : ℤ → ℤ → ℤ
max_ℤ a b = if ltb_ℤ a b then b else a

-- min(8192, max(0, memMB-llamaCacheHeadroomMB))
unfoldable pub llama_cache_ram : ℤ → ℤ
unfolding min_ℤ max_ℤ ◌+ℤ◌
llama_cache_ram mem = min_ℤ (pos 8192) (max_ℤ (pos 0) (mem +ℤ negsuc (llama_cache_headroom_mb - 1)))

sets_flag : String → String → Bool
sets_flag arg name = arg == name || has_prefix arg (String.◌++◌ name "=")

-- hasFlag: some argument is one of the flags, as "--flag" or as "--flag=v"
unfoldable pub has_flag : List String → List String → Bool
unfolding sets_flag any
has_flag args names = any (λ a. any (sets_flag a) names) args

abbrev pub cache_flags : List String
cache_flags = "--cache-ram" ∷ "-cram" ∷ []

-- args = append(args, flag, strconv.Itoa(n)) under a test
unfoldable pub flag_if : Bool → String → ℤ → List String
flag_if set flag n = if set then flag ∷ show_int n ∷ [] else []

-- The arguments that `llamaCPP` passes to llama-server, in their order.
unfoldable pub llama_args : Params → Env → List String
unfolding flag_if
llama_args p env =
    let extra = fields p.extra_args in
    ("-m"
      ∷ path_join (env.model_mount ∷ p.model ∷ [])
      ∷ "--host"
      ∷ "0.0.0.0"
      ∷ "--port"
      ∷ show_int p.port
      ∷ [])
    ++ (flag_if (ltb_ℤ (pos 0) p.ctx_size) "-c" p.ctx_size
        ++ (flag_if (ltb_ℤ (pos 0) p.threads) "-t" p.threads
            ++ (flag_if (not (p.gpu == "")) "--n-gpu-layers"
                  (if ltb_ℤ (pos 0) p.gpu_layers then p.gpu_layers else pos 999)
                ++ (flag_if (not (has_flag extra cache_flags)) "--cache-ram"
                      (llama_cache_ram (mem_limit_mb p))
                    ++ extra))))

unfoldable pub vllm_args : Params → Env → List String
unfolding flag_if
vllm_args p env =
    ("--model"
      ∷ path_join (env.model_mount ∷ p.model ∷ [])
      ∷ "--host"
      ∷ "0.0.0.0"
      ∷ "--port"
      ∷ show_int p.port
      ∷ "--served-model-name"
      ∷ p.name
      ∷ [])
    ++ (flag_if (ltb_ℤ (pos 0) p.ctx_size) "--max-model-len" p.ctx_size ++ fields p.extra_args)

-- strings.ToLower as far as the test of an ASCII suffix sees it
lower : ℕ → ℕ
lower c = if leb b'A' c && leb c b'Z' then c + 32 else c

same_lowered : String → String → Bool
unfolding lower
same_lowered String.[] String.[] = true
same_lowered (String.◌∷◌ c s) (String.◌∷◌ d t) = eqb (lower (code c)) (code d) && same_lowered s t
same_lowered _ _ = false

-- strings.HasSuffix(strings.ToLower(s), suffix)
unfoldable pub has_lower_suffix : String → String → Bool
unfolding same_lowered
has_lower_suffix String.[] suffix = suffix == ""
has_lower_suffix (String.◌∷◌ c s) suffix =
    same_lowered (String.◌∷◌ c s) suffix || has_lower_suffix s suffix

-- Changes the driver configuration of a job's task.
unfoldable pub configure : String → Value → Job → Job
configure key value job = record job {
  group = record job.group {
    task = record job.group.task { config = insert key value job.group.task.config };
  };
}

unfoldable pub work_dir : String → String
work_dir model = if has_lower_suffix model ".gguf" then path_dir model else model

-- Defaults only: a variable that the user has set stays.
unfoldable pub set_default : String → String → Dict String → Dict String
set_default k v env = elim (lookup k env) [ none ↦ insert k v env | some _ ↦ env ]

unfoldable pub ollama_env : Params → Env → Dict String
ollama_env p env =
    set_default "OLLAMA_HOST" (String.◌++◌ "0.0.0.0:" (show_int p.port))
      (set_default "OLLAMA_MODELS" (path_join (env.model_mount ∷ "ollama" ∷ [])) p.env)

abbrev pub llamacpp_images : Env → Dict String
llamacpp_images env =
    ("", env.images.llamacpp)
    ∷ ("nvidia", env.images.llamacpp_cuda)
    ∷ ("amd", env.images.llamacpp_rocm)
    ∷ ("intel", env.images.llamacpp_intel)
    ∷ []

abbrev pub vllm_images : Env → Dict String
vllm_images env =
    ("nvidia", env.images.vllm)
    ∷ ("amd", env.images.vllm_rocm)
    ∷ ("intel", env.images.vllm_intel)
    ∷ []

abbrev pub ollama_images : Env → Dict String
ollama_images env =
    ("", env.images.ollama)
    ∷ ("nvidia", env.images.ollama)
    ∷ ("amd", env.images.ollama_rocm)
    ∷ ("intel", env.images.ollama_intel)
    ∷ []

module _ (encode : Params → String) where
  unfoldable pub llama_cpp : Params → Env → Built Job
  llama_cpp p env = do
    image ← runtime_image "llama.cpp" p.gpu (llamacpp_images env)
    ok (base_job encode p env image (llama_args p env))

  unfoldable pub vllm_job : Params → Env → String → Job
  unfolding configure
  vllm_job p env image =
      let model = path_join (env.model_mount ∷ p.model ∷ []) in
      let job = base_job encode p env image (vllm_args p env) in
      let docker = env.driver == "docker" in
      configure (if docker then "work_dir" else "working_dir") (text (work_dir model))
        (configure "shm_size" (if docker then number (8 * 2 ^ 30) else text "8g") job)

  unfoldable pub vllm : Params → Env → Built Job
  vllm p env =
      if p.gpu == ""
      then err vllm_needs_gpu
      else do image ← runtime_image "vLLM" p.gpu (vllm_images env); ok (vllm_job p env image)

  unfoldable pub ollama_job : Params → Env → String → Job
  unfolding configure
  ollama_job p env image =
      let job = configure "volumes" (texts (volume env "" ∷ [])) (base_job encode p env image []) in
      record job {
        group = record job.group { task = record job.group.task { env = ollama_env p env } };
      }

  unfoldable pub ollama : Params → Env → Built Job
  ollama p env = do
    image ← runtime_image "Ollama" p.gpu (ollama_images env)
    ok (ollama_job p env image)

  unfoldable pub build_runtime : Params → Env → Built Job
  build_runtime p env =
      if p.runtime == "llamacpp"
      then llama_cpp p env
      else if p.runtime == "vllm"
      then vllm p env
      else if p.runtime == "ollama"
      then ollama p env
      else err (unknown_runtime p.runtime)

  -- Build
  unfoldable pub build : Params → Env → Built Job
  build p env = elim (validate p) [ some e ↦ err e | none ↦ build_runtime p env ]
