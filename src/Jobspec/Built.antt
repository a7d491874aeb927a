-- ===== src/Jobspec/Built.antt =====
-- What `Build` promises of a job, and when it gives one.
use Prim.Native.String.{◌++◌}
use mathlib.Core.Path.{subst, ◌∙◌}
use ai_model_scheduler.Base.{
  ok, ◌>>=◌, >>=-eq-ok, String, Bool, true, false, ◌≡◌, sym, ap, refl, ◌≢◌, List, [], ◌∷◌, some,
  inl, inr, ◌==◌, if◌then◌else◌, Dict, lookup, insert, lookup-insert, get_text, eq_iff, arith,
  Option-cases, Bool-cases,
}
use ai_model_scheduler.Jobspec.Params.{Params, validate}
use ai_model_scheduler.Jobspec.Validity.{IsDeployable, IsVendor, validate_iff}
use ai_model_scheduler.Jobspec.Job.{Env, Job, Value, text, texts}
use ai_model_scheduler.Jobspec.Common.{
  volume, job_prefix, port_label, managed_by_key, managed_by_value, kind_key, kind_inference,
  params_key, model_key, runtime_key, gpu_key, runtime_image, base_job,
}
use ai_model_scheduler.Jobspec.Runtimes.{
  llama_cpp, vllm, ollama, build, build_runtime, vllm_job, ollama_job, llama_args, vllm_args,
  configure, llamacpp_images, vllm_images, ollama_images,
}

-- The image that the configuration has for a runtime and a vendor; "" where it has none.
abbrev pub image_for : String → String → Env → String
image_for runtime gpu env =
    if runtime == "llamacpp"
    then (if gpu == ""
        then env.images.llamacpp
        else if gpu == "nvidia"
        then env.images.llamacpp_cuda
        else if gpu == "amd"
        then env.images.llamacpp_rocm
        else env.images.llamacpp_intel)
    else if runtime == "vllm"
    then (if gpu == ""
        then ""
        else if gpu == "nvidia"
        then env.images.vllm
        else if gpu == "amd"
        then env.images.vllm_rocm
        else env.images.vllm_intel)
    else (if gpu == ""
        then env.images.ollama
        else if gpu == "nvidia"
        then env.images.ollama
        else if gpu == "amd"
        then env.images.ollama_rocm
        else env.images.ollama_intel)

-- A job of this application that serves the parameters.
pub record Serves (encode : Params → String) (p : Params) (env : Env) (job : Job) : Type 0 where
  pub id : job.id ≡ job_prefix ++ p.name
  pub service : job.type ≡ "service"
  pub driver : job.group.task.driver ≡ env.driver
  pub image : lookup "image" job.group.task.config ≡ some (text (image_for p.runtime p.gpu env))
  pub ports :
      job.group.reserved_ports ≡ record { label = port_label; value = p.port; to = p.port } ∷ []
  pub managed : get_text managed_by_key job.meta ≡ managed_by_value
  pub inference : get_text kind_key job.meta ≡ kind_inference
  pub runtime : get_text runtime_key job.meta ≡ p.runtime
  pub model : get_text model_key job.meta ≡ p.model
  pub gpu : get_text gpu_key job.meta ≡ p.gpu
  pub params : get_text params_key job.meta ≡ encode p

module _ (encode : Params → String) (p : Params) (env : Env) where
  base_job-Serves :
      (image : String) (args : List String)
      → image ≡ image_for p.runtime p.gpu env
      → Serves encode p env (base_job encode p env image args)
  unfolding base_job get_text lookup insert
  base_job-Serves image args e = record {
    id = refl;
    service = refl;
    driver = refl;
    image = ground (arith, e);
    ports = refl;
    managed = refl;
    inference = refl;
    runtime = refl;
    model = refl;
    gpu = refl;
    params = refl;
  }

  configure-Serves :
      (key : String) (v : Value) (job : Job)
      → (key == "image") ≡ false
      → Serves encode p env job
      → Serves encode p env (configure key v job)
  unfolding configure
  configure-Serves key v job e s = record {
    id = s.id;
    service = s.service;
    driver = s.driver;
    image = rw (lookup-insert key "image" v job.group.task.config) (rw e s.image);
    ports = s.ports;
    managed = s.managed;
    inference = s.inference;
    runtime = s.runtime;
    model = s.model;
    gpu = s.gpu;
    params = s.params;
  }

runtime_image-ok :
    (runtime gpu : String) (by_vendor : Dict String) (image : String)
    → runtime_image runtime gpu by_vendor ≡ ok image
    → (image ≡ get_text gpu by_vendor) × (image ≢ "")
unfolding runtime_image
runtime_image-ok runtime gpu by_vendor image h = ground (arith, eq_iff (get_text gpu by_vendor) "")

-- The builders' tables have the images that the configuration names.
module _ (env : Env) where
  llama_image :
      (g : String) → IsVendor g → get_text g (llamacpp_images env) ≡ image_for "llamacpp" g env
  unfolding get_text lookup
  llama_image g (inl e) = rw e
  llama_image g (inr (inl e)) = rw e
  llama_image g (inr (inr (inl e))) = rw e
  llama_image g (inr (inr (inr e))) = rw e

  vllm_image : (g : String) → IsVendor g → get_text g (vllm_images env) ≡ image_for "vllm" g env
  unfolding get_text lookup
  vllm_image g (inl e) = rw e
  vllm_image g (inr (inl e)) = rw e
  vllm_image g (inr (inr (inl e))) = rw e
  vllm_image g (inr (inr (inr e))) = rw e

  ollama_image :
      (g : String) → IsVendor g → get_text g (ollama_images env) ≡ image_for "ollama" g env
  unfolding get_text lookup
  ollama_image g (inl e) = rw e
  ollama_image g (inr (inl e)) = rw e
  ollama_image g (inr (inr (inl e))) = rw e
  ollama_image g (inr (inr (inr e))) = rw e

module _ (encode : Params → String) (p : Params) (env : Env) where
  -- A builder that takes its image from a table and wraps it into a job that serves `p`.
  from_table-Serves :
      (runtime : String) (table : Dict String) (wrap : String → Job)
      → get_text p.gpu table ≡ image_for p.runtime p.gpu env
      → ((image : String)
          → image ≡ image_for p.runtime p.gpu env
          → Serves encode p env (wrap image))
      → (job : Job) → (runtime_image runtime p.gpu table >>= λ image. ok (wrap image)) ≡ ok job
      → (image_for p.runtime p.gpu env ≢ "") × Serves encode p env job
  from_table-Serves runtime table wrap same serves job h =
      let (image, found, made) =
        >>=-eq-ok (runtime_image runtime p.gpu table) (λ image. ok (wrap image)) h in
      let (e, full) = runtime_image-ok runtime p.gpu table image found in
      let wrapped : wrap image ≡ job = cc made in
      (
        λ empty. full (e ∙ same ∙ empty),
        subst (Serves encode p env) wrapped (serves image (e ∙ same)),
      )

  docker_key : (b : Bool) → ((if b then "work_dir" else "working_dir") == "image") ≡ false
  docker_key true = refl
  docker_key false = refl

  vllm_job-Serves :
      (image : String)
      → image ≡ image_for p.runtime p.gpu env
      → Serves encode p env (vllm_job encode p env image)
  unfolding vllm_job
  vllm_job-Serves image e =
      configure-Serves encode p env _ _ _ (docker_key (env.driver == "docker")) (
        configure-Serves encode p env "shm_size" _ _ refl
          (base_job-Serves encode p env image (vllm_args p env) e))

  ollama_job-Serves :
      (image : String)
      → image ≡ image_for p.runtime p.gpu env
      → Serves encode p env (ollama_job encode p env image)
  unfolding ollama_job
  ollama_job-Serves image e =
      let s =
        configure-Serves encode p env "volumes" (texts (volume env "" ∷ []))
          (base_job encode p env image []) refl (base_job-Serves encode p env image [] e) in
      record {
        id = s.id;
        service = s.service;
        driver = s.driver;
        image = s.image;
        ports = s.ports;
        managed = s.managed;
        inference = s.inference;
        runtime = s.runtime;
        model = s.model;
        gpu = s.gpu;
        params = s.params;
      }

  -- `Build` picks the builder by the runtime's name.
  build_runtime_cases :
      (p.runtime ≡ "llamacpp" → build_runtime encode p env ≡ llama_cpp encode p env)
      × (p.runtime ≡ "vllm" → build_runtime encode p env ≡ vllm encode p env)
      × (p.runtime ≡ "ollama" → build_runtime encode p env ≡ ollama encode p env)
  unfolding build_runtime
  build_runtime_cases = (
    λ e. ground (arith, eq_iff p.runtime "llamacpp"),
    λ e. rw (build_runtime, e),
    λ e. rw (build_runtime, e),
  )

  vllm-Serves :
      (get_text p.gpu (vllm_images env) ≡ image_for p.runtime p.gpu env)
      → (job : Job) → vllm encode p env ≡ ok job
      → (image_for p.runtime p.gpu env ≢ "") × Serves encode p env job
  unfolding vllm
  vllm-Serves same job h = elim (Bool-cases (p.gpu == "")) [
    | inl cpu ↦ cc (rw cpu at h)
    | inr gpu ↦
        from_table-Serves "vLLM" (vllm_images env) (vllm_job encode p env) same vllm_job-Serves job
          (rw gpu at h)
  ]

  runtime_Serves :
      IsDeployable p
      → (job : Job) → build_runtime encode p env ≡ ok job
      → (image_for p.runtime p.gpu env ≢ "") × Serves encode p env job
  unfolding llama_cpp ollama
  runtime_Serves d job h = elim d.served [
    | inl e ↦
        from_table-Serves "llama.cpp" (llamacpp_images env)
          (λ image. base_job encode p env image (llama_args p env))
          (llama_image env p.gpu d.placed ∙ sym (ap (λ r. image_for r p.gpu env) e))
          (λ image. base_job-Serves encode p env image (llama_args p env)) job
          (sym (build_runtime_cases.0 e) ∙ h)
    | inr (inl e) ↦
        vllm-Serves (vllm_image env p.gpu d.placed ∙ sym (ap (λ r. image_for r p.gpu env) e)) job
          (sym (build_runtime_cases.1 e) ∙ h)
    | inr (inr e) ↦
        from_table-Serves "Ollama" (ollama_images env) (ollama_job encode p env)
          (ollama_image env p.gpu d.placed ∙ sym (ap (λ r. image_for r p.gpu env) e))
          ollama_job-Serves job (sym (build_runtime_cases.2 e) ∙ h)
  ]

  -- A job that `Build` gives is for deployable parameters with a configured image, and serves them.
  pub build-Serves :
      (job : Job)
      → build encode p env ≡ ok job
      → IsDeployable p × (image_for p.runtime p.gpu env ≢ "") × Serves encode p env job
  unfolding build
  build-Serves job h = elim (Option-cases (validate p)) [
    | inl valid ↦
        let d = (validate_iff p).0 valid in
        let (full, s) = runtime_Serves d job (rw (valid, build) at h) in (d, full, s)
    | inr (e, invalid) ↦ cc (rw (invalid, build) at h)
  ]

  from_table_gives :
      (runtime : String) (table : Dict String) (wrap : String → Job)
      → get_text p.gpu table ≡ image_for p.runtime p.gpu env
      → image_for p.runtime p.gpu env ≢ ""
      → (job : Job) × ((runtime_image runtime p.gpu table >>= λ image. ok (wrap image)) ≡ ok job)
  unfolding runtime_image
  from_table_gives runtime table wrap same full =
      (wrap (get_text p.gpu table), ground (arith, eq_iff (get_text p.gpu table) "", same))

  runtime_gives :
      IsDeployable p
      → image_for p.runtime p.gpu env ≢ ""
      → (job : Job) × (build_runtime encode p env ≡ ok job)
  unfolding llama_cpp ollama vllm
  runtime_gives d full = elim d.served [
    | inl e ↦ rw (build_runtime_cases.0 e) (
        from_table_gives "llama.cpp" (llamacpp_images env)
          (λ image. base_job encode p env image (llama_args p env))
          (llama_image env p.gpu d.placed ∙ sym (ap (λ r. image_for r p.gpu env) e)) full)
    | inr (inl e) ↦
        rw (build_runtime_cases.1 e, vllm_on_gpu e)
          (from_table_gives "vLLM" (vllm_images env) (vllm_job encode p env)
            (vllm_image env p.gpu d.placed ∙ sym (ap (λ r. image_for r p.gpu env) e)) full)
    | inr (inr e) ↦ rw (build_runtime_cases.2 e) (
        from_table_gives "Ollama" (ollama_images env) (ollama_job encode p env)
          (ollama_image env p.gpu d.placed ∙ sym (ap (λ r. image_for r p.gpu env) e)) full)
  ]
    where
      vllm_on_gpu : p.runtime ≡ "vllm" → (p.gpu == "") ≡ false
      vllm_on_gpu e = elim (Bool-cases (p.gpu == "")) [
        | inl cpu ↦ absurd (
            full (
              ap (λ r. image_for r p.gpu env) e
              ∙ ap (λ g. image_for "vllm" g env) ((eq_iff p.gpu "").0 cpu)))
        | inr gpu ↦ gpu
      ]

  -- Deployable parameters with a configured image always give a job.
  pub build_gives :
      IsDeployable p
      → image_for p.runtime p.gpu env ≢ ""
      → (job : Job) × (build encode p env ≡ ok job)
  unfolding build
  build_gives d full = rw ((validate_iff p).1 d, build) (runtime_gives d full)
