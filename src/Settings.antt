-- ===== src/Settings.antt =====
-- internal/config/config.go: the settings and their checks. A duration is a count of nanoseconds.
use ai_model_scheduler.Base.{
  inr, ◌↔◌, Option-cases, eq_iff, inl, ◌≤ℤ◌, Bool-cases, ◌⊎◌, arith, false, ◌≡◌, Bool, ◌≢◌, String,
  ℤ, pos, Option, none, some, Result, ok, err, if◌then◌else◌, ◌==◌, not, ◌&&◌, ◌||◌, leb_ℤ, ltb_ℤ,
}
use ai_model_scheduler.Jobspec.Job.{Env, Images}

pub record Settings : Type 0 where
  pub nomad_addr : String
  pub nomad_token : String
  pub model_root_host : String
  pub model_mount : String
  pub driver : String
  pub image_pull_timeout : String
  pub hf_token : String
  pub listen_addr : String
  pub basic_auth_user : String
  pub basic_auth_pass : String
  pub port_min : ℤ
  pub port_max : ℤ
  pub catalog_ttl : ℤ
  pub data_dir : String
  pub images : Images

-- defaults()
abbrev pub defaults : Settings
defaults = record {
  nomad_addr = "http://127.0.0.1:4646";
  nomad_token = "";
  model_root_host = "/mnt/models";
  model_mount = "/models";
  driver = "podman";
  image_pull_timeout = "45m";
  hf_token = "";
  listen_addr = ":8080";
  basic_auth_user = "";
  basic_auth_pass = "";
  port_min = pos 8000;
  port_max = pos 8999;
  catalog_ttl = pos 300000000000;
  data_dir = "data";
  images = record {
    llamacpp = "ghcr.io/ggml-org/llama.cpp:server";
    llamacpp_cuda = "ghcr.io/ggml-org/llama.cpp:server-cuda";
    llamacpp_rocm = "ghcr.io/ggml-org/llama.cpp:server-rocm";
    llamacpp_intel = "ghcr.io/ggml-org/llama.cpp:server-intel";
    vllm = "docker.io/vllm/vllm-openai:latest";
    vllm_rocm = "docker.io/vllm/vllm-openai-rocm:latest";
    vllm_intel = "";
    ollama = "docker.io/ollama/ollama:latest";
    ollama_rocm = "docker.io/ollama/ollama:rocm";
    ollama_intel = "";
    indexer = "docker.io/library/alpine:3.20";
    hf_download = "docker.io/library/python:3.12-slim";
    gpu_stats = "docker.io/library/debian:bookworm-slim";
    bench = "ghcr.io/ned-in-the-cloud/ai-model-scheduler-bench:latest";
  };
}

-- What os.Getenv, strconv.Atoi, time.ParseDuration, os.ReadFile and yaml.Unmarshal answer.
pub record Sources : Type 0 where
  pub getenv : String → String
  pub atoi : String → Option ℤ
  pub parse_duration : String → Option ℤ
  pub read_file : String → Result String String
  pub unmarshal : String → Settings → Result String Settings

pub data SettingsError : Type 0 where
  reading parsing : String → SettingsError
  no_addr : SettingsError
  bad_driver : String → SettingsError
  bad_port_range : ℤ → ℤ → SettingsError
  bad_pull_timeout : String → SettingsError
  half_auth : SettingsError

module _ (sources : Sources) where
  -- strVar, with the value that stands so far
  unfoldable pub str_var : String → String → String
  str_var key value = let v = sources.getenv key in if v == "" then value else v

  keep_or : ℤ → Option ℤ → ℤ
  keep_or value none = value
  keep_or value (some n) = n

  -- intVar: a text that is no number changes nothing
  unfoldable pub int_var : String → ℤ → ℤ
  unfolding keep_or
  int_var key value =
      let v = sources.getenv key in if v == "" then value else keep_or value (sources.atoi v)

  -- durVar
  unfoldable pub dur_var : String → ℤ → ℤ
  unfolding keep_or
  dur_var key value =
      let v = sources.getenv key in
      if v == "" then value else keep_or value (sources.parse_duration v)

  unfoldable pub image_vars : Images → Images
  image_vars c = record {
    llamacpp = str_var "IMAGE_LLAMACPP" c.llamacpp;
    llamacpp_cuda = str_var "IMAGE_LLAMACPP_CUDA" c.llamacpp_cuda;
    llamacpp_rocm = str_var "IMAGE_LLAMACPP_ROCM" c.llamacpp_rocm;
    llamacpp_intel = str_var "IMAGE_LLAMACPP_INTEL" c.llamacpp_intel;
    vllm = str_var "IMAGE_VLLM" c.vllm;
    vllm_rocm = str_var "IMAGE_VLLM_ROCM" c.vllm_rocm;
    vllm_intel = str_var "IMAGE_VLLM_INTEL" c.vllm_intel;
    ollama = str_var "IMAGE_OLLAMA" c.ollama;
    ollama_rocm = str_var "IMAGE_OLLAMA_ROCM" c.ollama_rocm;
    ollama_intel = str_var "IMAGE_OLLAMA_INTEL" c.ollama_intel;
    indexer = str_var "IMAGE_INDEXER" c.indexer;
    hf_download = str_var "IMAGE_HFDOWNLOAD" c.hf_download;
    gpu_stats = str_var "IMAGE_GPUSTATS" c.gpu_stats;
    bench = str_var "IMAGE_BENCH" c.bench;
  }

  -- The environment on top of what the defaults and the file give.
  unfoldable pub env_vars : Settings → Settings
  env_vars c = record {
    nomad_addr = str_var "NOMAD_ADDR" c.nomad_addr;
    nomad_token = str_var "NOMAD_TOKEN" c.nomad_token;
    model_root_host = str_var "MODEL_ROOT_HOST" c.model_root_host;
    model_mount = str_var "MODEL_MOUNT" c.model_mount;
    driver = str_var "NOMAD_DRIVER" c.driver;
    image_pull_timeout = str_var "IMAGE_PULL_TIMEOUT" c.image_pull_timeout;
    hf_token = str_var "HF_TOKEN" c.hf_token;
    listen_addr = str_var "LISTEN_ADDR" c.listen_addr;
    basic_auth_user = str_var "BASIC_AUTH_USER" c.basic_auth_user;
    basic_auth_pass = str_var "BASIC_AUTH_PASS" c.basic_auth_pass;
    port_min = int_var "PORT_MIN" c.port_min;
    port_max = int_var "PORT_MAX" c.port_max;
    catalog_ttl = dur_var "CATALOG_TTL" c.catalog_ttl;
    data_dir = str_var "DATA_DIR" c.data_dir;
    images = image_vars c.images;
  }

  is_bad_timeout : String → Option ℤ → Bool
  is_bad_timeout timeout (some _) = false
  is_bad_timeout timeout none = not (timeout == "")

  -- Config.validate; nil is `none`
  unfoldable pub check_settings : Settings → Option SettingsError
  unfolding is_bad_timeout
  check_settings c =
      if c.nomad_addr == ""
      then some no_addr
      else if not (c.driver == "podman") && not (c.driver == "docker")
      then some (bad_driver c.driver)
      else if leb_ℤ c.port_min (pos 0) || ltb_ℤ c.port_max c.port_min
      then some (bad_port_range c.port_min c.port_max)
      else if is_bad_timeout c.image_pull_timeout (sources.parse_duration c.image_pull_timeout)
      then some (bad_pull_timeout c.image_pull_timeout)
      else if (c.basic_auth_user == "" && not (c.basic_auth_pass == ""))
          || (not (c.basic_auth_user == "") && c.basic_auth_pass == "")
      then some half_auth
      else none

  file_settings : Result String String → Result SettingsError Settings
  file_settings (err text) = err (reading text)
  file_settings (ok content) = elim (sources.unmarshal content defaults) [
    | ok c ↦ ok c
    | err text ↦ err (parsing text)
  ]

  checked : Settings → Result SettingsError Settings
  checked c = elim (check_settings c) [ none ↦ ok c | some e ↦ err e ]

  with_env : Result SettingsError Settings → Result SettingsError Settings
  unfolding checked
  with_env (err e) = err e
  with_env (ok c) = checked (env_vars c)

  -- Load; the settings beside an error are not used.
  unfoldable pub load : Result SettingsError Settings
  unfolding file_settings with_env
  load =
      let path = sources.getenv "CONFIG_FILE" in
      if path == ""
      then with_env (ok defaults)
      else with_env (file_settings (sources.read_file path))

-- jobspec.EnvFromConfig
unfoldable pub env_from_config : Settings → Env
env_from_config c = record {
  driver = c.driver;
  model_root_host = c.model_root_host;
  model_mount = c.model_mount;
  image_pull_timeout = c.image_pull_timeout;
  images = c.images;
}

-- Settings that the service can run with: its ports are positive and in order.
pub record IsUsable (c : Settings) : Type 0 where
  pub has_addr : c.nomad_addr ≢ ""
  pub driven : (c.driver ≡ "podman") ⊎ (c.driver ≡ "docker")
  pub positive : pos 1 ≤ℤ c.port_min
  pub ordered : c.port_min ≤ℤ c.port_max
  pub both_or_neither : (c.basic_auth_user ≡ "") ↔ (c.basic_auth_pass ≡ "")

module _ (sources : Sources) where
  check_settings-IsUsable : (c : Settings) → check_settings sources c ≡ none → IsUsable c
  unfolding check_settings
  check_settings-IsUsable c h = record {
    has_addr = ground (arith, eq_iff c.nomad_addr "");
    driven = ground (arith, eq_iff c.driver "podman", eq_iff c.driver "docker");
    positive = ground arith;
    ordered = ground arith;
    both_or_neither = ground (arith, eq_iff c.basic_auth_user "", eq_iff c.basic_auth_pass "");
  }

  checked-IsUsable : (d c : Settings) → checked sources d ≡ ok c → IsUsable c
  unfolding checked
  checked-IsUsable d c h = elim (Option-cases (check_settings sources d)) [
    | inl e ↦ let same : d ≡ c = ground (arith, e, h) in rw (← same) (check_settings-IsUsable d e)
    | inr (x, e) ↦ cc (rw (e, checked) at h)
  ]

  with_env-IsUsable :
      (r : Result SettingsError Settings) (c : Settings) → with_env sources r ≡ ok c → IsUsable c
  unfolding with_env
  with_env-IsUsable (err e) c h = cc
  with_env-IsUsable (ok d) c h = checked-IsUsable (env_vars sources d) c h

  -- Settings that `load` returns without an error name a Nomad server, have a known driver and a
  -- positive port range whose bounds are in order, and set a user and a password together or neither.
  pub load-IsUsable : (c : Settings) → load sources ≡ ok c → IsUsable c
  unfolding load
  load-IsUsable c h = elim (Bool-cases (sources.getenv "CONFIG_FILE" == "")) [
    | inl e ↦ with_env-IsUsable (ok defaults) c (rw (e, load) at h)
    | inr e ↦
        with_env-IsUsable (file_settings sources (sources.read_file (sources.getenv "CONFIG_FILE")))
          c (rw (e, load) at h)
  ]
