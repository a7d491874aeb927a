-- ===== src/Jobspec/Job.antt =====
-- The Nomad job definitions that internal/jobspec builds, and the environment facts that the
-- builders take from the configuration (internal/jobspec/base.go, internal/config/config.go).
use ai_model_scheduler.Base.{String, ℕ, ℤ, List, Option, Dict}

-- config.Images
pub record Images : Type 0 where
  pub llamacpp : String
  pub llamacpp_cuda : String
  pub llamacpp_rocm : String
  pub llamacpp_intel : String
  pub vllm : String
  pub vllm_rocm : String
  pub vllm_intel : String
  pub ollama : String
  pub ollama_rocm : String
  pub ollama_intel : String
  pub indexer : String
  pub hf_download : String
  pub gpu_stats : String
  pub bench : String

-- jobspec.Env
pub record Env : Type 0 where
  pub driver : String
  pub model_root_host : String
  pub model_mount : String
  pub image_pull_timeout : String
  pub images : Images

-- A value of a task's driver configuration, `map[string]any`.
pub data Value : Type 0 where
  text : String → Value
  texts : List String → Value
  number : ℕ → Value

pub record Template : Type 0 where
  pub embedded : String
  pub dest_path : String
  pub left_delim : String
  pub right_delim : String
  pub change_mode : String

pub record Task : Type 0 where
  pub name : String
  pub driver : String
  pub config : Dict Value
  pub env : Dict String
  pub cpu : ℤ
  pub memory_mb : ℤ
  pub templates : List Template

pub record Port : Type 0 where
  pub label : String
  pub value : ℤ
  pub to : ℤ

pub record Restart : Type 0 where
  pub attempts : Option ℕ
  pub mode : String

pub record Reschedule : Type 0 where
  pub attempts : ℕ

pub record Group : Type 0 where
  pub name : String
  pub count : ℕ
  pub reserved_ports : List Port
  pub task : Task
  pub restart : Option Restart
  pub reschedule : Option Reschedule

-- api.ParameterizedJobConfig
pub record Parameters : Type 0 where
  pub required : List String
  pub optional : List String

pub record Job : Type 0 where
  pub id : String
  pub name : String
  pub type : String
  pub datacenters : List String
  pub group : Group
  pub meta : Dict String
  pub parameters : Option Parameters
