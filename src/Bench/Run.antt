-- ===== src/Bench/Run.antt =====
-- internal/bench/types.go: runs, their results and metrics. The type `F` stands for float64.
use ai_model_scheduler.Base.{String, ℕ, ℤ, Bool, true, false, List, Option, Dict}
use ai_model_scheduler.Jobspec.Params.{Params}
use ai_model_scheduler.Bench.Config.{Config}
use ai_model_scheduler.Bench.Eval.{EvalSpec}

-- The operations on float64 that the program uses; `show` prints with that many decimals.
pub record Floats (F : Type 0) : Type 0 where
  pub zero : F
  pub of_int : ℤ → F
  pub seconds : ℕ → F
  pub add : F → F → F
  pub mul : F → F → F
  pub div : F → F → F
  pub lt : F → F → Bool
  pub le : F → F → Bool
  pub show : ℕ → F → String

pub record SingleStream (F : Type 0) : Type 0 where
  pub tok_per_sec : F
  pub ttft_p50_ms : F
  pub ttft_p95_ms : F
  pub requests : ℤ
  pub errors : ℤ

pub record ConcResult (F : Type 0) : Type 0 where
  pub n : ℤ
  pub tok_per_sec : F
  pub latency_p50_ms : F
  pub latency_p95_ms : F
  pub requests : ℤ
  pub errors : ℤ

pub record TokenSpeed (F : Type 0) : Type 0 where
  pub prefill_tok_per_sec : F
  pub decode_tok_per_sec : F
  pub ttft_p50_ms : F
  pub ttft_p95_ms : F
  pub prompt_tokens : ℤ
  pub completion_tokens : ℤ
  pub requests : ℤ
  pub errors : ℤ

pub record TaskScore (F : Type 0) : Type 0 where
  pub metric : String
  pub value : F

pub record Sample : Type 0 where
  pub prompt : String
  pub expected : String
  pub response : String
  pub correct : Bool

pub record Accuracy (F : Type 0) : Type 0 where
  pub kind : String
  pub score : F
  pub correct : ℤ
  pub total : ℤ
  pub tasks : Dict (TaskScore F)
  pub samples : List Sample

pub record Resources (F : Type 0) : Type 0 where
  pub peak_vram_bytes : ℤ
  pub avg_util : F
  pub samples : ℕ

pub record Metrics (F : Type 0) : Type 0 where
  pub single : Option (SingleStream F)
  pub concurrency : List (ConcResult F)
  pub accuracy : Option (Accuracy F)
  pub tokens : Option (TokenSpeed F)
  pub resources : Option (Resources F)
  pub wait_sec : F
  pub errors : List String

-- The statuses of one configuration's result.
pub data ConfigStatus : Type 0 where
  config_pending config_deploying config_evaluating config_complete config_failed config_skipped :
      ConfigStatus

pub record ConfigResult (F : Type 0) : Type 0 where
  pub index : ℕ
  pub label : String
  pub config : Config
  pub status : ConfigStatus
  pub error : String
  pub warnings : List String
  pub progress : String
  pub deployment : String
  pub started_at : ℕ
  pub finished_at : ℕ
  pub startup_sec : F
  pub metrics : Option (Metrics F)

-- The statuses of a run.
pub data RunStatus : Type 0 where
  run_pending run_running run_complete run_cancelled run_interrupted run_failed : RunStatus

pub record Run (F : Type 0) : Type 0 where
  pub id : String
  pub suite_id : String
  pub suite_name : String
  pub eval : EvalSpec
  pub status : RunStatus
  pub error : String
  pub started_at : ℕ
  pub finished_at : ℕ
  pub restore : List Params
  pub restored : Bool
  pub results : List (ConfigResult F)

-- Run.Active
unfoldable pub is_active : RunStatus → Bool
is_active run_pending = true
is_active run_running = true
is_active _ = false
