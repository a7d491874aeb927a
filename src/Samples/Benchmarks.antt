-- ===== src/Samples/Benchmarks.antt =====
-- Suites, evaluation specs and runs on a scripted cluster.
use ai_model_scheduler.Jobspec.Params.{validate_env}
use ai_model_scheduler.Jobspec.Params.{name_re}
use ai_model_scheduler.Jobspec.Params.{validate}
use ai_model_scheduler.Bench.Config.{is_seen}
use ai_model_scheduler.Bench.Config.{params}
use ai_model_scheduler.Bench.Config.{validate_config}
use ai_model_scheduler.Bench.Config.{validate_configs}
use ai_model_scheduler.Bench.Config.{validate_list}
use ai_model_scheduler.Bench.Eval.{check_accuracy}
use ai_model_scheduler.Bench.Eval.{fill}
use ai_model_scheduler.Bench.Eval.{check_levels}
use ai_model_scheduler.Bench.Eval.{filled}
use ai_model_scheduler.Bench.Eval.{is_level}
use ai_model_scheduler.Bench.Eval.{fill_levels}
use ai_model_scheduler.Bench.Eval.{fill_kind}
use ai_model_scheduler.Base.{
  ◌==◌, show_nat, leb, ◌≢◌, ltb, ◌*◌, err, trim_space, ◌+◌, ◌↔◌, some, suc, ok, [], none, false,
  pos_part, ◌≡◌, ℕ, pos, ◌∷◌, refl,
}
use ai_model_scheduler.Samples.Data.{env, serving, spec, on_cpu, qwen}
use ai_model_scheduler.Bench.Run.{config_pending, run_pending, ConfigResult, Run, Floats}
use ai_model_scheduler.Bench.Eval.{EvalSpec, normalize}
use ai_model_scheduler.Bench.Outcomes.{run_config-IsEnded, IsPurged, IsEnded}
use ai_model_scheduler.Bench.Cluster.{Host, Cluster, State}
use ai_model_scheduler.Bench.Config.{validate_suite, Suite}
use ai_model_scheduler.Bench.Configs.{deployment_name, run_config, Focus}
use ai_model_scheduler.Bench.Outage.{Target}
use ai_model_scheduler.Bench.Normal.{normalize_of_IsNormal, normalize-IsNormal, IsNormal}
use ai_model_scheduler.Bench.Endings.{execute-IsFinal, IsFinal}
use ai_model_scheduler.Bench.Execute.{recover, execute}
use ai_model_scheduler.Bench.Suites.{validate_suite_iff, AreRunnable}
use ai_model_scheduler.Bench.Recovered.{recover-AreRecovered}
use ai_model_scheduler.Bench.Interrupted.{AreRecovered}
use ai_model_scheduler.Server.Forms.{check_index, without_config}
use ai_model_scheduler.Server.Removal.{validate_suite-without_config}

abbrev pub suite : Suite
suite = record { id = "s"; name = "speed"; configs = on_cpu ∷ []; created_at = 0; updated_at = 0 }

validate_suite_iff_example :
    (validate_suite suite ≡ none)
    ↔ ((trim_space "speed" ≢ "") × (suite.configs ≢ []) × AreRunnable [] suite.configs)
validate_suite_iff_example = validate_suite_iff suite

abbrev normal_spec : EvalSpec
normal_spec = record spec {
  accuracy = "none";
  concurrency = pos 1 ∷ pos 4 ∷ pos 8 ∷ [];
  prompts = pos 8;
  max_tokens = pos 256;
  ready_timeout_sec = pos 900;
}

normalize-spec : normalize spec ≡ ok normal_spec
unfolding normalize check_accuracy fill_kind check_levels fill_levels is_level filled fill
normalize-spec = refl

normalize-IsNormal_example : IsNormal normal_spec
normalize-IsNormal_example = normalize-IsNormal spec normal_spec normalize-spec

normal_spec-IsNormal : IsNormal normal_spec
normal_spec-IsNormal = normalize-IsNormal spec normal_spec normalize-spec

normalize_of_IsNormal_example : normalize normal_spec ≡ ok normal_spec
normalize_of_IsNormal_example = normalize_of_IsNormal normal_spec normal_spec-IsNormal

-- Numbers in place of float64; the clock is the state.
abbrev pub floats : Floats ℕ
floats = record {
  zero = 0;
  of_int = pos_part;
  seconds = λ n. n;
  add = λ a b. a + b;
  mul = λ a b. a * b;
  div = λ a b. a;
  lt = ltb;
  le = leb;
  show = λ decimals n. show_nat n;
}

-- One deployment runs, and nothing that is launched gets healthy.
abbrev pub cluster : Cluster ℕ ℕ
cluster = record {
  list_managed = λ w. (ok (serving "chat" (pos 8000) ∷ []), w);
  deployment_params = λ name w. (some (record qwen { name = name }), w);
  deploy = λ p w. (none, w);
  stop = λ name purge w. (none, w);
  register_job = λ job w. (none, w);
  batch_status = λ id w. (ok ("", ""), w);
  read_logs = λ id all w. (("", none), w);
  failure_reason = λ id w. ("", w);
  task_exits = λ id w. ([], w);
  purge_job = λ id w. (none, w);
  purge_jobs_with_prefix = λ prefix w. (none, w);
  gpu_stats = λ w. (ok [], w);
}

abbrev pub host : Host ℕ ℕ
host = record {
  now = λ w. (w, w);
  cancelled = λ w. (false, w);
  wait = λ w. (false, suc w);
  save_run = λ run w. (none, w);
  read_dataset = λ id w. (err "no dataset", w);
  list_runs = λ w. (ok [], w);
  pack = λ text. ok [];
  digest = λ text. "";
  decode_metrics = λ text. err "no metrics";
  show_duration = λ d. "15m0s";
}

abbrev pub result : ConfigResult ℕ
result = record {
  index = 0;
  label = "cpu";
  config = on_cpu;
  status = config_pending;
  error = "";
  warnings = [];
  progress = "";
  deployment = "";
  started_at = 0;
  finished_at = 0;
  startup_sec = 0;
  metrics = none;
}

abbrev pub run : Run ℕ
run = record {
  id = "20250101-ab12";
  suite_id = "s";
  suite_name = "speed";
  eval = normal_spec;
  status = run_pending;
  error = "";
  started_at = 0;
  finished_at = 0;
  restore = [];
  restored = false;
  results = result ∷ [];
}

abbrev pub start : State ℕ ℕ
start = record { world = 0; log = [] }

abbrev pub focus : Focus ℕ
focus = record { run = run; before = []; after = [] }

abbrev chat : Target
chat = record { name = "chat"; is_mine = λ p. p.name == "chat" }

run_config-IsEnded_example :
    IsEnded (run_config floats cluster host env (pos 10800) 4 focus none result start).0
    × IsPurged
        (deployment_name run.id 0)
        (run_config floats cluster host env (pos 10800) 4 focus none result start).1
run_config-IsEnded_example =
    run_config-IsEnded floats cluster host env (pos 10800) 4 focus none result start

execute-IsFinal_example : IsFinal (execute floats cluster host env (pos 10800) 4 run start).0
execute-IsFinal_example = execute-IsFinal floats cluster host env (pos 10800) 4 run start

-- The store of an application that was stopped while a run was in progress.
abbrev stopped_host : Host ℕ ℕ
stopped_host = record host { list_runs = λ w. (ok (run ∷ []), w) }

recover-AreRecovered_example :
    AreRecovered
      (ok (run ∷ []))
      []
      (recover cluster stopped_host start).0
      (recover cluster stopped_host start).1.log
recover-AreRecovered_example = recover-AreRecovered cluster stopped_host start

abbrev pair : Suite
pair = record suite { configs = on_cpu ∷ record on_cpu { label = "8 threads" } ∷ [] }

pair_valid : validate_suite pair ≡ none
unfolding validate_suite trim_space validate_list validate_configs validate_config validate name_re
    params validate_env is_seen
pair_valid = refl

pair_checked : check_index (some (pos 0)) pair.configs ≡ ok 0
unfolding check_index
pair_checked = refl

validate_suite-without_config_example : validate_suite (without_config 0 pair) ≡ none
validate_suite-without_config_example =
    validate_suite-without_config pair (some (pos 0)) 0 pair_valid pair_checked
