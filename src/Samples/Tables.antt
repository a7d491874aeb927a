-- ===== src/Samples/Tables.antt =====
-- The table of a run, and the polling loops under a clock.
use ai_model_scheduler.Bench.Watch.{watch_eval, no_usage}
use ai_model_scheduler.Bench.Stopping.{save}
use ai_model_scheduler.Bench.Configs.{whole}
use ai_model_scheduler.Bench.Cluster.{◌>>=◌, pure}
use ai_model_scheduler.Base.{
  map, ◌≤◌, ◌+◌, if◌then◌else◌, pos, ◌≡◌, arith, ltb, ◌+ℤ◌, IsSome, ℕ, All, [], ◌∷◌, none,
}
use ai_model_scheduler.Bench.Table.{lower, MetricRow}
use ai_model_scheduler.Bench.Grid.{row_of, value_of}
use ai_model_scheduler.Bench.Clock.{deadline, Clock}
use ai_model_scheduler.Bench.Winner.{IsStrict, Marks, IsBest, row_of-Marks}
use ai_model_scheduler.Samples.Benchmarks.{focus, start, floats, host, result, cluster}
use ai_model_scheduler.Bench.Polling.{wait_healthy}
use ai_model_scheduler.Bench.Run.{config_complete, ConfigResult}
use ai_model_scheduler.Bench.Best.{is_compared, row_of-count_best, count_best}
use ai_model_scheduler.Nomadapi.Deployment.{no_deployment}
use ai_model_scheduler.Bench.Deadlines.{wait_healthy-IsSome, watch_eval-IsSome}

abbrev clock : Clock cluster host
clock = record {
  time = λ w. w;
  tells = λ w. omega arith;
  now = λ w. omega arith;
  wait = λ w. omega arith;
  passes = λ w h. omega arith;
  list_managed = λ w. omega arith;
  batch_status = λ id w. omega arith;
  failure_reason = λ alloc w. omega arith;
  read_logs = λ alloc whole w. omega arith;
  gpu_stats = λ w. omega arith;
  save_run = λ run w. omega arith;
}

two_left : deadline 0 (pos 1) + 2 ≤ 4 + 0
unfolding deadline ◌+ℤ◌
two_left = omega arith

wait_healthy-IsSome_example :
    IsSome (wait_healthy cluster host 4 "qwen" 0 (pos 1) no_deployment 0 start).0
wait_healthy-IsSome_example =
    wait_healthy-IsSome cluster host clock 4 "qwen" 0 (pos 1) no_deployment 0 start (omega arith)
      two_left

abbrev startup : MetricRow ℕ
startup = record { name = "Startup (s)"; get = none; decimals = 0; better = lower }

abbrev measured : ℕ → ConfigResult ℕ
measured seconds = record result { status = config_complete; startup_sec = seconds }

row_of-count_best_example :
    All
      (λ r. count_best r.cells ≡ (
        if is_compared lower (map (value_of floats startup) (measured 9 ∷ measured 4 ∷ []))
        then 1
        else 0))
      (row_of floats startup (measured 9 ∷ measured 4 ∷ []))
row_of-count_best_example = row_of-count_best floats startup (measured 9 ∷ measured 4 ∷ [])

ltb-IsStrict : IsStrict ltb
ltb-IsStrict = record { irrefl = λ x. ground arith; trans = λ x y z h k. ground (arith, h, k) }

row_of-Marks_example :
    All
      (λ r.
        Marks
          (IsBest floats lower (map (value_of floats startup) (measured 9 ∷ measured 4 ∷ [])))
          r.cells
          (map (value_of floats startup) (measured 9 ∷ measured 4 ∷ [])))
      (row_of floats startup (measured 9 ∷ measured 4 ∷ []))
row_of-Marks_example = row_of-Marks floats ltb-IsStrict startup (measured 9 ∷ measured 4 ∷ [])

watch_eval-IsSome_example :
    IsSome
      (watch_eval floats cluster host
        (λ r. save cluster host (whole focus r) >>= λ _. pure tt)
        4
        "bench-eval-ab12-0"
        0
        (pos 1)
        0
        (no_usage floats)
        result
        start).0.0
watch_eval-IsSome_example =
    watch_eval-IsSome cluster host clock floats focus 4 "bench-eval-ab12-0" 0 (pos 1) 0
      (no_usage floats) result start (omega arith) two_left
