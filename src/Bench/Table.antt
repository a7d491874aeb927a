-- ===== src/Bench/Table.antt =====
-- internal/bench/results.go: `BuildTable` and the records of `CSV`.
use ai_model_scheduler.Base.{
  ◌^◌, show_int, lookup, pos, eqb_ℤ, eqb, map, if◌then◌else◌, text_leb, ltb_ℤ, sprint, ◌++◌, some,
  ◌∷◌, not, ℕ, [], none, Bool, Option, ℤ, List, String,
}
use ai_model_scheduler.Bench.Run.{
  config_skipped, config_failed, config_complete, config_evaluating, config_deploying,
  config_pending, ConcResult, TokenSpeed, ConfigResult, Floats, Metrics, SingleStream, ConfigStatus,
}

pub record Cell : Type 0 where
  pub text : String
  pub best : Bool

pub record Row : Type 0 where
  pub name : String
  pub cells : List Cell

pub record Column : Type 0 where
  pub label : String
  pub status : String
  pub error : String

pub record Table : Type 0 where
  pub columns : List Column
  pub rows : List Row

-- `best` of metricRow: +1, -1 and 0
pub data Better : Type 0 where
  higher lower neither : Better

-- metricRow; `none` as `get` stands for the startup row, and `decimals` for the format.
pub record MetricRow (F : Type 0) : Type 0 where
  pub name : String
  pub get : Option (Metrics F → Option F)
  pub decimals : ℕ
  pub better : Better

unfoldable pub status_text : ConfigStatus → String
status_text config_pending = "pending"
status_text config_deploying = "deploying"
status_text config_evaluating = "evaluating"
status_text config_complete = "complete"
status_text config_failed = "failed"
status_text config_skipped = "skipped"

unfoldable pub column : {F : Type 0} → ConfigResult F → Column
column r = record { label = r.label; status = status_text r.status; error = r.error }

-- The keys of a map, in order: a new one goes to its place, one that is there stays alone.
unfoldable pub add_key {ℓ} : {A : Type ℓ} → (A → A → Bool) → A → List A → List A
add_key lt a [] = a ∷ []
add_key lt a (b ∷ bs) =
    let later = add_key lt a bs in
    if lt a b then a ∷ b ∷ bs else if lt b a then b ∷ later else b ∷ bs

unfoldable pub add_keys {ℓ} : {A : Type ℓ} → (A → A → Bool) → List A → List A → List A
unfolding add_key
add_keys lt [] keys = keys
add_keys lt (a ∷ rest) keys = add_keys lt rest (add_key lt a keys)

abbrev pub text_lt : String → String → Bool
text_lt s t = not (text_leb t s)

module _ {F : Type 0} where
  result_levels : Option (Metrics F) → List ℤ
  result_levels none = []
  result_levels (some m) = map (λ c. c.n) m.concurrency

  result_tasks : Option (Metrics F) → List String
  result_tasks none = []
  result_tasks (some m) = elim m.accuracy [ none ↦ [] | some a ↦ map (λ t. t.0) a.tasks ]

  -- The concurrency levels of all results, ascending.
  unfoldable pub levels : List (ConfigResult F) → List ℤ → List ℤ
  unfolding result_levels
  levels [] ns = ns
  levels (r ∷ rs) ns = levels rs (add_keys ltb_ℤ (result_levels r.metrics) ns)

  -- The names of the lm-eval tasks of all results, ascending.
  unfoldable pub task_names : List (ConfigResult F) → List String → List String
  unfolding result_tasks
  task_names [] names = names
  task_names (r ∷ rs) names = task_names rs (add_keys text_lt (result_tasks r.metrics) names)

  unfoldable pub find_level : ℤ → List (ConcResult F) → Option (ConcResult F)
  find_level n [] = none
  find_level n (c ∷ cs) = let later = find_level n cs in if eqb_ℤ c.n n then some c else later

  of_single : (SingleStream F → F) → Metrics F → Option F
  of_single get m = elim m.single [ none ↦ none | some s ↦ some (get s) ]

  of_level : ℤ → (ConcResult F → F) → Metrics F → Option F
  of_level n get m = elim (find_level n m.concurrency) [ none ↦ none | some c ↦ some (get c) ]

  of_tokens : (TokenSpeed F → F) → Metrics F → Option F
  of_tokens get m = elim m.tokens [
    | none ↦ none
    | some t ↦ if eqb_ℤ t.requests (pos 0) then none else some (get t)
  ]

  row : String → (Metrics F → Option F) → ℕ → Better → MetricRow F
  row name get decimals better = record {
    name = name;
    get = some get;
    decimals = decimals;
    better = better;
  }

  level_rows : List ℤ → List (MetricRow F)
  level_rows [] = []
  level_rows (n ∷ ns) =
      row (sprint ("@" ∷ show_int n ∷ " aggregate tok/s" ∷ [])) (of_level n λ c. c.tok_per_sec) 1
        higher
      ∷ row (sprint ("@" ∷ show_int n ∷ " latency p50 (ms)" ∷ []))
          (of_level n λ c. c.latency_p50_ms) 0 lower
      ∷ row (sprint ("@" ∷ show_int n ∷ " latency p95 (ms)" ∷ []))
          (of_level n λ c. c.latency_p95_ms) 0 lower
      ∷ level_rows ns

  module _ (floats : Floats F) where
    of_accuracy : Metrics F → Option F
    of_accuracy m = elim m.accuracy [
      | none ↦ none
      | some a ↦ some (floats.mul a.score (floats.of_int (pos 100)))
    ]

    of_task : String → Metrics F → Option F
    of_task name m = elim m.accuracy [
      | none ↦ none
      | some a ↦ elim (lookup name a.tasks) [
        | none ↦ none
        | some t ↦ some (floats.mul t.value (floats.of_int (pos 100)))
      ]
    ]

    task_rows : List String → List (MetricRow F)
    task_rows [] = []
    task_rows (name ∷ names) =
        row (sprint (name ∷ " (%)" ∷ [])) (of_task name) 1 higher ∷ task_rows names

    of_vram : Metrics F → Option F
    of_vram m = elim m.resources [
      | none ↦ none
      | some r ↦
          if eqb_ℤ r.peak_vram_bytes (pos 0)
          then none
          else some (floats.div (floats.of_int r.peak_vram_bytes) (floats.of_int (pos (2 ^ 30))))
    ]

    of_util : Metrics F → Option F
    of_util m = elim m.resources [
      | none ↦ none
      | some r ↦ if eqb r.samples 0 then none else some r.avg_util
    ]

    -- The rows that BuildTable may show.
    unfoldable pub metric_rows : List (ConfigResult F) → List (MetricRow F)
    unfolding of_single of_tokens row level_rows of_level of_accuracy task_rows of_task of_vram
        of_util
    metric_rows results =
        (record { name = "Startup (s)"; get = none; decimals = 0; better = lower }
          ∷ row "Single-stream tok/s" (of_single λ s. s.tok_per_sec) 1 higher
          ∷ row "TTFT p50 (ms)" (of_single λ s. s.ttft_p50_ms) 0 lower
          ∷ row "TTFT p95 (ms)" (of_single λ s. s.ttft_p95_ms) 0 lower
          ∷ [])
        ++ level_rows (levels results [])
        ++ (row "Dataset prefill tok/s" (of_tokens λ t. t.prefill_tok_per_sec) 1 higher
            ∷ row "Dataset decode tok/s" (of_tokens λ t. t.decode_tok_per_sec) 1 higher
            ∷ row "Dataset TTFT p50 (ms)" (of_tokens λ t. t.ttft_p50_ms) 0 lower
            ∷ row "Dataset TTFT p95 (ms)" (of_tokens λ t. t.ttft_p95_ms) 0 lower
            ∷ row "Dataset prompt tokens" (of_tokens λ t. floats.of_int t.prompt_tokens) 0 neither
            ∷ row "Dataset completion tokens" (of_tokens λ t. floats.of_int t.completion_tokens) 0
                neither
            ∷ row "Accuracy (%)" of_accuracy 1 higher
            ∷ [])
        ++ task_rows (task_names results [])
        ++ (row "Peak VRAM (GB)" of_vram 2 lower ∷ row "Avg GPU util (%)" of_util 0 neither ∷ [])
