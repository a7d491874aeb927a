-- ===== src/Bench/Grid.antt =====
-- internal/bench/results.go: the loop of `BuildTable` over its rows, and `CSV`.
use ai_model_scheduler.Base.{
  ltb, eqb, ◌&&◌, suc, ◌++◌, [], none, ◌==◌, false, not, true, some, Bool, ◌∷◌, if◌then◌else◌,
  Option, map, List, ℕ, String,
}
use ai_model_scheduler.Bench.Table.{
  lower, neither, metric_rows, higher, column, Row, Better, MetricRow, Cell, Table,
}
use ai_model_scheduler.Bench.Run.{ConfigResult, Run, Floats}

module _ {F : Type 0} (floats : Floats F) where
  -- values[i] where present[i] holds
  unfoldable pub value_of : MetricRow F → ConfigResult F → Option F
  value_of mr r = elim mr.get [
    | none ↦ if floats.lt floats.zero r.startup_sec then some r.startup_sec else none
    | some get ↦ elim r.metrics [ none ↦ none | some m ↦ get m ]
  ]

  unfoldable pub beats : Better → F → F → Bool
  beats higher v w = floats.lt w v
  beats lower v w = floats.lt v w
  beats neither v w = false

  -- The loop that picks bestIdx, with the index of the next value and the best one so far.
  unfoldable pub pick : Better → ℕ → Option (ℕ × F) → List (Option F) → Option (ℕ × F)
  unfolding beats
  pick better i best [] = best
  pick better i best (none ∷ values) = pick better (suc i) best values
  pick better i none (some v ∷ values) = pick better (suc i) (some (i, v)) values
  pick better i (some (j, w)) (some v ∷ values) =
      pick better (suc i) (if beats better v w then some (i, v) else some (j, w)) values

  -- countTrue(present)
  unfoldable pub count_present : List (Option F) → ℕ
  count_present [] = 0
  count_present (none ∷ values) = count_present values
  count_present (some _ ∷ values) = suc (count_present values)

  is_neither : Better → Bool
  is_neither neither = true
  is_neither _ = false

  unfoldable pub highlight : Better → List (Option F) → Bool
  unfolding is_neither
  highlight better values = not (is_neither better) && ltb 1 (count_present values)

  unfoldable pub cell : ℕ → Bool → ℕ → ℕ → Option F → Cell
  cell decimals lit best i none = record { text = "—"; best = false }
  cell decimals lit best i (some v) = record {
    text = floats.show decimals v;
    best = lit && eqb i best;
  }

  unfoldable pub cells : ℕ → Bool → ℕ → ℕ → List (Option F) → List Cell
  unfolding cell
  cells decimals lit best i [] = []
  cells decimals lit best i (v ∷ values) =
      cell decimals lit best i v ∷ cells decimals lit best (suc i) values

  unfoldable pub picked_row : MetricRow F → List (Option F) → Option (ℕ × F) → List Row
  picked_row mr values none = []
  picked_row mr values (some (best, _)) =
      record {
        name = mr.name;
        cells = cells mr.decimals (highlight mr.better values) best 0 values;
      }
      ∷ []

  -- No row where no configuration reports a value.
  unfoldable pub row_of : MetricRow F → List (ConfigResult F) → List Row
  unfolding picked_row
  row_of mr results =
      let values = map (value_of mr) results in picked_row mr values (pick mr.better 0 none values)

  unfoldable pub rows_of : List (MetricRow F) → List (ConfigResult F) → List Row
  rows_of [] results = []
  rows_of (mr ∷ mrs) results = row_of mr results ++ rows_of mrs results

  unfoldable pub build_table : Run F → Table
  build_table run = record {
    columns = map column run.results;
    rows = rows_of (metric_rows floats run.results) run.results;
  }

  unfoldable pub csv_text : Cell → String
  csv_text c = if c.text == "—" then "" else c.text

  unfoldable pub row_records : List Row → List (List String)
  unfolding csv_text
  row_records [] = []
  row_records (r ∷ rs) = (r.name ∷ map csv_text r.cells) ∷ row_records rs

  -- What CSV hands to csv.Writer, record by record.
  unfoldable pub csv_records : Run F → List (List String)
  unfolding row_records
  csv_records run =
      let t = build_table run in
      ("metric" ∷ map (λ c. c.label) t.columns)
      ∷ ("status" ∷ map (λ c. c.status) t.columns)
      ∷ row_records t.rows
