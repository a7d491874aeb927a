-- ===== src/Bench/Cells.antt =====
-- The comparison table: its shape, and which cell of a row is marked as the best.
use ai_model_scheduler.Base.{
  [], All-append, ◌∙◌, ap, some, suc, map, ◌∷◌, Bool, none, ◌≡◌, length, All, Option, ℕ, List, refl,
}
use ai_model_scheduler.Bench.Table.{metric_rows, column, Row, MetricRow, Table}
use ai_model_scheduler.Bench.Run.{ConfigResult, Run, Floats}
use ai_model_scheduler.Bench.Grid.{
  cells, value_of, picked_row, csv_records, row_records, build_table, pick, row_of, rows_of,
}

-- The table has a column for each configuration, and each row a cell for each column.
unfoldable pub IsRectangular : Table → Type 0
IsRectangular t = All (λ r. length r.cells ≡ length t.columns) t.rows

length-map : {A B : Type 0} (f : A → B) (xs : List A) → length (map f xs) ≡ length xs
length-map f [] = refl
length-map f (x ∷ xs) = ap suc (length-map f xs)

module _ {F : Type 0} (floats : Floats F) where
  length-cells :
      (decimals : ℕ) (lit : Bool) (best i : ℕ) (values : List (Option F))
      → length (cells floats decimals lit best i values) ≡ length values
  unfolding cells
  length-cells decimals lit best i [] = refl
  length-cells decimals lit best i (v ∷ values) =
      ap suc (length-cells decimals lit best (suc i) values)

  row_of-length :
      (mr : MetricRow F) (results : List (ConfigResult F))
      → All (λ r. length r.cells ≡ length results) (row_of floats mr results)
  unfolding row_of
  row_of-length mr results = go (pick floats mr.better 0 none (map (value_of floats mr) results))
    where
      go :
          (p : Option (ℕ × F))
          → All
              (λ r. length r.cells ≡ length results)
              (picked_row floats mr (map (value_of floats mr) results) p)
      go none = tt
      go (some (best, _)) = (length-cells _ _ best 0 _ ∙ length-map _ results, tt)

  rows_of-length :
      (mrs : List (MetricRow F)) (results : List (ConfigResult F))
      → All (λ r. length r.cells ≡ length results) (rows_of floats mrs results)
  unfolding rows_of
  rows_of-length [] results = tt
  rows_of-length (mr ∷ mrs) results =
      All-append (λ r. length r.cells ≡ length results) (row_of floats mr results)
        (rows_of floats mrs results) (row_of-length mr results) (rows_of-length mrs results)

  row_records-length :
      (n : ℕ) (rows : List Row)
      → All (λ r. length r.cells ≡ n) rows
      → All (λ record_. length record_ ≡ suc n) (row_records floats rows)
  unfolding row_records
  row_records-length n [] h = tt
  row_records-length n (r ∷ rows) (h, hs) =
      (ap suc (length-map _ r.cells ∙ h), row_records-length n rows hs)

  -- Every row of the table has a cell for each configuration, as the header has, and every record of
  -- the CSV export has one field more than there are configurations.
  pub build_table-IsRectangular :
      (run : Run F)
      → IsRectangular (build_table floats run)
        × All (λ fields. length fields ≡ suc (length run.results)) (csv_records floats run)
  unfolding build_table csv_records IsRectangular
  build_table-IsRectangular run =
      let same = length-map column run.results in
      let rows = rows_of-length (metric_rows floats run.results) run.results in
      (
        rw same rows,
        (
          ap suc (length-map _ _ ∙ same),
          (ap suc (length-map _ _ ∙ same), row_records-length (length run.results) _ rows),
        ),
      )
