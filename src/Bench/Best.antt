-- ===== src/Bench/Best.antt =====
-- The comparison table: which cell of a row is marked as the best.
use ai_model_scheduler.Base.{
  ltb, true, false, map, eqb, inr, inl, All, ◌<◌, Bool-cases, Bool, arith, ◌⊎◌, ◌≡◌, ◌≤◌,
  if◌then◌else◌, ◌-◌, Option, List, ℕ, refl, [], ◌∷◌, none, some, zero, suc,
}
use ai_model_scheduler.Bench.Run.{ConfigResult, Floats}
use ai_model_scheduler.Bench.Grid.{
  count_present, picked_row, value_of, beats, highlight, cell, cells, row_of, pick,
}
use ai_model_scheduler.Bench.Table.{lower, higher, neither, Better, MetricRow, Cell}

unfoldable pub count_best : List Cell → ℕ
count_best [] = 0
count_best (c ∷ cs) = if c.best then suc (count_best cs) else count_best cs

-- A value is present.
unfoldable pub has_one : {A : Type 0} → List (Option A) → Bool
has_one [] = false
has_one (none ∷ vs) = has_one vs
has_one (some _ ∷ vs) = true

-- A value is present before another one.
unfoldable pub has_two : {A : Type 0} → List (Option A) → Bool
has_two [] = false
has_two (none ∷ vs) = has_two vs
has_two (some _ ∷ vs) = has_one vs

-- The values of a metric that has a better direction can be compared.
unfoldable pub is_compared : {A : Type 0} → Better → List (Option A) → Bool
is_compared higher vs = has_two vs
is_compared lower vs = has_two vs
is_compared neither vs = false

-- The value at an index.
unfoldable pub at_index : {A : Type 0} → ℕ → List (Option A) → Option A
at_index i [] = none
at_index zero (v ∷ vs) = v
at_index (suc i) (v ∷ vs) = at_index i vs

module _ {F : Type 0} (floats : Floats F) where
  has_one_lem : (vs : List (Option F)) → ltb 0 (count_present floats vs) ≡ has_one vs
  unfolding count_present has_one
  has_one_lem [] = refl
  has_one_lem (none ∷ vs) = has_one_lem vs
  has_one_lem (some v ∷ vs) = ground arith

  has_two_lem : (vs : List (Option F)) → ltb 1 (count_present floats vs) ≡ has_two vs
  unfolding count_present has_two
  has_two_lem [] = refl
  has_two_lem (none ∷ vs) = has_two_lem vs
  has_two_lem (some v ∷ vs) = ground (arith, has_one_lem vs)

  -- The value at `j`, where the values begin at `i`.
  unfoldable pub Holds : ℕ → List (Option F) → ℕ → F → Type 0
  Holds i values j v = (i ≤ j) × (at_index (j - i) values ≡ some v)

  Holds-step :
      (i j : ℕ) (v : F) (w : Option F) (values : List (Option F))
      → Holds (suc i) values j v
      → Holds i (w ∷ values) j v
  unfolding Holds at_index
  Holds-step i j v w values (le, e) =
      let gap : j - i ≡ suc (j - suc i) = omega arith in (omega arith, rw gap e)

  Holds-here : (i : ℕ) (v : F) (values : List (Option F)) → Holds i (some v ∷ values) i v
  unfolding Holds at_index
  Holds-here i v values =
      let none_gone : i - i ≡ 0 = omega arith in (omega arith, rw none_gone refl)

  Holds-first :
      (i j : ℕ) (w v : F) (values : List (Option F))
      → ◌≡◌ {A = Option (ℕ × F)} (some (i, w)) (some (j, v))
      → Holds i (some w ∷ values) j v
  Holds-first i j w v values e =
      let at_i : i ≡ j = cc in let is_w : w ≡ v = cc in rw (← at_i, ← is_w) (Holds-here i w values)

  -- The index that the loop picks is that of the value beside it.
  pub pick-Holds :
      (better : Better) (i : ℕ) (best : Option (ℕ × F)) (values : List (Option F)) (j : ℕ) (v : F)
      → pick floats better i best values ≡ some (j, v)
      → (best ≡ some (j, v)) ⊎ Holds i values j v
  unfolding pick
  pick-Holds better i best [] j v h = inl h
  pick-Holds better i best (none ∷ values) j v h =
      elim (pick-Holds better (suc i) best values j v h) [
        | inl e ↦ inl e
        | inr k ↦ inr (Holds-step i j v none values k)
      ]
  pick-Holds better i none (some w ∷ values) j v h =
      elim (pick-Holds better (suc i) (some (i, w)) values j v h) [
        | inl e ↦ inr (Holds-first i j w v values e)
        | inr k ↦ inr (Holds-step i j v (some w) values k)
      ]
  pick-Holds better i (some (k, u)) (some w ∷ values) j v h =
      elim (Bool-cases (beats floats better w u)) [
        | inl e ↦ elim (pick-Holds better (suc i) (some (i, w)) values j v (rw (e, pick) at h)) [
          | inl same ↦ inr (Holds-first i j w v values same)
          | inr later ↦ inr (Holds-step i j v (some w) values later)
        ]
        | inr e ↦ elim (pick-Holds better (suc i) (some (k, u)) values j v (rw (e, pick) at h)) [
          | inl same ↦ inl same
          | inr later ↦ inr (Holds-step i j v (some w) values later)
        ]
      ]

  -- It is the first value, or one of those after it.
  pub Holds-cases :
      (i j : ℕ) (v : F) (w : Option F) (values : List (Option F))
      → Holds i (w ∷ values) j v
      → ((i ≡ j) × (w ≡ some v)) ⊎ ((eqb i j ≡ false) × Holds (suc i) values j v)
  unfolding Holds at_index
  Holds-cases i j v w values (le, e) = elim (Bool-cases (eqb i j)) [
    | inl same ↦
        let none_gone : j - i ≡ 0 = ground (arith, same) in
        inl (ground (arith, same), rw none_gone at e)
    | inr other ↦
        let gap : j - i ≡ suc (j - suc i) = ground (arith, other, le) in
        inr (other, (ground (arith, other, le), rw gap at e))
  ]

  cells-missed :
      (decimals : ℕ) (lit : Bool) (j i : ℕ) (values : List (Option F))
      → j < i
      → count_best (cells floats decimals lit j i values) ≡ 0
  unfolding cells cell count_best
  cells-missed decimals lit j i [] h = refl
  cells-missed decimals lit j i (none ∷ values) h =
      cells-missed decimals lit j (suc i) values (omega arith)
  cells-missed decimals lit j i (some v ∷ values) h =
      ground (arith, cells-missed decimals lit j (suc i) values (omega arith), h)

  cells-count_best :
      (decimals : ℕ) (lit : Bool) (i : ℕ) (values : List (Option F)) (j : ℕ) (v : F)
      → Holds i values j v
      → count_best (cells floats decimals lit j i values) ≡ (if lit then 1 else 0)
  unfolding cells cell count_best Holds at_index
  cells-count_best decimals lit i [] j v (le, e) = cc
  cells-count_best decimals lit i (w ∷ values) j v h = elim (Holds-cases i j v w values h) [
    | inl (same, is_v) ↦
        rw (same, is_v) (ground (arith, cells-missed decimals lit j (suc j) values (omega arith)))
    | inr (other, later) ↦ passed w (cells-count_best decimals lit (suc i) values j v later) other
  ]
    where
      passed :
          (w : Option F)
          → count_best (cells floats decimals lit j (suc i) values) ≡ (if lit then 1 else 0)
          → eqb i j ≡ false
          → count_best (cells floats decimals lit j i (w ∷ values)) ≡ (if lit then 1 else 0)
      passed none k other = k
      passed (some u) k other = ground (arith, other, k)

  highlight_lem :
      (better : Better) (values : List (Option F))
      → highlight floats better values ≡ is_compared better values
  unfolding highlight is_compared
  highlight_lem neither values = refl
  highlight_lem higher values = has_two_lem values
  highlight_lem lower values = has_two_lem values

  -- In a row of the table exactly one cell is marked as the best if the metric's better values are the
  -- higher ones or the lower ones and a result with a value stands before another with a value; in
  -- every other row no cell is marked.
  pub row_of-count_best :
      (mr : MetricRow F) (results : List (ConfigResult F))
      → All
          (λ r.
            count_best r.cells
            ≡ (if is_compared mr.better (map (value_of floats mr) results) then 1 else 0))
          (row_of floats mr results)
  unfolding row_of
  row_of-count_best mr results = go (pick floats mr.better 0 none values) refl
    where
      values : List (Option F)
      values = map (value_of floats mr) results

      go :
          (p : Option (ℕ × F))
          → pick floats mr.better 0 none values ≡ p
          → All
              (λ r. count_best r.cells ≡ (if is_compared mr.better values then 1 else 0))
              (picked_row floats mr values p)
      go none e = tt
      go (some (j, v)) e = elim (pick-Holds mr.better 0 none values j v e) [
        | inl never ↦ absurd cc
        | inr holds ↦ (
          rw (← highlight_lem mr.better values)
              (cells-count_best mr.decimals (highlight floats mr.better values) 0 values j v holds),
          tt,
        )
      ]
