-- ===== src/Bench/Winner.antt =====
-- The comparison table: the cell that is marked as the best holds a best value of its row.
use ai_model_scheduler.Base.{
  eqb, map, ◌<◌, ◌⊎◌, inr, inl, Bool-cases, arith, All, List, ℕ, Option, ◌≡◌, Bool, refl, [], ◌∷◌,
  none, some, suc, true, false,
}
use ai_model_scheduler.Bench.Run.{ConfigResult, Floats}
use ai_model_scheduler.Bench.Table.{MetricRow, Cell, neither, lower, higher, Better}
use ai_model_scheduler.Bench.Grid.{
  highlight, picked_row, value_of, cell, row_of, cells, pick, beats,
}
use ai_model_scheduler.Bench.Best.{pick-Holds, Holds-cases, Holds}

-- The comparison of floating-point numbers, NaN included: no value is less than itself, and it is
-- transitive.
pub record IsStrict {F : Type 0} (lt : F → F → Bool) : Type 0 where
  pub irrefl : (x : F) → lt x x ≡ false
  pub trans : (x y z : F) → lt x y ≡ true → lt y z ≡ true → lt x z ≡ true

-- A cell that is marked has a value, and one with `P`.
unfoldable pub Marks : {F : Type 0} → (F → Type 0) → List Cell → List (Option F) → Type 0
Marks P [] [] = Unit {0}
Marks P [] (v ∷ values) = ⊥
Marks P (c ∷ cs) [] = ⊥
Marks P (c ∷ cs) (none ∷ values) = (c.best ≡ false) × Marks P cs values
Marks P (c ∷ cs) (some v ∷ values) = (c.best ≡ true → P v) × Marks P cs values

module _ {F : Type 0} (floats : Floats F) where
  -- No value is greater than `w` where the higher ones are better, and none is less than `w` where the
  -- lower ones are.
  unfoldable pub Loses : Better → F → Option F → Type 0
  Loses _ w none = Unit {0}
  Loses higher w (some v) = floats.lt w v ≡ false
  Loses lower w (some v) = floats.lt v w ≡ false
  Loses neither w (some v) = Unit {0}

  -- No value of the list is better than `w`.
  unfoldable pub IsBest : Better → List (Option F) → F → Type 0
  IsBest better values w = All (Loses better w) values

module _ {F : Type 0} (floats : Floats F) (strict : IsStrict floats.lt) (better : Better) where
  beats_irrefl : (b : Better) (x : F) → beats floats b x x ≡ false
  unfolding beats
  beats_irrefl higher x = strict.irrefl x
  beats_irrefl lower x = strict.irrefl x
  beats_irrefl neither x = refl

  beats_trans :
      (b : Better) (x y z : F)
      → beats floats b x y ≡ true
      → beats floats b y z ≡ true
      → beats floats b x z ≡ true
  unfolding beats
  beats_trans higher x y z h k = strict.trans z y x k h
  beats_trans lower x y z h k = strict.trans x y z h k
  beats_trans neither x y z h k = cc

  beats-Loses : (b : Better) (u w : F) → beats floats b u w ≡ false → Loses floats b w (some u)
  unfolding beats Loses
  beats-Loses higher u w h = h
  beats-Loses lower u w h = h
  beats-Loses neither u w h = tt

  Loses-none : (b : Better) (w : F) → Loses floats b w none
  unfolding Loses
  Loses-none higher w = tt
  Loses-none lower w = tt
  Loses-none neither w = tt

  -- The value that is picked is `w`, or it beats `w`.
  AtLeast : F → F → Type 0
  AtLeast w v = (v ≡ w) ⊎ (beats floats better v w ≡ true)

  AtLeast-beats : (w v : F) → AtLeast w v → beats floats better w v ≡ false
  unfolding AtLeast
  AtLeast-beats w v (inl same) = rw same (beats_irrefl better w)
  AtLeast-beats w v (inr more) = elim (Bool-cases (beats floats better w v)) [
    | inl e ↦
        let loop = beats_trans better v w v more e in let never = beats_irrefl better v in absurd cc
    | inr e ↦ e
  ]

  -- What does not beat `w` does not beat the value picked.
  AtLeast-kept :
      (u w v : F) → beats floats better u w ≡ false → AtLeast w v → beats floats better u v ≡ false
  unfolding AtLeast
  AtLeast-kept u w v h (inl same) = rw same h
  AtLeast-kept u w v h (inr more) = elim (Bool-cases (beats floats better u v)) [
    | inl e ↦ let over = beats_trans better u v w e more in absurd cc
    | inr e ↦ e
  ]

  AtLeast-more : (u w v : F) → beats floats better u w ≡ true → AtLeast u v → AtLeast w v
  unfolding AtLeast
  AtLeast-more u w v h (inl same) = inr (rw same h)
  AtLeast-more u w v h (inr more) = inr (beats_trans better v u w more h)

  pick-some :
      (i j k : ℕ) (w v : F) (values : List (Option F))
      → pick floats better i (some (k, w)) values ≡ some (j, v)
      → AtLeast w v × All (Loses floats better v) values
  unfolding pick AtLeast
  pick-some i j k w v [] h = (inl cc, tt)
  pick-some i j k w v (none ∷ values) h =
      let (least, rest) = pick-some (suc i) j k w v values h in (least, (Loses-none better v, rest))
  pick-some i j k w v (some u ∷ values) h = elim (Bool-cases (beats floats better u w)) [
    | inl e ↦
        let (least, rest) = pick-some (suc i) j i u v values (rw (e, pick) at h) in
        (AtLeast-more u w v e least, (beats-Loses better u v (AtLeast-beats u v least), rest))
    | inr e ↦
        let (least, rest) = pick-some (suc i) j k w v values (rw (e, pick) at h) in
        (least, (beats-Loses better u v (AtLeast-kept u w v e least), rest))
  ]

  pick-IsBest :
      (i j : ℕ) (v : F) (values : List (Option F))
      → pick floats better i none values ≡ some (j, v)
      → IsBest floats better values v
  unfolding pick IsBest
  pick-IsBest i j v [] h = tt
  pick-IsBest i j v (none ∷ values) h = (Loses-none better v, pick-IsBest (suc i) j v values h)
  pick-IsBest i j v (some w ∷ values) h =
      let (least, rest) = pick-some (suc i) j i w v values h in
      (beats-Loses better w v (AtLeast-beats w v least), rest)

module _ {F : Type 0} (floats : Floats F) (P : F → Type 0) (decimals : ℕ) (lit : Bool) where
  cells_missed-Marks :
      (j i : ℕ) (values : List (Option F))
      → j < i
      → Marks P (cells floats decimals lit j i values) values
  unfolding cells cell Marks
  cells_missed-Marks j i [] h = tt
  cells_missed-Marks j i (none ∷ values) h =
      (refl, cells_missed-Marks j (suc i) values (omega arith))
  cells_missed-Marks j i (some v ∷ values) h =
      let other : eqb i j ≡ false = ground (arith, h) in
      (
        λ marked. let off : ⊥ = ground (arith, other, marked) in absurd off,
        cells_missed-Marks j (suc i) values (omega arith),
      )

  cells-Marks :
      (i j : ℕ) (v : F) (values : List (Option F))
      → P v
      → Holds floats i values j v
      → Marks P (cells floats decimals lit j i values) values
  unfolding cells cell Marks
  cells-Marks i j v [] good holds = tt
  cells-Marks i j v (w ∷ values) good holds = elim (Holds-cases floats i j v w values holds) [
    | inl (same, is_v) ↦ rw is_v (λ _. good, cells_missed-Marks j (suc i) values (omega arith))
    | inr (other, later) ↦ passed w (cells-Marks (suc i) j v values good later) other
  ]
    where
      passed :
          (w : Option F)
          → Marks P (cells floats decimals lit j (suc i) values) values
          → eqb i j ≡ false
          → Marks P (cells floats decimals lit j i (w ∷ values)) (w ∷ values)
      passed none k other = (refl, k)
      passed (some u) k other =
          (λ marked. let off : ⊥ = ground (arith, other, marked) in absurd off, k)

-- A row has a cell for each result, and a cell of it is marked as the best only where the result has a
-- value, and one that no value of the row exceeds if the metric's higher values are better, and that
-- exceeds no value of the row if its lower values are. The comparison of the values is transitive and
-- less of none with itself, as that of floating-point numbers with NaN is.
pub row_of-Marks :
    {F : Type 0} (floats : Floats F) (strict : IsStrict floats.lt) (mr : MetricRow F)
    (results : List (ConfigResult F))
    → All
        (λ r.
          Marks
            (IsBest floats mr.better (map (value_of floats mr) results))
            r.cells
            (map (value_of floats mr) results))
        (row_of floats mr results)
unfolding row_of
row_of-Marks {F = F} floats strict mr results = go (pick floats mr.better 0 none values) refl
  where
    values : List (Option F)
    values = map (value_of floats mr) results

    go :
        (p : Option (ℕ × F))
        → pick floats mr.better 0 none values ≡ p
        → All
            (λ r. Marks (IsBest floats mr.better values) r.cells values)
            (picked_row floats mr values p)
    go none e = tt
    go (some (j, v)) e = elim (pick-Holds floats mr.better 0 none values j v e) [
      | inl never ↦ absurd cc
      | inr holds ↦ (
        cells-Marks floats _ mr.decimals (highlight floats mr.better values) 0 j v values
            (pick-IsBest floats strict mr.better 0 j v values e) holds,
        tt,
      )
    ]
