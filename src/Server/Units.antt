-- ===== src/Server/Units.antt =====
-- The numbers that internal/server shows.
use ai_model_scheduler.Base.{
  inr, ltb, ◌/◌, inl, ◌==◌, negsuc, if◌then◌else◌, Bool-cases, pos, length, leb, ◌<ℤ◌, List, ℤ, ◌≡◌,
  IsSome, arith, ◌<◌, ◌+◌, String, ◌*◌, ◌≤◌, ℕ, refl, [], ◌∷◌, zero, suc, false,
}
use ai_model_scheduler.Server.Pages.{
  human_bytes, with_unit, fill_tab, Tab, unit_name, add_row, deployments_tab, find_unit,
}
use ai_model_scheduler.Bench.Run.{Floats}
use ai_model_scheduler.Nomadapi.Deployment.{Deployment}

-- 1024, as often as the loop divides, and once more.
abbrev bound : ℕ → ℕ
bound zero = 1024
bound (suc k) = 1024 * bound k

find_unit_le : (fuel m div exp k : ℕ) → m < bound k → (find_unit fuel m div exp).1 ≤ exp + k
unfolding find_unit
find_unit_le zero m div exp k h = omega arith
find_unit_le (suc fuel) m div exp zero h =
    let last : leb 1024 m ≡ false = ground (arith, h) in rw last (omega arith)
find_unit_le (suc fuel) m div exp (suc k) h = elim (Bool-cases (leb 1024 m)) [
  | inl e ↦
      let later = find_unit_le fuel (m / 1024) (div * 1024) (suc exp) k (omega (arith, h)) in
      rw e (omega (arith, later))
  | inr e ↦ rw e (omega arith)
]

unit_name-IsSome : (exp : ℕ) → exp ≤ 5 → IsSome (unit_name exp)
unfolding unit_name
unit_name-IsSome zero h = (_, refl)
unit_name-IsSome (suc zero) h = (_, refl)
unit_name-IsSome (suc (suc zero)) h = (_, refl)
unit_name-IsSome (suc (suc (suc zero))) h = (_, refl)
unit_name-IsSome (suc (suc (suc (suc zero)))) h = (_, refl)
unit_name-IsSome (suc (suc (suc (suc (suc zero))))) h = (_, refl)
unit_name-IsSome (suc (suc (suc (suc (suc (suc exp)))))) h =
    let beyond : ⊥ = omega (arith, h) in absurd beyond

module _ {F : Type 0} (floats : Floats F) where
  with_unit-IsSome : (n : ℕ) (unit : ℕ × ℕ) → unit.1 ≤ 5 → IsSome (with_unit floats n unit)
  unfolding with_unit
  with_unit-IsSome n (div, exp) h =
      let (name, named) = unit_name-IsSome exp h in rw (with_unit, named) (_, refl)

  -- Every size that an int64 holds has a unit: the loop ends at an index of the list of the units.
  pub human_bytes-IsSome : (n : ℤ) → n <ℤ pos 9223372036854775808 → IsSome (human_bytes floats n)
  unfolding human_bytes
  human_bytes-IsSome (negsuc n) h = (_, refl)
  human_bytes-IsSome (pos n) h = elim (Bool-cases (ltb n 1024)) [
    | inl e ↦ rw e (_, refl)
    | inr e ↦ rw e (
        with_unit-IsSome n (find_unit 64 (n / 1024) 1024 0)
          (find_unit_le 64 (n / 1024) 1024 0 5 (omega (arith, h))))
  ]

-- The counts of a tab.
abbrev pub IsCounted : Tab → ℕ → Type 0
IsCounted tab n =
    (tab.running + tab.stopped ≡ n)
    × (length tab.rows ≡ (if tab.filter == "stopped" then tab.stopped else tab.running))

add_row-IsCounted :
    (d : Deployment) (tab : Tab) (n : ℕ) → IsCounted tab n → IsCounted (add_row d tab) (suc n)
unfolding add_row
add_row-IsCounted d tab n (total, shown) = ground (arith, total, shown)

fill_tab-IsCounted :
    (filter : String) (deps : List Deployment) → IsCounted (fill_tab filter deps) (length deps)
unfolding fill_tab
fill_tab-IsCounted filter [] = ground arith
fill_tab-IsCounted filter (d ∷ deps) =
    add_row-IsCounted d (fill_tab filter deps) (length deps) (fill_tab-IsCounted filter deps)

-- Each deployment is counted as running or stopped, and the tab has as many rows as the count of its
-- filter.
pub deployments_tab-IsCounted :
    (filter : String) (deps : List Deployment)
    → IsCounted (deployments_tab filter deps) (length deps)
unfolding deployments_tab
deployments_tab-IsCounted filter deps = fill_tab-IsCounted _ deps
