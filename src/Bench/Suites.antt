-- ===== src/Bench/Suites.antt =====
-- What `Config.Validate` and `Suite.Validate` accept.
use ai_model_scheduler.Base.{
  String, ℕ, suc, ◌≤◌, false, ◌≡◌, ◌≢◌, ◌↔◌, refl, List, [], ◌∷◌, none, any, All, eq_iff, arith,
  trim_space, len,
}
use ai_model_scheduler.Jobspec.Validity.{IsDeployable, validate_iff}
use ai_model_scheduler.Bench.Config.{
  Config, Suite, params, validate_config, validate_configs, validate_list, validate_suite, is_seen,
}

-- A configuration that every run can hand to the deployment service.
pub record IsRunnable (c : Config) : Type 0 where
  pub labelled : trim_space c.label ≢ ""
  pub short : len c.label ≤ 60
  pub deployable : IsDeployable (params c "bench-validate")

validate_config_iff : (c : Config) → (validate_config c ≡ none) ↔ IsRunnable c
unfolding validate_config
validate_config_iff c =
    ground (arith, eq_iff (trim_space c.label) "", validate_iff (params c "bench-validate"))

-- The label differs from every one of the list.
abbrev pub IsNew : String → List String → Type 0
IsNew l seen = All (λ s. s ≢ l) seen

is_seen_iff : (l : String) (seen : List String) → (is_seen l seen ≡ false) ↔ IsNew l seen
unfolding is_seen any
is_seen_iff l [] = (λ _. tt, λ _. refl)
is_seen_iff l (s ∷ seen) = ground (arith, is_seen_iff l seen, eq_iff s l)

-- Every configuration is runnable, and has a label that none before it has.
abbrev pub AreRunnable : List String → List Config → Type 0
AreRunnable seen [] = Unit
AreRunnable seen (c ∷ cs) = IsRunnable c × IsNew c.label seen × AreRunnable (c.label ∷ seen) cs

validate_configs_iff :
    (i : ℕ) (seen : List String) (cs : List Config)
    → (validate_configs i seen cs ≡ none) ↔ AreRunnable seen cs
unfolding validate_configs
validate_configs_iff i seen [] = (λ _. tt, λ _. refl)
validate_configs_iff i seen (c ∷ cs) = ground (
  arith,
  validate_config_iff c,
  is_seen_iff c.label seen,
  validate_configs_iff (suc i) (c.label ∷ seen) cs,
)

validate_list_iff : (cs : List Config) → (validate_list cs ≡ none) ↔ ((cs ≢ []) × AreRunnable [] cs)
unfolding validate_list
validate_list_iff [] = (λ h. cc, λ h. absurd (h.0 refl))
validate_list_iff (c ∷ cs) =
    let (to, from) = validate_configs_iff 0 [] (c ∷ cs) in (λ h. (λ e. cc, to h), λ h. from h.1)

-- `Suite.Validate` reports no error exactly when the suite has a name and at least one
-- configuration, all are runnable, and no two have the same label.
pub validate_suite_iff :
    (s : Suite)
    → (validate_suite s ≡ none)
      ↔ ((trim_space s.name ≢ "") × (s.configs ≢ []) × AreRunnable [] s.configs)
unfolding validate_suite
validate_suite_iff s = ground (arith, eq_iff (trim_space s.name) "", validate_list_iff s.configs)
