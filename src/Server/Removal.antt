-- ===== src/Server/Removal.antt =====
-- The handler uiRemoveConfig of internal/server/api_bench.go keeps a suite valid.
use ai_model_scheduler.Base.{
  arith, pos, negsuc, ok, ◌≡◌, ℤ, ◌≢◌, Option, length, ℕ, String, List, refl, [], ◌∷◌, none, some,
  zero, suc,
}
use ai_model_scheduler.Server.Forms.{check_index, without_config, remove_index}
use ai_model_scheduler.Bench.Config.{validate_suite, Config, Suite}
use ai_model_scheduler.Bench.Suites.{validate_suite_iff, AreRunnable, IsNew}

AreRunnable-weaken :
    (seen seen' : List String) (cs : List Config)
    → ((l : String) → IsNew l seen → IsNew l seen')
    → AreRunnable seen cs
    → AreRunnable seen' cs
AreRunnable-weaken seen seen' [] f h = tt
AreRunnable-weaken seen seen' (c ∷ cs) f (runs, new, rest) =
    let later =
      AreRunnable-weaken (c.label ∷ seen) (c.label ∷ seen') cs (λ l (other, old). (other, f l old))
        rest in
    (runs, f c.label new, later)

remove_index-AreRunnable :
    (i : ℕ) (seen : List String) (cs : List Config)
    → AreRunnable seen cs
    → AreRunnable seen (remove_index i cs)
unfolding remove_index
remove_index-AreRunnable zero seen [] h = tt
remove_index-AreRunnable (suc i) seen [] h = tt
remove_index-AreRunnable zero seen (c ∷ cs) (runs, new, rest) =
    AreRunnable-weaken (c.label ∷ seen) seen cs (λ l (other, old). old) rest
remove_index-AreRunnable (suc i) seen (c ∷ cs) (runs, new, rest) =
    (runs, new, remove_index-AreRunnable i (c.label ∷ seen) cs rest)

remove_index_nonempty :
    (i : ℕ) (cs : List Config) → length cs ≢ 1 → cs ≢ [] → remove_index i cs ≢ []
unfolding remove_index
remove_index_nonempty i [] one full h = full refl
remove_index_nonempty zero (c ∷ []) one full h = one refl
remove_index_nonempty zero (c ∷ d ∷ cs) one full h = cc
remove_index_nonempty (suc i) (c ∷ cs) one full h = cc

-- A valid suite stays valid when the handler removes a configuration that its checks let pass, so that
-- saving it is never refused.
pub validate_suite-without_config :
    (suite : Suite) (idx : Option ℤ) (i : ℕ)
    → validate_suite suite ≡ none
    → check_index idx suite.configs ≡ ok i
    → validate_suite (without_config i suite) ≡ none
unfolding without_config check_index
validate_suite-without_config suite none i valid h = cc
validate_suite-without_config suite (some (negsuc n)) i valid h = cc
validate_suite-without_config suite (some (pos n)) i valid h =
    let (named, full, runs) = (validate_suite_iff suite).0 valid in
    let several : length suite.configs ≢ 1 = ground (arith, h) in
    (validate_suite_iff (without_config i suite)).1 (
      named,
      remove_index_nonempty i suite.configs several full,
      remove_index-AreRunnable i [] suite.configs runs,
    )
