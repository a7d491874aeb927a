-- ===== src/Jobspec/Arguments.antt =====
-- The server arguments and the environment that the builders choose: the prompt cache's size, the
-- user's flags and the user's variables.
use Prim.Native.String
use ai_model_scheduler.Base.{
  String, Bool, true, false, ◌||◌, ◌≡◌, refl, ap, List, [], ◌∷◌, ◌++◌, Option, none, some, ℤ, pos,
  ◌≤ℤ◌, ◌+ℤ◌, ◌==◌, if◌then◌else◌, Dict, lookup, lookup-insert, eq_iff, arith, Bool-cases, not, inl,
  inr, path_join, show_int,
}
use ai_model_scheduler.Jobspec.Params.{Params}
use ai_model_scheduler.Jobspec.Job.{Env}
use ai_model_scheduler.Jobspec.Common.{mem_limit_mb}
use ai_model_scheduler.Jobspec.Runtimes.{
  llama_cache_ram, llama_cache_headroom_mb, min_ℤ, max_ℤ, has_flag, flag_if, cache_flags,
  llama_args, set_default, ollama_env,
}

-- The memory limit of a task is positive, whatever the parameters say.
pub mem_limit_pos : (p : Params) → pos 1 ≤ℤ mem_limit_mb p
unfolding mem_limit_mb
mem_limit_pos p = ground arith

-- The prompt cache is between 0 and 8192 MiB, and with its headroom it fits the memory limit as
-- soon as the headroom alone does; under a smaller limit it is switched off.
pub llama_cache_ram_fits :
    (mem : ℤ)
    → (pos 0 ≤ℤ llama_cache_ram mem)
      × (llama_cache_ram mem ≤ℤ pos 8192)
      × (pos llama_cache_headroom_mb ≤ℤ mem
          → llama_cache_ram mem +ℤ pos llama_cache_headroom_mb ≤ℤ mem)
      × (mem ≤ℤ pos llama_cache_headroom_mb → llama_cache_ram mem ≡ pos 0)
unfolding llama_cache_ram min_ℤ max_ℤ ◌+ℤ◌
llama_cache_ram_fits mem = (ground arith, ground arith, (λ h. ground arith), (λ h. ground arith))

has_flag-append :
    (xs ys names : List String)
    → has_flag (xs ++ ys) names ≡ (has_flag xs names || has_flag ys names)
unfolding has_flag
has_flag-append [] ys names = refl
has_flag-append (x ∷ xs) ys names = ground (arith, has_flag-append xs ys names)

||-true_right : (a b : Bool) → b ≡ true → (a || b) ≡ true
||-true_right a b h = ground arith

has_flag-append_right :
    (xs ys names : List String) → has_flag ys names ≡ true → has_flag (xs ++ ys) names ≡ true
has_flag-append_right xs ys names h = rw (has_flag-append xs ys names) (||-true_right _ _ h)

-- The end of the argument list, from the choice of the cache flag on.
cache_args-has_flag :
    (extra : List String) (size : String)
    → has_flag
        ((if has_flag extra cache_flags then [] else "--cache-ram" ∷ size ∷ []) ++ extra)
        cache_flags
      ≡ true
cache_args-has_flag extra size = elim (Bool-cases (has_flag extra cache_flags)) [
  | inl given ↦ rw given given
  | inr absent ↦ rw absent (unfold has_flag in refl)
]

flag_if-not :
    (b : Bool) (flag : String) (n : ℤ)
    → flag_if (not b) flag n ≡ (if b then [] else flag ∷ show_int n ∷ [])
unfolding flag_if
flag_if-not true flag n = refl
flag_if-not false flag n = refl

cache_tail-has_flag :
    (extra : List String) (n : ℤ)
    → has_flag (flag_if (not (has_flag extra cache_flags)) "--cache-ram" n ++ extra) cache_flags
      ≡ true
cache_tail-has_flag extra n =
    rw (flag_if-not (has_flag extra cache_flags) "--cache-ram" n)
      (cache_args-has_flag extra (show_int n))

-- llama-server is always told the size of its prompt cache: by the user's own flag, in either
-- spelling, or else by the default that is sized to the task's memory limit.
pub llama_args_set_cache : (p : Params) (env : Env) → has_flag (llama_args p env) cache_flags ≡ true
unfolding llama_args
llama_args_set_cache p env = search (has_flag-append_right, cache_tail-has_flag) depth 8

-- The first of two lookups that finds something.
abbrev pub or_else {ℓ} : {A : Type ℓ} → Option A → Option A → Option A
or_else (some a) o = some a
or_else none o = o

-- A default that stands in the environment beside the user's variables.
lookup-set_default :
    (k j v : String) (env : Dict String)
    → lookup j (set_default k v env) ≡ or_else (lookup j env) (if k == j then some v else none)
unfolding set_default
lookup-set_default k j v env =
    ground (arith, lookup-insert k j v env, eq_iff k j, ap (λ i. lookup i env) {x = k} {y = j})

-- In the environment of an Ollama task each of the user's variables has the user's value; the model
-- store and the listening address are added only where the user has set none.
pub ollama_env_defaults :
    (p : Params) (env : Env) (k : String)
    → lookup k (ollama_env p env)
      ≡ or_else (lookup k p.env) (
          if "OLLAMA_MODELS" == k
          then some (path_join (env.model_mount ∷ "ollama" ∷ []))
          else if "OLLAMA_HOST" == k
          then some (String.◌++◌ "0.0.0.0:" (show_int p.port))
          else none)
unfolding ollama_env
ollama_env_defaults p env k = simp lookup-set_default (ground arith)
