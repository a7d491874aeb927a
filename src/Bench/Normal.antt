-- ===== src/Bench/Normal.antt =====
-- What `EvalSpec.Normalize` delivers, and that it changes nothing that is already so.
use ai_model_scheduler.Base.{
  String, ℕ, suc, ℤ, pos, ◌≤ℤ◌, ltb_ℤ, true, false, ◌≡◌, ◌≢◌, ◌↔◌, ◌⊎◌, inl, inr, refl, ap, List,
  [], ◌∷◌, none, All, ok, if◌then◌else◌, eq_iff, arith,
}
use ai_model_scheduler.Bench.Eval.{
  EvalSpec, normalize, filled, fill, fill_kind, fill_levels, check_accuracy, check_dataset,
  check_tasks, check_names, check_levels, is_level, uses_dataset, is_unsafe_path, task_name_re,
}

abbrev pub IsLevel : ℤ → Type 0
IsLevel n = (pos 1 ≤ℤ n) × (n ≤ℤ pos 64)

-- A spec that names a dataset: a file on the share is given by a safe relative path.
abbrev pub HasDataset : EvalSpec → Type 0
HasDataset e =
    ((e.dataset_id ≢ "") ⊎ (e.dataset_path ≢ ""))
    × ((e.dataset_path ≡ "") ⊎ (is_unsafe_path e.dataset_path ≡ false))

abbrev pub HasTasks : EvalSpec → Type 0
HasTasks e = (e.tasks ≢ []) × All (λ t. task_name_re t ≡ true) e.tasks

abbrev pub HasKind : EvalSpec → Type 0
HasKind e =
    (e.accuracy ≡ "none")
    ⊎ ((uses_dataset e ≡ true) × HasDataset e)
    ⊎ ((e.accuracy ≡ "lmeval") × HasTasks e)

-- A spec that the runner and the eval job can work with.
pub record IsNormal (e : EvalSpec) : Type 0 where
  pub kind :
      (e.accuracy ≡ "none")
      ⊎ ((uses_dataset e ≡ true) × HasDataset e)
      ⊎ ((e.accuracy ≡ "lmeval") × HasTasks e)
  pub some_level : e.concurrency ≢ []
  pub levels : All IsLevel e.concurrency
  pub prompts : pos 1 ≤ℤ e.prompts
  pub max_tokens : pos 1 ≤ℤ e.max_tokens
  pub ready_timeout : pos 1 ≤ℤ e.ready_timeout_sec
  pub limit : pos 0 ≤ℤ e.limit

check_levels_iff : (ns : List ℤ) → (check_levels ns ≡ none) ↔ All IsLevel ns
unfolding check_levels is_level
check_levels_iff [] = (λ _. tt, λ _. refl)
check_levels_iff (n ∷ ns) = let (to, from) = check_levels_iff ns in ground (arith, to, from)

check_names_iff : (ts : List String) → (check_names ts ≡ none) ↔ All (λ t. task_name_re t ≡ true) ts
unfolding check_names
check_names_iff [] = (λ _. tt, λ _. refl)
check_names_iff (t ∷ ts) = ground (arith, check_names_iff ts)

check_tasks_iff :
    (ts : List String) → (check_tasks ts ≡ none) ↔ ((ts ≢ []) × All (λ t. task_name_re t ≡ true) ts)
unfolding check_tasks
check_tasks_iff [] = (λ h. cc, λ h. absurd (h.0 refl))
check_tasks_iff (t ∷ ts) =
    let (to, from) = check_names_iff (t ∷ ts) in (λ h. (λ e. cc, to h), λ h. from h.1)

check_dataset_iff : (e : EvalSpec) → (check_dataset e ≡ none) ↔ HasDataset e
unfolding check_dataset
check_dataset_iff e = ground (arith, eq_iff e.dataset_id "", eq_iff e.dataset_path "")

check_accuracy_kind : (e : EvalSpec) → check_accuracy e ≡ none → HasKind e
unfolding check_accuracy
check_accuracy_kind e h = ground (
  arith,
  check_tasks_iff e.tasks,
  check_dataset_iff e,
  eq_iff e.accuracy "none",
  eq_iff e.accuracy "lmeval",
)

lmeval_no_dataset : (e : EvalSpec) → e.accuracy ≡ "lmeval" → uses_dataset e ≡ false
unfolding uses_dataset
lmeval_no_dataset e k = rw k

kind_check_accuracy : (e : EvalSpec) → HasKind e → check_accuracy e ≡ none
unfolding check_accuracy
kind_check_accuracy e (inl k) = ground (arith, eq_iff e.accuracy "none")
kind_check_accuracy e (inr (inl (u, d))) = ground (arith, check_dataset_iff e)
kind_check_accuracy e (inr (inr (k, t))) =
    ground (arith, check_tasks_iff e.tasks, eq_iff e.accuracy "lmeval", lmeval_no_dataset e k)

fill_levels_lem : (ns : List ℤ) → (fill_levels ns ≢ []) × (ns ≢ [] → fill_levels ns ≡ ns)
unfolding fill_levels
fill_levels_lem [] = (λ e. cc, λ h. absurd (h refl))
fill_levels_lem (n ∷ ns) = (λ e. cc, λ h. refl)

normalize_parts :
    (e e' : EvalSpec)
    → normalize e ≡ ok e'
    → (check_accuracy (record e { accuracy = fill_kind e.accuracy }) ≡ none)
      × (check_levels (fill_levels e.concurrency) ≡ none)
      × (e' ≡ filled e)
unfolding normalize
normalize_parts e e' h = ground arith

fill_pos : (d : ℕ) (n : ℤ) → pos 1 ≤ℤ fill (pos (suc d)) n
unfolding fill
fill_pos d n = ground arith

fill_same : (d n : ℤ) → pos 1 ≤ℤ n → fill d n ≡ n
unfolding fill
fill_same d n h = ground arith

dataset_kinds :
    (e : EvalSpec) → uses_dataset e ≡ true → (e.accuracy ≡ "jsonl") ⊎ (e.accuracy ≡ "tokens")
unfolding uses_dataset
dataset_kinds e u = ground (arith, eq_iff e.accuracy "jsonl", eq_iff e.accuracy "tokens")

fill_kind_same : (e : EvalSpec) → HasKind e → fill_kind e.accuracy ≡ e.accuracy
unfolding fill_kind
fill_kind_same e (inl k) = rw k
fill_kind_same e (inr (inl (u, d))) = elim (dataset_kinds e u) [ inl k ↦ rw k | inr k ↦ rw k ]
fill_kind_same e (inr (inr (k, t))) = rw k

limit_same : (n : ℤ) → pos 0 ≤ℤ n → (if ltb_ℤ n (pos 0) then pos 0 else n) ≡ n
limit_same n h = ground arith

filled_same : (e : EvalSpec) → IsNormal e → filled e ≡ e
unfolding filled
filled_same e n = λ i. record {
  accuracy = fill_kind_same e n.kind i;
  dataset_id = e.dataset_id;
  dataset_path = e.dataset_path;
  tasks = e.tasks;
  limit = limit_same e.limit n.limit i;
  concurrency = (fill_levels_lem e.concurrency).1 n.some_level i;
  prompts = fill_same (pos 8) e.prompts n.prompts i;
  max_tokens = fill_same (pos 256) e.max_tokens n.max_tokens i;
  ready_timeout_sec = fill_same (pos 900) e.ready_timeout_sec n.ready_timeout i;
}

-- A success of `Normalize` is a normal spec.
pub normalize-IsNormal : (e e' : EvalSpec) → normalize e ≡ ok e' → IsNormal e'
unfolding filled uses_dataset
normalize-IsNormal e e' h =
    let (kind, levels, made) = normalize_parts e e' h in
    rw made (record {
      kind = check_accuracy_kind (record e { accuracy = fill_kind e.accuracy }) kind;
      some_level = (fill_levels_lem e.concurrency).0;
      levels = (check_levels_iff _).0 levels;
      prompts = fill_pos 7 e.prompts;
      max_tokens = fill_pos 255 e.max_tokens;
      ready_timeout = fill_pos 899 e.ready_timeout_sec;
      limit = ground arith;
    })

-- `Normalize` accepts every normal spec and leaves it as it is, so it is idempotent.
pub normalize_of_IsNormal : (e : EvalSpec) → IsNormal e → normalize e ≡ ok e
unfolding normalize
normalize_of_IsNormal e n =
    rw (normalize, fill_kind_same e n.kind, kind_check_accuracy e n.kind)
      (rw
        (
          (fill_levels_lem e.concurrency).1 n.some_level,
          (check_levels_iff e.concurrency).1 n.levels,
        )
        (ap ok (filled_same e n)))
