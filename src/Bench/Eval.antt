-- ===== src/Bench/Eval.antt =====
-- internal/bench/types.go: EvalSpec and its `Normalize`.
use ai_model_scheduler.Base.{
  String, ℕ, ℤ, pos, ltb_ℤ, leb_ℤ, Bool, false, not, ◌&&◌, ◌||◌, List, [], ◌∷◌, Option, none, some,
  Result, ok, err, if◌then◌else◌, ◌==◌, leb, eqb, has_prefix, contains, all_chars, code,
}
use Prim.Native.String.{count}

pub record EvalSpec : Type 0 where
  pub accuracy : String
  pub dataset_id : String
  pub dataset_path : String
  pub tasks : List String
  pub limit : ℤ
  pub concurrency : List ℤ
  pub prompts : ℤ
  pub max_tokens : ℤ
  pub ready_timeout_sec : ℤ

pub data EvalError : Type 0 where
  needs_dataset bad_path needs_task bad_task unknown_kind : String → EvalError
  level_out_of_range : ℤ → EvalError

abbrev pub default_concurrency : List ℤ
default_concurrency = pos 1 ∷ pos 4 ∷ pos 8 ∷ []

abbrev pub default_prompts : ℤ
default_prompts = pos 8

abbrev pub default_max_tokens : ℤ
default_max_tokens = pos 256

abbrev pub default_ready_timeout : ℤ
default_ready_timeout = pos 900

is_task_start : ℕ → Bool
is_task_start c = (leb b'a' c && leb c b'z') || (leb b'0' c && leb c b'9')

is_task_char : ℕ → Bool
unfolding is_task_start
is_task_char c = is_task_start c || eqb c b'_' || eqb c b'.' || eqb c b'-'

-- taskNameRe, ^[a-z0-9][a-z0-9_.-]{0,63}$
unfoldable pub task_name_re : String → Bool
unfolding is_task_char all_chars
task_name_re String.[] = false
task_name_re (String.◌∷◌ c s) =
    is_task_start (code c) && leb (count s) 63 && all_chars is_task_char s

-- EvalSpec.UsesDataset
unfoldable pub uses_dataset : EvalSpec → Bool
uses_dataset e = e.accuracy == "jsonl" || e.accuracy == "tokens"

unfoldable pub is_unsafe_path : String → Bool
is_unsafe_path p = contains p ".." || has_prefix p "/"

unfoldable pub check_dataset : EvalSpec → Option EvalError
check_dataset e =
    if e.dataset_id == "" && e.dataset_path == ""
    then some (needs_dataset e.accuracy)
    else if not (e.dataset_path == "") && is_unsafe_path e.dataset_path
    then some (bad_path e.dataset_path)
    else none

unfoldable pub check_names : List String → Option EvalError
check_names [] = none
check_names (t ∷ ts) =
    let rest = check_names ts in if task_name_re t then rest else some (bad_task t)

unfoldable pub check_tasks : List String → Option EvalError
check_tasks [] = some (needs_task "lmeval")
check_tasks (t ∷ ts) = check_names (t ∷ ts)

-- The switch on e.Accuracy, where "" already reads as "none".
unfoldable pub check_accuracy : EvalSpec → Option EvalError
check_accuracy e =
    if e.accuracy == "none"
    then none
    else if uses_dataset e
    then check_dataset e
    else if e.accuracy == "lmeval"
    then check_tasks e.tasks
    else some (unknown_kind e.accuracy)

unfoldable pub is_level : ℤ → Bool
is_level n = not (ltb_ℤ n (pos 1) || ltb_ℤ (pos 64) n)

unfoldable pub check_levels : List ℤ → Option EvalError
check_levels [] = none
check_levels (n ∷ ns) =
    let rest = check_levels ns in if is_level n then rest else some (level_out_of_range n)

unfoldable pub fill_levels : List ℤ → List ℤ
fill_levels [] = default_concurrency
fill_levels (n ∷ ns) = n ∷ ns

-- A value left zero, or negative, takes its default.
unfoldable pub fill : ℤ → ℤ → ℤ
fill default n = if leb_ℤ n (pos 0) then default else n

unfoldable pub fill_kind : String → String
fill_kind a = if a == "" then "none" else a

-- The assignments of `Normalize`, made once the checks have passed.
unfoldable pub filled : EvalSpec → EvalSpec
filled e = record e {
  accuracy = fill_kind e.accuracy;
  limit = if ltb_ℤ e.limit (pos 0) then pos 0 else e.limit;
  concurrency = fill_levels e.concurrency;
  prompts = fill default_prompts e.prompts;
  max_tokens = fill default_max_tokens e.max_tokens;
  ready_timeout_sec = fill default_ready_timeout e.ready_timeout_sec;
}

-- EvalSpec.Normalize: the caller drops the receiver beside an error, so only a success carries it.
unfoldable pub normalize : EvalSpec → Result EvalError EvalSpec
normalize e = elim (check_accuracy (record e { accuracy = fill_kind e.accuracy })) [
  | some x ↦ err x
  | none ↦ elim (check_levels (fill_levels e.concurrency)) [ some x ↦ err x | none ↦ ok (filled e) ]
]
