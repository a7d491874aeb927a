-- ===== src/Server/RunForm.antt =====
-- internal/server/api_bench.go: the form of a run. The values of the form and strconv.Atoi (its value,
-- and true where it has no error) are arguments.
use ai_model_scheduler.Base.{
  code, ◌++◌, sprint, ◌||◌, ◌==◌, if◌then◌else◌, trim_space, eqb, Bool, List, pos, ℤ, ℕ, String, [],
  ◌∷◌,
}
use ai_model_scheduler.Bench.Eval.{
  default_ready_timeout, default_max_tokens, default_prompts, default_concurrency, EvalSpec,
}

abbrev pub default_spec : EvalSpec
default_spec = record {
  accuracy = "";
  dataset_id = "";
  dataset_path = "";
  tasks = [];
  limit = pos 100;
  concurrency = default_concurrency;
  prompts = default_prompts;
  max_tokens = default_max_tokens;
  ready_timeout_sec = default_ready_timeout;
}

-- c == ',' || c == ' '
unfoldable pub is_separator : ℕ → Bool
is_separator c = eqb c b',' || eqb c b' '

-- strings.FieldsFunc, with the field that stands so far
unfoldable pub list_items_from : String → String → List String
unfolding is_separator
list_items_from cur String.[] = if cur == "" then [] else cur ∷ []
list_items_from cur (String.◌∷◌ c s) =
    let fresh = list_items_from "" s in
    let longer = list_items_from (sprint (cur ∷ String.◌∷◌ c "" ∷ [])) s in
    if is_separator (code c) then (if cur == "" then fresh else cur ∷ fresh) else longer

unfoldable pub list_items : String → List String
unfolding list_items_from
list_items s = list_items_from "" s

-- The numbers among the fields; others are skipped.
unfoldable pub numbers_of : (String → ℤ × Bool) → List String → List ℤ
numbers_of atoi [] = []
numbers_of atoi (f ∷ fs) =
    let rest = numbers_of atoi fs in if (atoi f).1 then (atoi f).0 ∷ rest else rest

-- The spec of uiStartRun: a path takes precedence over the picker, and the extra tasks follow the
-- ticked ones.
unfoldable pub form_eval : (String → String) → (String → ℤ × Bool) → List String → EvalSpec
unfolding list_items numbers_of
form_eval form_value atoi ticked =
    let path = trim_space (form_value "dataset_path") in
    record {
      accuracy = form_value "accuracy";
      dataset_id = if path == "" then form_value "dataset_id" else "";
      dataset_path = path;
      tasks = ticked ++ list_items (trim_space (form_value "extra_tasks"));
      limit = (atoi (form_value "limit")).0;
      concurrency = numbers_of atoi (list_items (form_value "concurrency"));
      prompts = (atoi (form_value "prompts")).0;
      max_tokens = (atoi (form_value "max_tokens")).0;
      ready_timeout_sec = (atoi (form_value "ready_timeout_sec")).0;
    }
