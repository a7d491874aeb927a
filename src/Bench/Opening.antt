-- ===== src/Bench/Opening.antt =====
-- internal/bench/store.go: NewStore, and the tasks of types.go that the pages offer.
use ai_model_scheduler.Base.{
  path_join, sprint, ◌≡◌, Option, Bool, all_chars, List, String, all, refl, [], ◌∷◌, none, some,
  true,
}
use ai_model_scheduler.Nomadapi.Api.{Act, ◌>>=◌, return}
use ai_model_scheduler.Bench.Eval.{task_name_re}

-- LMEvalTask
pub record LmEvalTask : Type 0 where
  pub name : String
  pub description : String

-- CuratedTasks
abbrev pub curated_tasks : List LmEvalTask
curated_tasks =
    record {
      name = "gsm8k";
      description = "Grade-school math word problems, exact-match on the final number";
    }
    ∷ record { name = "gsm8k_cot"; description = "GSM8K with chain-of-thought prompting" }
    ∷ record { name = "truthfulqa_gen"; description = "Truthfulness of free-form answers" }
    ∷ record { name = "ifeval"; description = "Instruction-following with verifiable constraints" }
    ∷ record {
      name = "mmlu_flan_cot_zeroshot";
      description = "MMLU subjects, zero-shot chain-of-thought (slow: many subtasks)";
    }
    ∷ []

module _ {W : Type 0} (mkdir_all : String → Act W (Option String)) where
  -- The rest of the loop of NewStore, after one directory.
  unfoldable pub made : Option String → Act W (Option String) → Act W (Option String)
  made (some text) rest = return (some (sprint ("creating data dir: " ∷ text ∷ [])))
  made none rest = rest

  unfoldable pub make_dirs : String → List String → Act W (Option String)
  unfolding made
  make_dirs dir [] = return none
  make_dirs dir (sub ∷ subs) =
      let rest = make_dirs dir subs in (do e ← mkdir_all (path_join (dir ∷ sub ∷ [])); made e rest)

  -- NewStore: the error
  unfoldable pub new_store : String → Act W (Option String)
  new_store dir = make_dirs dir ("suites" ∷ "runs" ∷ "datasets" ∷ [])

is_task_name : LmEvalTask → Bool
unfolding task_name_re
is_task_name task = task_name_re task.name

-- A spec with any of the curated tasks passes the check of its task names.
curated_tasks-valid : all is_task_name curated_tasks ≡ true
unfolding all is_task_name task_name_re all_chars
curated_tasks-valid = refl
