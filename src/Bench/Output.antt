-- ===== src/Bench/Output.antt =====
-- internal/bench/results.go: the eval job's output protocol.
use ai_model_scheduler.Base.{
  String, ◌≡◌, refl, List, [], ◌∷◌, Result, ok, err, if◌then◌else◌, ◌==◌, sprint, has_prefix,
  trim_space, split,
}

abbrev pub progress_prefix : String
progress_prefix = "PROGRESS "

abbrev pub result_prefix : String
result_prefix = "RESULT "

-- strings.TrimPrefix, of a text that has the prefix
unfoldable pub after_prefix : String → String → String
after_prefix s String.[] = s
after_prefix String.[] (String.◌∷◌ d p) = ""
after_prefix (String.◌∷◌ c s) (String.◌∷◌ d p) = after_prefix s p

-- What follows the prefix in the last line that has it, or else `last`.
unfoldable pub last_tagged : String → String → List String → String
last_tagged tag last [] = last
last_tagged tag last (line ∷ lines) =
    let t = trim_space line in
    last_tagged tag (if has_prefix t tag then after_prefix t tag else last) lines

-- LastProgress
unfoldable pub last_progress : String → String
last_progress tail = last_tagged progress_prefix "" (split 10 tail)

-- ParseEvalOutput, over json.Unmarshal
unfoldable pub parse_eval_output :
    {M : Type 0} → (String → Result String M) → String → Result String M
parse_eval_output decode stdout =
    let last = last_tagged result_prefix "" (split 10 stdout) in
    if last == "" then err "eval job produced no RESULT line" else elim (decode last) [
      | ok m ↦ ok m
      | err text ↦ err (sprint ("decoding eval result: " ∷ text ∷ []))
    ]

output_tests :
    (last_progress "x\n PROGRESS a\nPROGRESS b \nRESULT {}" ≡ "b")
    × (parse_eval_output {M = String} ok "log\nRESULT {1}\n" ≡ ok "{1}")
unfolding last_progress parse_eval_output last_tagged after_prefix has_prefix trim_space split
output_tests = (refl, refl)
