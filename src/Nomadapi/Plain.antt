-- ===== src/Nomadapi/Plain.antt =====
-- internal/nomadapi/logs.go leaves the logs of other drivers as they are.
use Prim.Native.Char.{Char}
use text.Mathlib.TextLemmas.{nil-append, cons-append, append-nil}
use Prim.Native.String.{String}
use ai_model_scheduler.Base.{
  inr, inl, code, eqb, Bool-cases, map, ◌≡◌, All, sprint, List, String, refl, [], ◌∷◌, none,
}
use ai_model_scheduler.Nomadapi.Logs.{
  chomp, podman_line, normalize_line, lines, longer, normalize_podman_logs,
}

-- A line that does not have podman's prefix.
abbrev pub IsPlain : String → Type 0
IsPlain line = podman_line (chomp line) ≡ none

sprint-longer :
    (c : Char) (ls : List String) → sprint (longer (String.◌∷◌ c "") ls) ≡ String.◌∷◌ c (sprint ls)
unfolding longer
sprint-longer c [] = append-nil _
sprint-longer c (l ∷ ls) = rw (cons-append, nil-append, cons-append) refl

sprint-lines : (s : String) → sprint (lines s) ≡ s
unfolding lines
sprint-lines String.[] = refl
sprint-lines (String.◌∷◌ c s) = elim (Bool-cases (eqb (code c) 10)) [
  | inl e ↦ rw (e, cons-append, nil-append, sprint-lines s) refl
  | inr e ↦ rw (e, sprint-longer, sprint-lines s) refl
]

normalize_lines : (ls : List String) → All IsPlain ls → map normalize_line ls ≡ ls
unfolding normalize_line
normalize_lines [] h = refl
normalize_lines (l ∷ ls) (plain, h) = rw (map, normalize_line, plain, normalize_lines ls h) refl

-- Logs without a line that has podman's prefix come out as they are.
pub normalize_podman_logs-IsPlain :
    (s : String) → All IsPlain (lines s) → normalize_podman_logs s ≡ s
unfolding normalize_podman_logs
normalize_podman_logs-IsPlain s h = rw (normalize_lines (lines s) h) (sprint-lines s)
