-- ===== src/Nomadapi/Logs.antt =====
-- internal/nomadapi/logs.go.
use Prim.Native.String.{◌++◌}
use ai_model_scheduler.Base.{
  ◌||◌, not, map, ◌&&◌, eqb, ◌==◌, List, has_prefix, code, sprint, leb, Bool, ℕ, Option,
  if◌then◌else◌, String, ◌≡◌, refl, [], ◌∷◌, none, some, zero, suc, true, false,
}
use ai_model_scheduler.Nomadapi.Api.{return, on_ok, Act, Api, ◌>>=◌}
use ai_model_scheduler.Nomadapi.Listing.{trim_prefix}

-- strings.Lines: each line with its newline
unfoldable pub longer : String → List String → List String
longer c [] = c ∷ []
longer c (l ∷ ls) = (c ++ l) ∷ ls

unfoldable pub lines : String → List String
unfolding longer
lines String.[] = []
lines (String.◌∷◌ c s) =
    let rest = lines s in
    if eqb (code c) 10 then String.◌∷◌ c "" ∷ rest else longer (String.◌∷◌ c "") rest

-- strings.TrimSuffix of the newline
unfoldable pub chomp : String → String
chomp String.[] = ""
chomp (String.◌∷◌ c s) =
    let rest = chomp s in if s == "" && eqb (code c) 10 then "" else String.◌∷◌ c rest

-- What a step of a match leaves; `none` where it does not match.
abbrev Match : Type 0
Match = String → Option String

then_match : {A : Type 0} → Option String → (String → Option A) → Option A
then_match none f = none
then_match (some s) f = f s

match_char : (ℕ → Bool) → Match
match_char p String.[] = none
match_char p (String.◌∷◌ c s) = if p (code c) then some s else none

match_digits : ℕ → Match
unfolding then_match match_char
match_digits zero s = some s
match_digits (suc n) s = then_match (match_char (λ c. leb 48 c && leb c 57) s) (match_digits n)

-- \S is [^\t\n\f\r ]
is_blank : ℕ → Bool
is_blank c = eqb c 9 || eqb c 10 || eqb c 12 || eqb c 13 || eqb c 32

-- \S*, which runs to the first blank
match_word : Match
unfolding is_blank
match_word String.[] = some ""
match_word (String.◌∷◌ c s) =
    let rest = match_word s in if is_blank (code c) then some (String.◌∷◌ c s) else rest

match_text : String → Match
match_text p s = if has_prefix s p then some (trim_prefix s p) else none

-- (?:stdout|stderr)
match_stream : Match
unfolding match_text
match_stream s = if has_prefix s "stdout" then match_text "stdout" s else match_text "stderr" s

-- ([PF]) ?(.*)$: whether the mark is F, and the content
match_content : String → Option (Bool × String)
match_content String.[] = none
match_content (String.◌∷◌ c s) =
    if eqb (code c) 80 || eqb (code c) 70 then some (eqb (code c) 70, trim_prefix s " ") else none

-- podmanLogLineRe
unfoldable pub podman_line : String → Option (Bool × String)
unfolding then_match match_digits match_text match_word match_stream match_content match_char
podman_line s = then_match (match_digits 4 s) λ s. then_match (match_text "-" s) λ s.
    then_match (match_digits 2 s) λ s. then_match (match_text "-" s) λ s.
      then_match (match_digits 2 s) λ s. then_match (match_text "T" s) λ s.
        then_match (match_char (λ c. not (is_blank c)) s) λ s. then_match (match_word s) λ s.
          then_match (match_text " " s)
            λ s. then_match (match_stream s) λ s. then_match (match_text " " s) match_content

unfoldable pub normalize_line : String → String
normalize_line line = elim (podman_line (chomp line)) [
  | none ↦ line
  | some (full, text) ↦ if full then text ++ "\n" else text
]

-- normalizePodmanLogs
unfoldable pub normalize_podman_logs : String → String
normalize_podman_logs s = sprint (map normalize_line (lines s))

normalize_tests :
    (normalize_podman_logs
        "2026-09-17T17:57:25.585794651+00:00 stdout F downloading model\n2026-09-17T17:58:09.075555352+00:00 stderr F Killed\n"
      ≡ "downloading model\nKilled\n")
    × (normalize_podman_logs
          "2026-09-17T17:57:25.840312034+00:00 stderr P Fetching:   0%\n2026-09-17T17:57:26.000000000+00:00 stderr F  done\n"
        ≡ "Fetching:   0% done\n")
    × (normalize_podman_logs "INFO stdout F is not a podman prefix\n"
        ≡ "INFO stdout F is not a podman prefix\n")
unfolding normalize_podman_logs lines normalize_line podman_line chomp has_prefix trim_prefix
normalize_tests = (refl, refl, refl)

module _ {W : Type 0} (api : Api W) where
  -- readLogs: what was read, and the error
  unfoldable pub read_logs : String → String → String → Bool → ℕ → Act W (String × Option String)
  read_logs alloc_id task stream from_end offset = do
    info ← api.alloc_info alloc_id
    on_ok info
        (λ text. return ("", some (sprint ("fetching allocation " ∷ alloc_id ∷ ": " ∷ text ∷ []))))
        λ alloc. do
          got ← api.logs alloc.id task stream from_end offset
          return (normalize_podman_logs got.0, got.1)

  -- TailLogs
  unfoldable pub tail_logs : String → String → String → ℕ → Act W (String × Option String)
  tail_logs alloc_id task stream max_bytes = read_logs alloc_id task stream true max_bytes

  -- ReadAllLogs
  unfoldable pub read_all_logs : String → String → String → Act W (String × Option String)
  read_all_logs alloc_id task stream = read_logs alloc_id task stream false 0
