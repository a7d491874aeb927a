-- ===== src/Server/Pages.antt =====
-- internal/server/server.go and api_deployments.go: what the pages show.
use Prim.Native.Char.{Char}
use ai_model_scheduler.Base.{
  ◌%◌, ◌-◌, refl, err, ok, split, code, insert, trim_space, eqb, Result, ◌≡◌, show_nat, ltb,
  text_leb, show_int, sort_by, leb, negsuc, not, get_text, ◌*◌, pos, map, join, ◌==◌, Option, ℤ,
  if◌then◌else◌, sprint, ◌/◌, List, String, Dict, ℕ, [], ◌∷◌, none, some, zero, suc,
}
use ai_model_scheduler.Bench.Run.{Floats}
use ai_model_scheduler.Nomadapi.Deployment.{Deployment}

-- joinInts
unfoldable pub join_ints : List ℤ → String
join_ints ns = join ", " (map show_int ns)

unfoldable pub env_line : Dict String → String → String
env_line env key = sprint (key ∷ "=" ∷ get_text key env ∷ [])

unfoldable pub keys : Dict String → List String
keys [] = []
keys ((key, value) ∷ env) = key ∷ keys env

-- envLines: the keys in their order
unfoldable pub env_lines : Dict String → String
unfolding env_line keys
env_lines env = join "\n" (map (env_line env) (sort_by text_leb (keys env)))

-- The loop of humanBytes: the divisor and the index of the unit, from `m`.
unfoldable pub find_unit : ℕ → ℕ → ℕ → ℕ → ℕ × ℕ
find_unit zero m div exp = (div, exp)
find_unit (suc fuel) m div exp =
    let later = find_unit fuel (m / 1024) (div * 1024) (suc exp) in
    if leb 1024 m then later else (div, exp)

-- "KMGTPE"[exp]
unfoldable pub unit_name : ℕ → Option String
unit_name zero = some "K"
unit_name (suc zero) = some "M"
unit_name (suc (suc zero)) = some "G"
unit_name (suc (suc (suc zero))) = some "T"
unit_name (suc (suc (suc (suc zero)))) = some "P"
unit_name (suc (suc (suc (suc (suc zero))))) = some "E"
unit_name (suc (suc (suc (suc (suc (suc _)))))) = none

module _ {F : Type 0} (floats : Floats F) where
  unfoldable pub with_unit : ℕ → ℕ × ℕ → Option String
  with_unit n (div, exp) = elim (unit_name exp) [
    | none ↦ none
    | some name ↦ some (
        sprint (
          floats.show 1 (floats.div (floats.of_int (pos n)) (floats.of_int (pos div)))
          ∷ " "
          ∷ name
          ∷ "B"
          ∷ []))
  ]

  -- humanBytes; `none` is an index beyond the units, a panic
  unfoldable pub human_bytes : ℤ → Option String
  unfolding with_unit find_unit unit_name
  human_bytes (negsuc n) = some (sprint (show_int (negsuc n) ∷ " B" ∷ []))
  human_bytes (pos n) =
      if ltb n 1024
      then some (sprint (show_nat n ∷ " B" ∷ []))
      else with_unit n (find_unit 64 (n / 1024) 1024 0)

  -- meterClass
  unfoldable pub meter_class : F → String
  meter_class pct =
      if floats.le (floats.of_int (pos 90)) pct
      then "err"
      else if floats.le (floats.of_int (pos 75)) pct
      then "warn"
      else "ok"

  -- meterWidth: min(max(pct, 0), 100)
  unfoldable pub meter_width : F → F
  meter_width pct =
      let low = if floats.le pct floats.zero then floats.zero else pct in
      if floats.le (floats.of_int (pos 100)) low then floats.of_int (pos 100) else low

-- %02d
unfoldable pub two_digits : ℕ → String
two_digits n = if ltb n 10 then sprint ("0" ∷ show_nat n ∷ []) else show_nat n

-- The text of a span, in seconds.
unfoldable pub span_text : ℕ → String
unfolding two_digits
span_text secs =
    if ltb secs 60
    then sprint (show_nat secs ∷ "s" ∷ [])
    else if ltb secs 3600
    then sprint (show_nat (secs / 60) ∷ "m " ∷ two_digits (secs % 60) ∷ "s" ∷ [])
    else sprint (show_nat (secs / 3600) ∷ "h " ∷ two_digits (secs / 60 % 60) ∷ "m" ∷ [])

-- humanDuration, for times in seconds: `none` is an unset time, and the end is not before the start
unfoldable pub human_duration : Option ℕ → Option ℕ → ℕ → String
unfolding span_text
human_duration none end_time now = ""
human_duration (some start) none now = span_text (now - start)
human_duration (some start) (some end_time) now = span_text (end_time - start)

duration_tests :
    (human_duration (some 10) none 17 ≡ "7s")
    × (human_duration (some 10) (some 733) 0 ≡ "12m 03s")
    × (human_duration (some 0) (some 7265) 0 ≡ "2h 01m")
    × (human_duration none (some 3) 9 ≡ "")
unfolding human_duration show_nat
duration_tests = (refl, refl, refl, refl)

-- The data of renderDeployments.
pub record Tab : Type 0 where
  pub filter : String
  pub running : ℕ
  pub stopped : ℕ
  pub rows : List Deployment

unfoldable pub add_row : Deployment → Tab → Tab
add_row d tab =
    let is_dead = d.status == "dead" in
    record {
      filter = tab.filter;
      running = if is_dead then tab.running else suc tab.running;
      stopped = if is_dead then suc tab.stopped else tab.stopped;
      rows =
          if (if is_dead then tab.filter == "stopped" else not (tab.filter == "stopped"))
          then d ∷ tab.rows
          else tab.rows;
    }

-- The loop over the deployments, in their order.
unfoldable pub fill_tab : String → List Deployment → Tab
unfolding add_row
fill_tab filter [] = record { filter = filter; running = 0; stopped = 0; rows = [] }
fill_tab filter (d ∷ deps) = add_row d (fill_tab filter deps)

-- renderDeployments, with the listing
unfoldable pub deployments_tab : String → List Deployment → Tab
unfolding fill_tab
deployments_tab filter deps = fill_tab (if filter == "stopped" then "stopped" else "running") deps

-- strings.Cut at "=": before and after, or no "="
longer_cut : Char → Option (String × String) → Option (String × String)
longer_cut c none = none
longer_cut c (some (before, after)) = some (String.◌∷◌ c before, after)

unfoldable pub cut_equals : String → Option (String × String)
unfolding longer_cut
cut_equals String.[] = none
cut_equals (String.◌∷◌ c s) =
    let found = cut_equals s in if eqb (code c) b'=' then some ("", s) else longer_cut c found

-- One line that is not blank; `none` is an error.
unfoldable pub put_env_line : Option (String × String) → Dict String → Option (Dict String)
put_env_line none env = none
put_env_line (some (key, value)) env =
    if trim_space key == "" then none else some (insert (trim_space key) (trim_space value) env)

unfoldable pub parse_env_from : Dict String → List String → Result String (Dict String)
unfolding cut_equals put_env_line
parse_env_from env [] = ok env
parse_env_from env (line ∷ lines) =
    if trim_space line == ""
    then parse_env_from env lines
    else elim (put_env_line (cut_equals (trim_space line)) env) [
      | none ↦ err (trim_space line)
      | some env' ↦ parse_env_from env' lines
    ]

-- parseEnvLines: the environment, or the line that is not KEY=VALUE
unfoldable pub parse_env_lines : String → Result String (Dict String)
unfolding parse_env_from
parse_env_lines text = parse_env_from [] (split 10 text)

parse_env_tests :
    (parse_env_lines " A = 1 \n\nB=x=y" ≡ ok (("A", "1") ∷ ("B", "x=y") ∷ []))
    × (parse_env_lines "A" ≡ err "A")
    × (env_lines (("B", "2") ∷ ("A", "1") ∷ []) ≡ "A=1\nB=2")
unfolding parse_env_lines split trim_space insert env_lines join sort_by text_leb get_text
parse_env_tests = (refl, refl, refl)
