-- ===== src/Nomadapi/Lines.antt =====
-- What internal/catalog and internal/hardware share in reading JSON lines from a job's output.
use ai_model_scheduler.Base.{
  code, eqb, List, Bool, if◌then◌else◌, Option, String, [], ◌∷◌, none, some,
}

-- i := strings.Index(line, "{"); line[i:], where i >= 0
unfoldable pub from_brace : String → Option String
from_brace String.[] = none
from_brace (String.◌∷◌ c s) =
    let rest = from_brace s in if eqb (code c) b'{' then some (String.◌∷◌ c s) else rest

-- json.Unmarshal of what follows the brace; `none` is a line without one, or an error.
unfoldable pub decode_line : {A : Type 0} → (String → Option A) → String → Option A
unfolding from_brace
decode_line decode line = elim (from_brace line) [ none ↦ none | some text ↦ decode text ]

-- The records of the lines that decode and pass the test, in order.
unfoldable pub decode_lines : {A : Type 0} → (String → Option A) → (A → Bool) → List String → List A
unfolding decode_line
decode_lines decode keep [] = []
decode_lines decode keep (line ∷ lines) =
    let rest = decode_lines decode keep lines in
    elim (decode_line decode line) [ none ↦ rest | some a ↦ if keep a then a ∷ rest else rest ]
