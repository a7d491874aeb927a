-- ===== src/Base/Text.antt =====
-- What the program uses of the Go package `strings`, on the native texts, and decimal printing.
-- A text is a sequence of Unicode characters; a Go string that is not valid UTF-8 is outside the
-- model.
use Prim.Native.Nat.{ℕ, zero, suc, ◌/◌, ◌%◌}
use Prim.Native.Char.{code}
use Prim.Native.String.{String, ◌++◌}
use mathlib.Core.Path.{◌≡◌, refl}
use mathlib.Core.Bool.{Bool, true, false, ◌&&◌, ◌||◌}
use mathlib.Core.List.{List, [], ◌∷◌}
use text.Mathlib.Text.{◌==◌}
use ai_model_scheduler.Base.Int.{ℤ, pos, negsuc}
use ai_model_scheduler.Base.Tests.{leb, eqb, ltb, if◌then◌else◌}

-- strings.HasPrefix
unfoldable pub has_prefix : String → String → Bool
has_prefix s String.[] = true
has_prefix String.[] (String.◌∷◌ d p) = false
has_prefix (String.◌∷◌ c s) (String.◌∷◌ d p) = eqb (code c) (code d) && has_prefix s p

-- strings.Contains
unfoldable pub contains : String → String → Bool
unfolding has_prefix
contains String.[] sub = has_prefix "" sub
contains (String.◌∷◌ c s) sub = has_prefix (String.◌∷◌ c s) sub || contains s sub

-- Every character of the text passes the test: a repeated character class of a regular expression.
unfoldable pub all_chars : (ℕ → Bool) → String → Bool
all_chars p String.[] = true
all_chars p (String.◌∷◌ c s) = p (code c) && all_chars p s

-- unicode.IsSpace
unfoldable pub is_space : ℕ → Bool
is_space c =
    (leb 9 c && leb c 13)
    || eqb c 32
    || eqb c 133
    || eqb c 160
    || eqb c 5760
    || (leb 8192 c && leb c 8202)
    || eqb c 8232
    || eqb c 8233
    || eqb c 8239
    || eqb c 8287
    || eqb c 12288

unfoldable pub trim_left : String → String
unfolding is_space
trim_left String.[] = ""
trim_left (String.◌∷◌ c s) =
    let rest = trim_left s in if is_space (code c) then rest else String.◌∷◌ c s

unfoldable pub trim_right : String → String
unfolding is_space
trim_right String.[] = ""
trim_right (String.◌∷◌ c s) =
    let rest = trim_right s in if is_space (code c) && rest == "" then "" else String.◌∷◌ c rest

-- strings.TrimSpace
unfoldable pub trim_space : String → String
unfolding trim_left trim_right
trim_space s = trim_right (trim_left s)

-- strings.Split at one character: the text up to its first occurrence stands first.
unfoldable pub split_from : ℕ → String → String → List String
split_from sep cur String.[] = cur ∷ []
split_from sep cur (String.◌∷◌ c s) =
    let cut = cur ∷ split_from sep "" s in
    let longer = split_from sep (cur ++ String.◌∷◌ c "") s in
    if eqb (code c) sep then cut else longer

unfoldable pub split : ℕ → String → List String
unfolding split_from
split sep s = split_from sep "" s

-- strings.Join
unfoldable pub join : String → List String → String
join sep [] = ""
join sep (s ∷ []) = s
join sep (s ∷ t ∷ rest) = s ++ (sep ++ join sep (t ∷ rest))

-- The pieces of a formatted message, put together.
abbrev pub sprint : List String → String
sprint [] = ""
sprint (s ∷ rest) = s ++ sprint rest

unfoldable pub digit : ℕ → String
digit zero = "0"
digit (suc zero) = "1"
digit (suc (suc zero)) = "2"
digit (suc (suc (suc zero))) = "3"
digit (suc (suc (suc (suc zero)))) = "4"
digit (suc (suc (suc (suc (suc zero))))) = "5"
digit (suc (suc (suc (suc (suc (suc zero)))))) = "6"
digit (suc (suc (suc (suc (suc (suc (suc zero))))))) = "7"
digit (suc (suc (suc (suc (suc (suc (suc (suc zero)))))))) = "8"
digit (suc (suc (suc (suc (suc (suc (suc (suc (suc _))))))))) = "9"

-- The decimal digits of a number in front of a text. A number needs no more rounds than itself.
unfoldable pub show_from : ℕ → ℕ → String → String
unfolding digit
show_from zero n acc = acc
show_from (suc f) n acc =
    let acc' = digit (n % 10) ++ acc in
    let rest = show_from f (n / 10) acc' in if ltb n 10 then acc' else rest

-- strconv.Itoa
unfoldable pub show_nat : ℕ → String
unfolding show_from
show_nat n = show_from (suc n) n ""

unfoldable pub show_int : ℤ → String
unfolding show_nat
show_int (pos n) = show_nat n
show_int (negsuc n) = "-" ++ show_nat (suc n)

show_tests : (show_nat 0 ≡ "0") × (show_nat 8010 ≡ "8010") × (show_int (negsuc 41) ≡ "-42")
unfolding show_int
show_tests = (refl, refl, refl)

text_tests :
    (trim_space " a b\n" ≡ "a b")
    × (split 10 "a\n\nb" ≡ "a" ∷ "" ∷ "b" ∷ [])
    × (contains "deployment already exists" "already exists" ≡ true)
    × (has_prefix "bench-1" "bench-" ≡ true)
unfolding trim_space split contains
text_tests = (refl, refl, refl, refl)
