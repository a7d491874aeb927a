-- ===== src/Base/Paths.antt =====
-- What the program uses of the Go package `path`, and strings.Fields.
use mathlib.Core.Path.{◌≡◌, refl}
use mathlib.Core.Bool.{Bool, true, false, ◌||◌}
use mathlib.Core.List.{List, [], ◌∷◌, reverse}
use Prim.Native.Char.{code}
use Prim.Native.String.{String, ◌++◌}
use text.Mathlib.Text.{◌==◌}
use ai_model_scheduler.Base.Tests.{if◌then◌else◌}
use ai_model_scheduler.Base.Text.{has_prefix, is_space, split, join}

-- One element of a path on the stack of those kept, the last one on top. Above the root of a rooted
-- path there is nothing; above the start of a relative one stands "..".
resolve_up : Bool → List String → List String
resolve_up true [] = []
resolve_up false [] = ".." ∷ []
resolve_up rooted (top ∷ stack) = if top == ".." then ".." ∷ top ∷ stack else stack

resolve : Bool → List String → String → List String
unfolding resolve_up
resolve rooted stack part =
    if part == "" || part == "."
    then stack
    else if part == ".."
    then resolve_up rooted stack
    else part ∷ stack

resolve_all : Bool → List String → List String → List String
unfolding resolve
resolve_all rooted stack [] = stack
resolve_all rooted stack (part ∷ parts) = resolve_all rooted (resolve rooted stack part) parts

-- path.Clean
unfoldable pub clean : String → String
unfolding resolve_all has_prefix split join
clean p =
    let rooted = has_prefix p "/" in
    let body = join "/" (reverse (resolve_all rooted [] (split b'/' p))) in
    if rooted then "/" ++ body else if body == "" then "." else body

join_from : String → List String → String
join_from acc [] = acc
join_from acc (e ∷ rest) =
    join_from (if e == "" then acc else if acc == "" then e else acc ++ ("/" ++ e)) rest

-- path.Join: the elements that are not empty, cleaned
unfoldable pub path_join : List String → String
unfolding join_from clean
path_join elems = let all = join_from "" elems in if all == "" then "" else clean all

before_last : List String → List String
before_last [] = []
before_last (x ∷ []) = "" ∷ []
before_last (x ∷ y ∷ rest) = x ∷ before_last (y ∷ rest)

-- path.Dir: all up to the last slash, cleaned
unfoldable pub path_dir : String → String
unfolding clean before_last
path_dir p = clean (join "/" (before_last (split b'/' p)))

-- strings.Fields: the maximal runs of characters that are no spaces
fields_from : String → String → List String
unfolding is_space
fields_from cur String.[] = if cur == "" then [] else cur ∷ []
fields_from cur (String.◌∷◌ c s) =
    let fresh = fields_from "" s in
    let longer = fields_from (cur ++ String.◌∷◌ c "") s in
    if is_space (code c) then (if cur == "" then fresh else cur ∷ fresh) else longer

unfoldable pub fields : String → List String
unfolding fields_from
fields s = fields_from "" s

path_tests :
    (path_join ("/models" ∷ "org//a/../b" ∷ []) ≡ "/models/org/b")
    × (path_join ("/models" ∷ "" ∷ []) ≡ "/models")
    × (path_join ("a" ∷ "../../b" ∷ []) ≡ "../b")
    × (path_dir "/models/a/b.gguf" ≡ "/models/a")
    × (fields " -c  1 x" ≡ "-c" ∷ "1" ∷ "x" ∷ [])
unfolding path_join path_dir fields
path_tests = (refl, refl, refl, refl, refl)
