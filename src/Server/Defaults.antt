-- ===== src/Server/Defaults.antt =====
-- The defaults of the run form (joinInts in internal/server/server.go) are what uiStartRun in
-- api_bench.go reads of them.
use text.Mathlib.TextLemmas.{nil-append, cons-append, append-nil, append_assoc}
use mathlib.Core.Path.{subst}
use Prim.Native.String.{[], String, ◌++◌}
use ai_model_scheduler.Base.{
  All, inr, ap, eq_iff, sprint, inl, join, ◌∙◌, List, [], arith, Bool-cases, code, ◌∷◌, ◌==◌, ◌/◌,
  ltb, ◌%◌, negsuc, pos, ℤ, &&-true, ◌≡◌, not, if◌then◌else◌, Bool, all_chars, show_nat, show_int,
  digit, show_from, ℕ, refl, zero, suc, true, false,
}
use ai_model_scheduler.Server.RunForm.{
  list_items_from, numbers_of, form_eval, list_items, is_separator,
}
use ai_model_scheduler.Server.Pages.{join_ints}

abbrev is_plain : ℕ → Bool
is_plain c = not (is_separator c)

-- A text without separators, and one that is not empty.
abbrev IsClean : String → Type 0
IsClean s = all_chars is_plain s ≡ true

abbrev IsItem : String → Type 0
IsItem String.[] = ⊥
IsItem (String.◌∷◌ c s) = IsClean (String.◌∷◌ c s)

IsClean-append : (a b : String) → IsClean a → IsClean b → IsClean (a ++ b)
unfolding all_chars
IsClean-append String.[] b h k = rw (nil-append b) k
IsClean-append (String.◌∷◌ c a) b h k =
    let (head, tail) = (&&-true _ _).0 h in
    rw (cons-append c a b) ((&&-true _ _).1 (head, IsClean-append a b tail k))

IsItem-IsClean : (a : String) → IsItem a → IsClean a
IsItem-IsClean String.[] h = absurd h
IsItem-IsClean (String.◌∷◌ c a) h = h

IsItem-append : (a b : String) → IsItem a → IsClean b → IsItem (a ++ b)
unfolding all_chars
IsItem-append String.[] b h k = absurd h
IsItem-append (String.◌∷◌ c a) b h k =
    let joined = IsClean-append (String.◌∷◌ c a) b h k in
    rw (cons-append c a b) (rw (cons-append c a b) at joined)

if_ind : {A : Type 0} (P : A → Type 0) (b : Bool) (x y : A) → P x → P y → P (if b then x else y)
if_ind P true x y p q = p
if_ind P false x y p q = q

digit-IsItem : (d : ℕ) → IsItem (digit d)
unfolding digit all_chars is_separator
digit-IsItem zero = refl
digit-IsItem (suc zero) = refl
digit-IsItem (suc (suc zero)) = refl
digit-IsItem (suc (suc (suc zero))) = refl
digit-IsItem (suc (suc (suc (suc zero)))) = refl
digit-IsItem (suc (suc (suc (suc (suc zero))))) = refl
digit-IsItem (suc (suc (suc (suc (suc (suc zero)))))) = refl
digit-IsItem (suc (suc (suc (suc (suc (suc (suc zero))))))) = refl
digit-IsItem (suc (suc (suc (suc (suc (suc (suc (suc zero)))))))) = refl
digit-IsItem (suc (suc (suc (suc (suc (suc (suc (suc (suc _))))))))) = refl

show_from-IsItem : (f n : ℕ) (acc : String) → IsItem acc → IsItem (show_from f n acc)
unfolding show_from
show_from-IsItem zero n acc h = h
show_from-IsItem (suc f) n acc h =
    let longer =
      IsItem-append (digit (n % 10)) acc (digit-IsItem (n % 10)) (IsItem-IsClean acc h) in
    if_ind IsItem (ltb n 10) (digit (n % 10) ++ acc) (show_from f (n / 10) (digit (n % 10) ++ acc))
      longer (show_from-IsItem f (n / 10) _ longer)

show_nat-IsItem : (n : ℕ) → IsItem (show_nat n)
unfolding show_nat show_from all_chars
show_nat-IsItem n =
    let first = IsItem-append (digit (n % 10)) "" (digit-IsItem (n % 10)) refl in
    if_ind IsItem (ltb n 10) (digit (n % 10) ++ "") (show_from n (n / 10) (digit (n % 10) ++ ""))
      first (show_from-IsItem n (n / 10) _ first)

show_int-IsItem : (n : ℤ) → IsItem (show_int n)
unfolding show_int all_chars is_separator
show_int-IsItem (pos n) = show_nat-IsItem n
show_int-IsItem (negsuc n) =
    IsItem-append "-" (show_nat (suc n)) refl (IsItem-IsClean _ (show_nat-IsItem (suc n)))

-- Characters that are no separators join the field that stands so far.
list_items_from-append :
    (cur a s : String) → IsClean a → list_items_from cur (a ++ s) ≡ list_items_from (cur ++ a) s
unfolding list_items_from all_chars
list_items_from-append cur String.[] s h = rw (nil-append s, append-nil cur) refl
list_items_from-append cur (String.◌∷◌ c a) s h =
    let (head, tail) = (&&-true (is_plain (code c)) (all_chars is_plain a)).0 h in
    let plain : is_separator (code c) ≡ false = ground (arith, head) in
    let joined : sprint (cur ∷ String.◌∷◌ c "" ∷ []) ++ a ≡ cur ++ String.◌∷◌ c a =
      append_assoc cur (String.◌∷◌ c "" ++ "") a
      ∙ ap (λ (t : String). cur ++ t)
          (ap (λ (t : String). t ++ a) (append-nil (String.◌∷◌ c ""))
            ∙ cons-append c "" a
            ∙ ap (λ (t : String). String.◌∷◌ c t) (nil-append a)) in
    rw (cons-append c a s, plain)
      (list_items_from-append (sprint (cur ∷ String.◌∷◌ c "" ∷ [])) a s tail
        ∙ ap (λ (t : String). list_items_from t s) joined)

IsItem-full : (a : String) → IsItem a → (a == "") ≡ false
IsItem-full String.[] h = absurd h
IsItem-full (String.◌∷◌ c a) h = elim (Bool-cases (String.◌∷◌ c a == "")) [
  | inl e ↦ absurd (subst IsItem ((eq_iff (String.◌∷◌ c a) "").0 e) h)
  | inr e ↦ e
]

-- An item at the end, and one with ", " after it.
list_items_last : (a : String) → IsItem a → list_items a ≡ a ∷ []
unfolding list_items list_items_from
list_items_last a h =
    let read = list_items_from-append "" a "" (IsItem-IsClean a h) in
    let whole = rw (append-nil a, nil-append a) at read in whole ∙ (rw (IsItem-full a h) refl)

abbrev IsGap : String → Type 0
IsGap String.[] = ⊥
IsGap (String.◌∷◌ c s) = all_chars is_separator (String.◌∷◌ c s) ≡ true

list_items_gap :
    (gap s : String) → all_chars is_separator gap ≡ true → list_items (gap ++ s) ≡ list_items s
unfolding list_items list_items_from all_chars
list_items_gap String.[] s h = rw (nil-append s) refl
list_items_gap (String.◌∷◌ c gap) s h =
    let (head, tail) = (&&-true (is_separator (code c)) (all_chars is_separator gap)).0 h in
    rw (cons-append c gap s, head) (list_items_gap gap s tail)

list_items_from_gap :
    (cur gap s : String)
    → (cur == "") ≡ false
    → IsGap gap
    → list_items_from cur (gap ++ s) ≡ cur ∷ list_items s
unfolding list_items list_items_from all_chars
list_items_from_gap cur String.[] s full h = absurd h
list_items_from_gap cur (String.◌∷◌ c gap) s full h =
    let (head, tail) = (&&-true (is_separator (code c)) (all_chars is_separator gap)).0 h in
    rw (cons-append c gap s, head, full)
      (ap (λ (l : List String). cur ∷ l) (list_items_gap gap s tail))

list_items_next : (a s : String) → IsItem a → list_items (a ++ (", " ++ s)) ≡ a ∷ list_items s
unfolding list_items all_chars is_separator
list_items_next a s h =
    let read = list_items_from-append "" a (", " ++ s) (IsItem-IsClean a h) in
    let whole = rw (nil-append a) at read in
    whole ∙ list_items_from_gap a ", " s (IsItem-full a h) refl

numbers_of_next :
    (atoi : String → ℤ × Bool) (f : String) (fs : List String) (n : ℤ)
    → atoi f ≡ (n, true)
    → numbers_of atoi (f ∷ fs) ≡ n ∷ numbers_of atoi fs
unfolding numbers_of
numbers_of_next atoi f fs n h = rw (numbers_of, h) refl

numbers_of_none : (atoi : String → ℤ × Bool) → numbers_of atoi [] ≡ []
unfolding numbers_of
numbers_of_none atoi = refl

numbers_of_empty : (atoi : String → ℤ × Bool) → numbers_of atoi (list_items "") ≡ []
unfolding numbers_of list_items list_items_from
numbers_of_empty atoi = refl

numbers_of-join_ints :
    (atoi : String → ℤ × Bool) (ns : List ℤ)
    → All (λ n. atoi (show_int n) ≡ (n, true)) ns
    → numbers_of atoi (list_items (join_ints ns)) ≡ ns
unfolding join_ints join
numbers_of-join_ints atoi [] reads = numbers_of_empty atoi
numbers_of-join_ints atoi (n ∷ []) reads = rw (list_items_last (show_int n) (show_int-IsItem n)) (
    numbers_of_next atoi (show_int n) [] n reads.0
    ∙ ap (λ (l : List ℤ). n ∷ l) (numbers_of_none atoi))
numbers_of-join_ints atoi (n ∷ m ∷ ns) reads =
    ap (numbers_of atoi) (list_items_next (show_int n) (join_ints (m ∷ ns)) (show_int-IsItem n))
    ∙ (numbers_of_next atoi (show_int n) (list_items (join_ints (m ∷ ns))) n reads.0
        ∙ ap (λ (l : List ℤ). n ∷ l) (numbers_of-join_ints atoi (m ∷ ns) reads.1))

-- The concurrency levels that the form shows as its default are the ones that the handler reads when
-- the form is sent unchanged, for every list of levels, where Atoi reads what Itoa prints of them.
pub form_eval-join_ints :
    (form_value : String → String) (atoi : String → ℤ × Bool) (ticked : List String) (ns : List ℤ)
    → All (λ n. atoi (show_int n) ≡ (n, true)) ns
    → form_value "concurrency" ≡ join_ints ns
    → (form_eval form_value atoi ticked).concurrency ≡ ns
unfolding form_eval
form_eval-join_ints form_value atoi ticked ns reads shows =
    rw shows (numbers_of-join_ints atoi ns reads)
