-- ===== src/Base/Search.antt =====
-- Texts that contain another one.
use text.Mathlib.TextLemmas.{nil-append, cons-append}
use Prim.Native.String.{String, ◌++◌}
use mathlib.Core.Path.{◌≡◌, refl}
use mathlib.Core.Logic.{inl, inr}
use mathlib.Core.Bool.{true}
use native.Mathlib.Omega.{arith}
use ai_model_scheduler.Base.Tests.{Bool-cases, &&-true}
use ai_model_scheduler.Base.Text.{has_prefix, contains}

contains_empty : (s : String) → contains s "" ≡ true
unfolding contains has_prefix
contains_empty String.[] = refl
contains_empty (String.◌∷◌ c s) = refl

pub has_prefix-append :
    (a s sub : String) → has_prefix a sub ≡ true → has_prefix (a ++ s) sub ≡ true
unfolding has_prefix
has_prefix-append a s String.[] h = refl
has_prefix-append String.[] s (String.◌∷◌ d sub) h = cc
has_prefix-append (String.◌∷◌ c a) s (String.◌∷◌ d sub) h =
    let (head, tail) = (&&-true _ _).0 h in
    rw (cons-append c a s) ((&&-true _ _).1 (head, has_prefix-append a s sub tail))

-- What a text contains, every longer text does.
pub contains-append_right :
    (a s sub : String) → contains s sub ≡ true → contains (a ++ s) sub ≡ true
unfolding contains
contains-append_right String.[] s sub h = rw (nil-append s) h
contains-append_right (String.◌∷◌ c a) s sub h =
    let later = contains-append_right a s sub h in rw (cons-append c a s) (ground (arith, later))

pub contains-append_left : (a s sub : String) → contains a sub ≡ true → contains (a ++ s) sub ≡ true
unfolding contains has_prefix
contains-append_left String.[] s String.[] h = contains_empty _
contains-append_left String.[] s (String.◌∷◌ d sub) h = cc
contains-append_left (String.◌∷◌ c a) s sub h =
    rw (cons-append c a s) (elim (Bool-cases (has_prefix (String.◌∷◌ c a) sub)) [
      | inl e ↦
          let starts = has_prefix-append (String.◌∷◌ c a) s sub e in
          let starts' = rw (cons-append c a s) at starts in ground (arith, starts')
      | inr e ↦
          let within : contains a sub ≡ true = ground (arith, h, e) in
          let later = contains-append_left a s sub within in ground (arith, later)
    ])
