-- ===== src/Bench/Keeps.antt =====
-- Invariants and results of the runner's actions: one rule for each way to build an action.
use ai_model_scheduler.Base.{
  String, Bool, true, false, Option, none, some, Result, ok, err, if◌then◌else◌,
}
use ai_model_scheduler.Bench.Cluster.{State, M, pure, ◌>>=◌, if_err, on_result}

module _ {F W : Type 0} (P : State F W → Type 0) where
  -- The action leaves `P` true.
  pub record Keeps {A : Type 0} (m : M F W A) : Type 0 where
    pub at : (s : State F W) → P s → P (m s).1

module _ {F W A : Type 0} {P : State F W → Type 0} where
  pub Keeps-pure : (a : A) → Keeps P (pure a)
  unfolding pure
  Keeps-pure a = record { at = λ state held. held }

  pub Keeps-if : (b : Bool) (m n : M F W A) → Keeps P m → Keeps P n → Keeps P (if b then m else n)
  Keeps-if true m n km kn = km
  Keeps-if false m n km kn = kn

  pub Keeps-if_err :
      (e : Option String) (f : String → M F W A) (m : M F W A)
      → ((text : String) → Keeps P (f text))
      → Keeps P m
      → Keeps P (if_err e f m)
  unfolding if_err
  Keeps-if_err none f m kf km = km
  Keeps-if_err (some text) f m kf km = kf text

module _ {F W A B : Type 0} {P : State F W → Type 0} where
  pub Keeps-bind :
      (first : M F W A) (next : A → M F W B)
      → Keeps P first
      → ((x : A) → Keeps P (next x))
      → Keeps P (first >>= next)
  unfolding ◌>>=◌
  Keeps-bind first next before after = record {
    at = λ state held. (after (first state).0).at (first state).1 (before.at state held);
  }

  pub Keeps-on_result :
      {E : Type 0} (r : Result E A) (f : E → M F W B) (g : A → M F W B)
      → ((e : E) → Keeps P (f e))
      → ((a : A) → Keeps P (g a))
      → Keeps P (on_result r f g)
  unfolding on_result
  Keeps-on_result (ok a) f g kf kg = kg a
  Keeps-on_result (err e) f g kf kg = kf e

pub ruleset keeps_rules = (Keeps-pure, Keeps-if, Keeps-if_err, Keeps-bind, Keeps-on_result)

-- Every value that the action returns has the property.
pub record Yields {F W A : Type 0} (Q : A → Type 0) (m : M F W A) : Type 0 where
  pub at : (s : State F W) → Q (m s).0

module _ {F W A : Type 0} {Q : A → Type 0} where
  pub Yields-pure : (a : A) → Q a → Yields {F = F} {W = W} Q (pure a)
  unfolding pure
  Yields-pure a q = record { at = λ s. q }

  pub Yields-if :
      (b : Bool) (m n : M F W A) → Yields Q m → Yields Q n → Yields Q (if b then m else n)
  Yields-if true m n ym yn = ym
  Yields-if false m n ym yn = yn

  pub Yields-if_err :
      (e : Option String) (f : String → M F W A) (m : M F W A)
      → ((text : String) → Yields Q (f text))
      → Yields Q m
      → Yields Q (if_err e f m)
  unfolding if_err
  Yields-if_err none f m yf ym = ym
  Yields-if_err (some text) f m yf ym = yf text

module _ {F W A B : Type 0} {Q : B → Type 0} where
  pub Yields-bind :
      (m : M F W A) (f : A → M F W B) → ((a : A) → Yields Q (f a)) → Yields Q (m >>= f)
  unfolding ◌>>=◌
  Yields-bind m f yf = record { at = λ s. (yf (m s).0).at (m s).1 }

  pub Yields-on_result :
      {E : Type 0} (r : Result E A) (f : E → M F W B) (g : A → M F W B)
      → ((e : E) → Yields Q (f e))
      → ((a : A) → Yields Q (g a))
      → Yields Q (on_result r f g)
  unfolding on_result
  Yields-on_result (ok a) f g yf yg = yg a
  Yields-on_result (err e) f g yf yg = yf e

module _ {F W A B : Type 0} {R : A → Type 0} {Q : B → Type 0} where
  pub Yields-carry :
      (m : M F W A) (f : A → M F W B)
      → Yields R m
      → ((a : A) → R a → Yields Q (f a))
      → Yields Q (m >>= f)
  unfolding ◌>>=◌
  Yields-carry m f ym yf = record { at = λ s. (yf (m s).0 (ym.at s)).at (m s).1 }

pub ruleset yields_rules = (Yields-pure, Yields-if, Yields-if_err, Yields-bind, Yields-on_result)
