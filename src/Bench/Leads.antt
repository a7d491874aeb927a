-- ===== src/Bench/Leads.antt =====
-- What holds after an action of the runner, where something holds before it: one rule for each way to
-- build an action.
use ai_model_scheduler.Base.{
  inr, inl, ◌⊎◌, refl, ◌≡◌, false, err, none, ok, true, some, Result, if◌then◌else◌, Option, Bool,
  String,
}
use ai_model_scheduler.Bench.Cluster.{◌>>=◌, M, on_result, pure, if_err, State}
use ai_model_scheduler.Bench.Keeps.{Keeps}
use ai_model_scheduler.Bench.Polling.{after_scan}
use ai_model_scheduler.Nomadapi.Deployment.{Deployment}

-- From a state with `P`, the action ends with a value and a state related by `Q`.
module _ {F W : Type 0} (P : State F W → Type 0) where
  pub record Leads {A : Type 0} (m : M F W A) (Q : A → State F W → Type 0) : Type 0 where
    pub at : (s : State F W) → P s → Q (m s).0 (m s).1

module _ {F W A : Type 0} {P : State F W → Type 0} {Q : A → State F W → Type 0} where
  pub Leads-pure : (a : A) → ((s : State F W) → P s → Q a s) → Leads P (pure a) Q
  unfolding pure
  Leads-pure a h = record { at = h }

  pub Leads-if :
      (b : Bool) (m k : M F W A)
      → (b ≡ true → Leads P m Q)
      → (b ≡ false → Leads P k Q)
      → Leads P (if b then m else k) Q
  Leads-if true m k lm lk = lm refl
  Leads-if false m k lm lk = lk refl

  pub Leads-weaken :
      {R : State F W → Type 0} (m : M F W A)
      → ((s : State F W) → R s → P s)
      → Leads P m Q
      → Leads R m Q
  Leads-weaken m h l = record { at = λ s r. l.at s (h s r) }

module _ {F W A : Type 0} {P : State F W → Type 0} where
  -- An invariant, as a consequence.
  pub Leads-Keeps : (m : M F W A) → Keeps P m → Leads P m (λ _. P)
  Leads-Keeps m k = record { at = k.at }

module _ {F W A : Type 0} {Q : A → State F W → Type 0} where
  pub Leads-if_err :
      (P : Option String → State F W → Type 0) (e : Option String) (f : String → M F W A)
      (m : M F W A)
      → ((text : String) → Leads (P (some text)) (f text) Q)
      → Leads (P none) m Q
      → Leads (P e) (if_err e f m) Q
  unfolding if_err
  Leads-if_err P none f m lf lm = lm
  Leads-if_err P (some text) f m lf lm = lf text

module _ {F W A B : Type 0} {P : State F W → Type 0} {Q : B → State F W → Type 0} where
  pub Leads-bind :
      (R : A → State F W → Type 0) (m : M F W A) (f : A → M F W B)
      → Leads P m R
      → ((a : A) → Leads (R a) (f a) Q)
      → Leads P (m >>= f) Q
  unfolding ◌>>=◌
  Leads-bind R m f lm lf = record { at = λ s h. (lf (m s).0).at (m s).1 (lm.at s h) }

  pub Leads-on_result :
      {E : Type 0} (r : Result E A) (f : E → M F W B) (g : A → M F W B)
      → ((e : E) → Leads P (f e) Q)
      → ((a : A) → Leads P (g a) Q)
      → Leads P (on_result r f g) Q
  unfolding on_result
  Leads-on_result (ok a) f g lf lg = lg a
  Leads-on_result (err e) f g lf lg = lf e

module _ {F W A : Type 0} {P : State F W → Type 0} {Q : A → State F W → Type 0} {C : Type 0}
    {m : M F W A} where
  -- A fact that does not depend on the state.
  pub Leads-fact : (C → Leads P m Q) → Leads (λ s. P s × C) m Q
  Leads-fact l = record { at = λ s (h, c). (l c).at s h }

module _ {F W A : Type 0} {P : State F W → Type 0} {Q : A → State F W → Type 0} where
  pub Leads-after_scan :
      (seen : Result String String ⊎ Deployment) (done : Result String String → M F W A)
      (go_on : Deployment → M F W A)
      → ((outcome : Result String String) → Leads P (done outcome) Q)
      → ((last : Deployment) → Leads P (go_on last) Q)
      → Leads P (after_scan seen done go_on) Q
  unfolding after_scan
  Leads-after_scan (inl outcome) done go_on ld lg = ld outcome
  Leads-after_scan (inr last) done go_on ld lg = lg last
