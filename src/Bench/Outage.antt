-- ===== src/Bench/Outage.antt =====
-- internal/bench/runner.go: which deployments a log of calls leaves stopped, and the actions of a
-- run that stop none.
use ai_model_scheduler.Base.{
  contains, some, String, Bool, true, false, not, ◌&&◌, ◌||◌, ◌≡◌, refl, sym, ◌∙◌, List, [], ◌∷◌,
  ◌++◌, Option, none, ◌==◌,
}
use ai_model_scheduler.Bench.Cluster.{deployed, stopped, act, read, State, Call}
use ai_model_scheduler.Jobspec.Params.{Params}
use ai_model_scheduler.Bench.Keeps.{Keeps}

-- A deployment: its name, and a test of the parameters that deploy it.
pub record Target : Type 0 where
  pub name : String
  pub is_mine : Params → Bool

-- Deploy succeeded, or answered that there is such a deployment.
unfoldable pub is_there : Option String → Bool
is_there none = true
is_there (some text) = contains text "already exists"

-- Whether `n` is down after one more call: a stop that succeeds, a purge too, takes it down; a Deploy
-- of its parameters ends that if the deployment is there.
unfoldable pub step : {F : Type 0} → Target → Call F → Bool → Bool
step n (stopped name purge none) down = name == n.name || down
step n (deployed p e) down = not (n.is_mine p && is_there e) && down
step n _ down = down

-- The deployment `n` was stopped and not deployed again.
unfoldable pub is_down : {F : Type 0} → Target → List (Call F) → Bool → Bool
is_down n [] down = down
is_down n (c ∷ cs) down = is_down n cs (step n c down)

pub is_down-append :
    {F : Type 0} (n : Target) (cs : List (Call F)) (c : Call F) (down : Bool)
    → is_down n (cs ++ c ∷ []) down ≡ step n c (is_down n cs down)
unfolding is_down
is_down-append n [] c down = refl
is_down-append n (d ∷ cs) c down = is_down-append n cs c (step n d down)

unfoldable pub is_named : Target → List Params → Bool
is_named n [] = false
is_named n (p ∷ ps) = n.is_mine p || is_named n ps

-- If `n` is down, then `X`.
unfoldable pub Implies : {F W : Type 0} → Target → Type 0 → State F W → Type 0
Implies n X s = is_down n s.log false ≡ true → X

-- If `n` is down, it is on the list.
unfoldable pub Covers : {F W : Type 0} → Target → List Params → State F W → Type 0
Covers n ps s = Implies n (is_named n ps ≡ true) s

module _ {F W : Type 0} (n : Target) (X : Type 0) where
  pub Implies-read : {A : Type 0} (op : W → A × W) → Keeps (Implies n X) (read {F = F} op)
  unfolding read Implies
  Implies-read op = record { at = λ s h. h }

  -- A call that takes nothing down.
  pub Implies-act :
      (c : Option String → Call F) (op : W → Option String × W)
      → ((e : Option String) → (down : Bool) → step n (c e) down ≡ true → down ≡ true)
      → Keeps (Implies n X) (act c op)
  unfolding act Implies
  Implies-act c op still = record {
    at = λ s h down. h (
        still (op s.world).0 (is_down n s.log false)
          (sym (is_down-append n s.log (c (op s.world).0) false) ∙ down));
  }

module _ {F W : Type 0} (n : Target) (ps : List Params) where
  pub Keeps-read : {A : Type 0} (op : W → A × W) → Keeps (Covers n ps) (read {F = F} op)
  unfolding Covers
  Keeps-read op = record { at = (Implies-read n _ op).at }

  pub Keeps-act :
      (c : Option String → Call F) (op : W → Option String × W)
      → ((e : Option String) → (down : Bool) → step n (c e) down ≡ true → down ≡ true)
      → Keeps (Covers n ps) (act c op)
  unfolding Covers
  Keeps-act c op still = record { at = (Implies-act n _ c op still).at }

-- With nothing on the list, nothing is down.
pub Covers-Implies :
    {F W : Type 0} (n : Target) (X : Type 0) (s : State F W) → Covers n [] s → Implies n X s
unfolding Covers Implies is_named
Covers-Implies n X s h = λ down. let never = h down in absurd cc
