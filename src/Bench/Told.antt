-- ===== src/Bench/Told.antt =====
-- internal/bench/runner.go: what `restore` deploys again, or tells in the error of the run.
use ai_model_scheduler.Base.{
  Bool-cases, sprint, ◌⊎◌, ◌&&◌, inl, true, inr, refl, ◌∙◌, sym, ◌==◌, arith, ◌||◌, ◌∷◌, [], ◌≡◌,
  Option, ◌++◌, List, String, none, some, false,
}
use ai_model_scheduler.Bench.Outage.{
  Implies-read, Implies-act, is_there, Implies, Target, is_down-append, step, is_named, Covers,
}
use ai_model_scheduler.Bench.Cluster.{
  saved, finished, deployed, note, stopped, act, Host, State, Cluster,
}
use ai_model_scheduler.Jobspec.Params.{Params}
use ai_model_scheduler.Bench.Run.{RunStatus, Run}
use ai_model_scheduler.Bench.Stopping.{
  add_errors, save, relaunch_error, stored_or_listed, stop, relaunch_each, restore,
}
use ai_model_scheduler.Bench.Execute.{finish}
use ai_model_scheduler.Bench.Leads.{
  Leads-weaken, Leads-bind, Leads-pure, Leads-if, Leads-Keeps, Leads,
}
use ai_model_scheduler.Bench.Keeps.{Keeps}
use ai_model_scheduler.Nomadapi.Deployment.{Deployment}

-- The parameters that are on record for the deployment are its own: those that `DeploymentParams`
-- returns for its name, and where it returns none, those of the listing.
unfoldable pub IsKnown : {F W : Type 0} → Cluster F W → Target → Type 0
IsKnown {F = F} {W = W} cluster n =
    (w : W) (d : Deployment)
    → d.name ≡ n.name
    → n.is_mine (stored_or_listed (cluster.deployment_params n.name w).0 d) ≡ true

-- A line tells that `Deploy` failed for parameters of `n`.
unfoldable pub Tells : Target → List String → Type 0
Tells n [] = ⊥
Tells n (e ∷ es) =
    ((p : Params) × (text : String) × (n.is_mine p ≡ true)
      × (e ≡ sprint ("relaunch " ∷ p.name ∷ ": " ∷ text ∷ [])))
    ⊎ Tells n es

-- The run's error ends with such lines.
unfoldable pub IsTold : {F : Type 0} → Target → Run F → Type 0
IsTold n run =
    (before : String) × (errs : List String) × Tells n errs × (run.error ≡ add_errors before errs)

Tells-left : (n : Target) (xs ys : List String) → Tells n xs → Tells n (xs ++ ys)
unfolding Tells
Tells-left n [] ys h = absurd h
Tells-left n (x ∷ xs) ys (inl h) = inl h
Tells-left n (x ∷ xs) ys (inr h) = inr (Tells-left n xs ys h)

Tells-right : (n : Target) (xs ys : List String) → Tells n ys → Tells n (xs ++ ys)
unfolding Tells
Tells-right n [] ys h = h
Tells-right n (x ∷ xs) ys h = inr (Tells-right n xs ys h)

relaunch_error-Tells :
    (n : Target) (p : Params) (e : Option String)
    → n.is_mine p ≡ true
    → is_there e ≡ false
    → Tells n (relaunch_error p e)
unfolding relaunch_error is_there Tells
relaunch_error-Tells n p none mine there = absurd cc
relaunch_error-Tells n p (some text) mine there = rw there (inl (p, text, mine, refl))

is_named-append :
    (n : Target) (ps : List Params) (p : Params)
    → is_named n (ps ++ p ∷ []) ≡ (is_named n ps || n.is_mine p)
unfolding is_named
is_named-append n [] p = ground arith
is_named-append n (q ∷ ps) p = ground (arith, is_named-append n ps p)

module _ {F W : Type 0} (n : Target) where
  -- Nothing is to be relaunched yet, and the list names what is down.
  unfoldable pub Listed : Run F → State F W → Type 0
  Listed run s = Covers n run.restore s × run.restored ≡ false

  pub weaken : (ps : List Params) (s : State F W) → Covers n [] s → Covers n ps s
  unfolding Covers Implies is_named
  weaken ps s h down = ground (arith, h down)

  -- A stop that succeeds takes the name down that the list gets.
  unfoldable pub Stopped : List Params → Params → Option String → State F W → Type 0
  Stopped ps p none s = Covers n (ps ++ p ∷ []) s
  Stopped ps p (some text) s = Covers n ps s

module _ {F W : Type 0} (n : Target) (cluster : Cluster F W) (host : Host F W) where
  after_stop :
      (ps : List Params) (name : String) (p : Params) (s : State F W) (e : Option String) (w : W)
      → ((name == n.name) ≡ true → n.is_mine p ≡ true)
      → Covers n ps s
      → Stopped n ps p e (record { world = w; log = s.log ++ (stopped name false e ∷ []) })
  unfolding Covers Implies Stopped step
  after_stop ps name p s none w known h = λ down. ground (
    arith,
    is_named-append n ps p,
    is_down-append n s.log (stopped name false none) false,
    h,
    known,
    down,
  )
  after_stop ps name p s (some text) w known h =
      λ down. h (sym (is_down-append n s.log (stopped name false (some text)) false) ∙ down)

  pub stop-Stopped :
      (ps : List Params) (name : String) (p : Params)
      → ((name == n.name) ≡ true → n.is_mine p ≡ true)
      → Leads (Covers n ps) (stop cluster host name false) (Stopped n ps p)
  unfolding stop act
  stop-Stopped ps name p known = record { at = λ s h. after_stop ps name p s _ _ known h }

  -- While the list is deployed again: if `n` is down, it is among those to come, or a line tells of it.
  Relaunching : List Params → List String → State F W → Type 0
  Relaunching ps errs s = Implies n ((is_named n ps ≡ true) ⊎ Tells n errs) s

  relaunched :
      (p : Params) (ps : List Params) (errs : List String) (e : Option String)
      → (n.is_mine p && is_there e) ≡ false
      → (is_named n (p ∷ ps) ≡ true) ⊎ Tells n errs
      → (is_named n ps ≡ true) ⊎ Tells n (errs ++ relaunch_error p e)
  unfolding is_named
  relaunched p ps errs e gone (inr told) = inr (Tells-left n errs _ told)
  relaunched p ps errs e gone (inl named) = elim (Bool-cases (n.is_mine p)) [
    | inl mine ↦
        inr (Tells-right n errs _ (relaunch_error-Tells n p e mine (ground (arith, gone, mine))))
    | inr other ↦ inl (ground (arith, named, other))
  ]

  deploy-Relaunching :
      (p : Params) (ps : List Params) (errs : List String)
      → Leads
          (Relaunching (p ∷ ps) errs)
          (act (deployed p) (cluster.deploy p))
          (λ e. Relaunching ps (errs ++ relaunch_error p e))
  unfolding act Relaunching Implies step
  deploy-Relaunching p ps errs = record {
    at = λ s h down.
        let e = (cluster.deploy p s.world).0 in
        let now = sym (is_down-append n s.log (deployed p e) false) ∙ down in
        relaunched p ps errs e (ground (arith, now)) (h (ground (arith, now)));
  }

  relaunch_each-Tells :
      (ps : List Params) (errs : List String)
      → Leads
          (Relaunching ps errs)
          (relaunch_each cluster host ps errs)
          (λ errs'. Implies n (Tells n errs'))
  unfolding relaunch_each Relaunching Implies is_named
  relaunch_each-Tells [] errs =
      Leads-pure errs λ s h down. elim (h down) [ inl named ↦ absurd cc | inr told ↦ told ]
  relaunch_each-Tells (p ∷ ps) errs =
      Leads-bind (λ e. Relaunching ps (errs ++ relaunch_error p e)) _ _
        (deploy-Relaunching p ps errs) λ e. relaunch_each-Tells ps _

  Implies-save : (X : Type 0) (run : Run F) → Keeps (Implies n X) (save cluster host run)
  unfolding save step
  Implies-save X run = Implies-act n X (saved run) _ λ e down h. h

  pub restore-IsTold :
      (run : Run F)
      → Leads (Listed n run) (restore cluster host run) (λ run'. Implies n (IsTold n run'))
  unfolding restore Listed Covers Implies IsTold Relaunching
  restore-IsTold run =
      Leads-if run.restored _ _ (λ again. Leads-pure run λ s (h, fresh) down. absurd cc)
        λ _.
          Leads-weaken _ (λ s (h, fresh) down. inl (h down))
            (Leads-bind (λ errs. Implies n (Tells n errs)) _ _ (relaunch_each-Tells run.restore [])
              λ errs.
                Leads-bind (λ _. Implies n (Tells n errs)) _ _
                  (Leads-Keeps _ (Implies-save (Tells n errs) _))
                  λ _. Leads-pure _ λ s told down. (run.error, errs, told down, refl))

  pub finish-IsTold :
      (run : Run F) (status : RunStatus)
      → Leads
          (Implies n (IsTold n run))
          (finish cluster host run status)
          (λ run'. Implies n (IsTold n run'))
  unfolding finish note Implies step IsTold
  finish-IsTold run status =
      Leads-bind (λ _. Implies n (IsTold n run)) _ _
        (Leads-Keeps _ (Implies-read n (IsTold n run) host.now))
        λ t.
          Leads-bind (λ _. Implies n (IsTold n run)) _ _
            (Leads-Keeps _ (Implies-save (IsTold n run) _))
            λ _.
              Leads-bind (λ _. Implies n (IsTold n run)) _ _
                (record {
                  at = λ s h down. h (sym (is_down-append n s.log (finished _) false) ∙ down);
                })
                λ _. Leads-pure _ λ s h. h
