-- ===== src/Deploy/Registers.antt =====
-- What `Service.Deploy` does to the cluster, on every branch.
use ai_model_scheduler.Base.{
  String, ℤ, pos, ◌≤ℤ◌, eqb_ℤ, ltb_ℤ, eqb_ℤ_iff, Bool, true, false, ◌≡◌, ◌≢◌, ◌↔◌, ◌⊎◌, inl, inr,
  refl, List, [], ◌∷◌, none, some, any, All, Bool-cases, Option-cases, Result, ok, err, eq_iff,
  arith,
}
use ai_model_scheduler.Nomadapi.Deployment.{Deployment}
use ai_model_scheduler.Deploy.Service.{
  registering, DeployError, register_built, deploy_listed, deploy, Client, suggest_port,
  is_live_named, choose_port, port_holder, PortRange,
}
use ai_model_scheduler.Deploy.Ports.{suggest_port_least, InRange, IsFree}
use ai_model_scheduler.Jobspec.Params.{validate, SpecError, Params}
use ai_model_scheduler.Jobspec.Job.{Job, Env}
use ai_model_scheduler.Jobspec.Built.{build-Serves, Serves}
use ai_model_scheduler.Jobspec.Runtimes.{build}

-- No live deployment of the listing has the name.
abbrev pub IsFresh : String → List Deployment → Type 0
IsFresh name deps = All (λ d. d.status ≢ "dead" → d.name ≢ name) deps

IsFresh-iff :
    (name : String) (deps : List Deployment)
    → (any (is_live_named name) deps ≡ false) ↔ IsFresh name deps
unfolding any
IsFresh-iff name [] = (λ _. tt, λ _. refl)
IsFresh-iff name (d ∷ deps) =
    ground (arith, IsFresh-iff name deps, eq_iff d.name name, eq_iff d.status "dead")

port_holder-none : (p : ℤ) (deps : List Deployment) → (port_holder p deps ≡ none) ↔ IsFree p deps
unfolding port_holder
port_holder-none p [] = (λ _. tt, λ _. refl)
port_holder-none p (d ∷ deps) =
    ground (arith, port_holder-none p deps, eqb_ℤ_iff d.port p, eq_iff d.status "dead")

module _ (range : PortRange) (positive : pos 1 ≤ℤ range.min) where
  asked_port :
      (p q : ℤ) (deps : List Deployment)
      → eqb_ℤ p (pos 0) ≡ false
      → choose_port range p deps ≡ ok q
      → InRange range q × IsFree q deps × (p ≡ q)
  unfolding choose_port
  asked_port p q deps e h =
      let facts : (ltb_ℤ p range.min ≡ false)
          × (ltb_ℤ range.max p ≡ false)
          × (port_holder p deps ≡ none)
          × (p ≡ q) =
        ground arith in
      let (lo, hi, free, same) = facts in
      (rw (← same) (ground arith), rw (← same) ((port_holder-none p deps).0 free), same)

  -- A port that is asked for stays, and one that is not is suggested; both are free and in range.
  pub choose_port-ok :
      (p q : ℤ) (deps : List Deployment)
      → choose_port range p deps ≡ ok q
      → InRange range q × IsFree q deps × ((p ≡ pos 0) ⊎ (p ≡ q))
  unfolding choose_port
  choose_port-ok p q deps h = elim (Bool-cases (eqb_ℤ p (pos 0))) [
    | inl e ↦
        let suggested : suggest_port range deps ≡ ok q = rw (e, choose_port) at h in
        let (within, free, _) = suggest_port_least range deps positive q suggested in
        (within, free, inl ((eqb_ℤ_iff p (pos 0)).0 e))
    | inr e ↦ let (within, free, same) = asked_port p q deps e h in (within, free, inr same)
  ]

module _ {W : Type 0} (client : Client W) (encode : Params → String) (env : Env) (range : PortRange)
    (positive : pos 1 ≤ℤ range.min) where
  -- What holds when `deploy` reports no error: one job is registered after one listing, and it
  -- serves the request under a name and a port that the listing leaves free.
  pub record Deployed (p : Params) (w w' : W) : Type 0 where
    pub deps : List Deployment
    pub listed : W
    pub port : ℤ
    pub job : Job
    pub listing : client.list_managed w ≡ (ok deps, listed)
    pub registered : client.register job listed ≡ (none, w')
    pub fresh : IsFresh p.name deps
    pub within : InRange range port
    pub free : IsFree port deps
    pub asked : (p.port ≡ pos 0) ⊎ (p.port ≡ port)
    pub serves : Serves encode (record p { port = port }) env job

  register_built_ok :
      (q : Params) (l w' : W)
      → register_built client encode env range q l ≡ (none, w')
      → (job : Job) × (build encode q env ≡ ok job) × (client.register job l ≡ (none, w'))
  unfolding register_built
  register_built_ok q l w' h = built (build encode q env) refl
    where
      built :
          (b : Result SpecError Job)
          → build encode q env ≡ b
          → (job : Job) × (build encode q env ≡ ok job) × (client.register job l ≡ (none, w'))
      built (ok job) e = (job, e, ground (arith, e))
      built (err x) e = ground (arith, e)

  deploy_chosen :
      (p : Params) (deps : List Deployment) (l w' : W)
      → deploy_listed client encode env range p (ok deps) l ≡ (none, w')
      → (any (is_live_named p.name) deps ≡ false)
        × ((port : ℤ) × (choose_port range p.port deps ≡ ok port)
            × (register_built client encode env range (record p { port = port }) l ≡ (none, w')))
  unfolding deploy_listed
  deploy_chosen p deps l w' h =
      let unused : any (is_live_named p.name) deps ≡ false = ground arith in
      (unused, chosen unused (choose_port range p.port deps) refl)
    where
      chosen :
          any (is_live_named p.name) deps ≡ false
          → (c : Result DeployError ℤ) → choose_port range p.port deps ≡ c
          → (port : ℤ) × (choose_port range p.port deps ≡ ok port)
            × (register_built client encode env range (record p { port = port }) l ≡ (none, w'))
      chosen u (ok port) e = (port, e, ground (arith, e, u))
      chosen u (err x) e = ground (arith, e, u)

  deploy_unlisted :
      (p : Params) (text : String) (l w' : W)
      → deploy_listed client encode env range p (err text) l ≢ (none, w')
  unfolding deploy_listed
  deploy_unlisted p text l w' h = cc

  -- A deployment that reports no error has registered exactly one job, right after one listing: it
  -- serves the request, under a name that no live deployment of the listing has, and on a port in
  -- the configured range that none of them shows, which is the requested one unless that was 0.
  pub deploy_ok :
      (p : Params) (w w' : W) → deploy client encode env range p w ≡ (none, w') → Deployed p w w'
  unfolding deploy
  deploy_ok p w w' h = listed (client.list_managed w).0 refl
    where
      after :
          deploy_listed client encode env range p
            (client.list_managed w).0
            (client.list_managed w).1
          ≡ (none, w')
      after = ground arith

      listed :
          (r : Result String (List Deployment)) → (client.list_managed w).0 ≡ r → Deployed p w w'
      listed (err text) e = absurd (deploy_unlisted p text _ w' (rw e at after))
      listed (ok deps) e =
          let (unused, picked) =
            deploy_chosen p deps (client.list_managed w).1 w' (rw e at after) in
          let (port, chosen, done) = picked in
          let (job, built, registered) =
            register_built_ok (record p { port = port }) (client.list_managed w).1 w' done in
          let (within, free, asked) = choose_port-ok range positive p.port port deps chosen in
          let (_, _, serves) = build-Serves encode (record p { port = port }) env job built in
          record {
            deps = deps;
            listed = (client.list_managed w).1;
            port = port;
            job = job;
            listing = λ i. (e i, (client.list_managed w).1);
            registered = registered;
            fresh = (IsFresh-iff p.name deps).0 unused;
            within = within;
            free = free;
            asked = asked;
            serves = serves;
          }

abbrev pub is_registering : DeployError → Bool
is_registering (registering text) = true
is_registering _ = false

module _ {W : Type 0} (client : Client W) (encode : Params → String) (env : Env)
    (range : PortRange) where
  register_built_error :
      (q : Params) (l w' : W) (e : DeployError)
      → is_registering e ≡ false
      → register_built client encode env range q l ≡ (some e, w')
      → w' ≡ l
  unfolding register_built
  register_built_error q l w' e other h = built (build encode q env) refl
    where
      built : (b : Result SpecError Job) → build encode q env ≡ b → w' ≡ l
      built (ok job) x = elim (Option-cases (client.register job l).0) [
        | inl y ↦ ground (arith, x, y)
        | inr (text, y) ↦ ground (arith, x, y)
      ]
      built (err s) x = ground (arith, x)

  deploy_listed_error :
      (p : Params) (listing : Result String (List Deployment)) (l w' : W) (e : DeployError)
      → is_registering e ≡ false
      → deploy_listed client encode env range p listing l ≡ (some e, w')
      → w' ≡ l
  unfolding deploy_listed
  deploy_listed_error p (err text) l w' e other h = ground arith
  deploy_listed_error p (ok deps) l w' e other h =
      elim (Bool-cases (any (is_live_named p.name) deps)) [
        | inl taken ↦ ground (arith, taken)
        | inr unused ↦ chosen unused (choose_port range p.port deps) refl
      ]
    where
      chosen :
          any (is_live_named p.name) deps ≡ false
          → (c : Result DeployError ℤ) → choose_port range p.port deps ≡ c
          → w' ≡ l
      chosen u (ok port) x =
          register_built_error (record p { port = port }) l w' e other (ground (arith, x, u))
      chosen u (err y) x = ground (arith, x, u)

  -- An error other than one of the registration itself leaves the cluster as it was, or as the one
  -- listing left it: nothing was registered or stopped.
  pub deploy_error :
      (p : Params) (w w' : W) (e : DeployError)
      → is_registering e ≡ false
      → deploy client encode env range p w ≡ (some e, w')
      → (w' ≡ w) ⊎ (w' ≡ (client.list_managed w).1)
  unfolding deploy
  deploy_error p w w' e other h = elim (Option-cases (validate p)) [
    | inl valid ↦ inr (
        deploy_listed_error p (client.list_managed w).0 (client.list_managed w).1 w' e other
          (ground (arith, valid)))
    | inr (x, invalid) ↦ inl (ground (arith, invalid))
  ]
