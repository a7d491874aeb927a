-- ===== src/Bench/Unstopped.antt =====
-- internal/bench/runner.go: staging a dataset and running a configuration take no deployment down.
use Prim.Native.Char.{Char}
use ai_model_scheduler.Base.{
  inr, ◌∙◌, ap, sym, eq_iff, inl, Bool-cases, false, ◌≡◌, ◌==◌, has_prefix, Bool, arith, String, ℕ,
  suc, true, List, [], ◌∷◌, Option, none, some, Result,
}
use ai_model_scheduler.Jobspec.Params.{Params}
use ai_model_scheduler.Bench.Outage.{Target, Keeps-act, Covers, step, Keeps-read}
use ai_model_scheduler.Bench.Cluster.{
  deployed, registered, purged, stopped, saved, act, Host, Cluster,
}
use ai_model_scheduler.Bench.Run.{Run}
use ai_model_scheduler.Bench.Keeps.{Keeps-bind, keeps_rules, Keeps}
use ai_model_scheduler.Jobspec.Job.{Env, Job}
use ai_model_scheduler.Bench.Stopping.{deployment_prefix, stop, save}
use ai_model_scheduler.Bench.Staging.{finish_batch, purge_jobs, purge_job, register_parts}
use ai_model_scheduler.Bench.Reading.{Reads}

module _ {F W : Type 0} (n : Target) (ps : List Params) where
  pub Keeps-saved :
      (run : Run F) (op : W → Option String × W) → Keeps (Covers n ps) (act (saved run) op)
  unfolding step
  Keeps-saved run op = Keeps-act n ps (saved run) op λ e down h. h

  pub Keeps-registered :
      (job : Job) (op : W → Option String × W)
      → Keeps (Covers {F = F} n ps) (act (registered job) op)
  unfolding step
  Keeps-registered job op = Keeps-act n ps (registered job) op λ e down h. h

  pub Keeps-purged :
      (name : String) (op : W → Option String × W)
      → Keeps (Covers {F = F} n ps) (act (purged name) op)
  unfolding step
  Keeps-purged name op = Keeps-act n ps (purged name) op λ e down h. h

  -- A stop of another deployment.
  pub Keeps-stopped :
      (name : String) (purge : Bool) (op : W → Option String × W)
      → (name == n.name) ≡ false
      → Keeps (Covers {F = F} n ps) (act (stopped name purge) op)
  unfolding step
  Keeps-stopped name purge op other = Keeps-act n ps (stopped name purge) op still
    where
      still :
          (e : Option String) (down : Bool)
          → step {F = F} n (stopped name purge e) down ≡ true
          → down ≡ true
      still none down h = ground (arith, other, h)
      still (some text) down h = h

  pub Keeps-deployed :
      (p : Params) (op : W → Option String × W) → Keeps (Covers {F = F} n ps) (act (deployed p) op)
  unfolding step
  Keeps-deployed p op = Keeps-act n ps (deployed p) op λ e down. ground arith

pub ruleset act_rules = (Keeps-read, Keeps-saved, Keeps-registered, Keeps-purged, Keeps-deployed)

module _ {F W : Type 0} (n : Target) (ps : List Params) (cluster : Cluster F W)
    (host : Host F W) where
  pub Keeps-save : (run : Run F) → Keeps (Covers n ps) (save cluster host run)
  unfolding save
  Keeps-save run = search act_rules

  -- A bench deployment.
  pub Keeps-purge :
      (name : String)
      → has_prefix n.name deployment_prefix ≡ false
      → has_prefix name deployment_prefix ≡ true
      → Keeps (Covers n ps) (stop cluster host name true)
  unfolding stop
  Keeps-purge name apart bench =
      Keeps-stopped n ps name true _ (elim (Bool-cases (name == n.name)) [
        | inl e ↦
            let same : name ≡ n.name = (eq_iff _ _).0 e in
            let both = sym (ap (λ x. has_prefix x deployment_prefix) same) ∙ bench in absurd cc
        | inr e ↦ e
      ])

  module _ (env : Env) (fuel : ℕ) where
    pub Keeps-purge_job : (id : String) → Keeps (Covers n ps) (purge_job cluster host env fuel id)
    unfolding purge_job
    Keeps-purge_job id = search act_rules

    pub Keeps-purge_jobs :
        (ids : List String) → Keeps (Covers n ps) (purge_jobs cluster host env fuel ids)
    unfolding purge_jobs
    Keeps-purge_jobs [] = search keeps_rules
    Keeps-purge_jobs (id ∷ ids) = Keeps-bind _ _ (Keeps-purge_job id) λ _. Keeps-purge_jobs ids

    pub Keeps-register_parts :
        (run_id dir : String) (i : ℕ) (parts : List (List Char)) (ids : List String)
        → Keeps (Covers n ps) (register_parts cluster host env fuel run_id dir i parts ids)
    unfolding register_parts
    Keeps-register_parts run_id dir i [] ids = search keeps_rules
    Keeps-register_parts run_id dir i (part ∷ parts) ids =
        search
          (keeps_rules, act_rules, Keeps-purge_jobs, Keeps-register_parts run_id dir (suc i) parts)

    pub Keeps-finish_batch :
        (r : Option (Result String (Unit {0})))
        → Keeps (Covers n ps) (finish_batch cluster host env fuel r)
    unfolding finish_batch
    Keeps-finish_batch none = search keeps_rules
    Keeps-finish_batch (some r) = search keeps_rules

  -- What only reads takes nothing down.
  pub Covers-Reads : Reads (Covers n ps) cluster host
  Covers-Reads = record {
    list_managed = Keeps-read n ps _;
    batch_status = λ id. Keeps-read n ps _;
    failure_reason = λ alloc. Keeps-read n ps _;
    read_logs = λ alloc all. Keeps-read n ps _;
    gpu_stats = Keeps-read n ps _;
    now = Keeps-read n ps _;
    wait = Keeps-read n ps _;
  }
