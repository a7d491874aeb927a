-- ===== src/Bench/Relaunch.antt =====
-- internal/bench/runner.go: what `execute` stops, it deploys again.
use ai_model_scheduler.Bench.Told.{IsKnown, IsTold}
use ai_model_scheduler.Base.{has_prefix, ◌≡◌, ℕ, ℤ, false}
use ai_model_scheduler.Bench.Run.{Run, Floats}
use ai_model_scheduler.Bench.Cluster.{State, Host, Cluster}
use ai_model_scheduler.Jobspec.Job.{Env}
use ai_model_scheduler.Bench.Outage.{Implies, Target}
use ai_model_scheduler.Bench.Leads.{Leads}
use ai_model_scheduler.Bench.Stopping.{deployment_prefix}

module _ {F W : Type 0} (floats : Floats F) (cluster : Cluster F W) (host : Host F W) (env : Env)
    (eval_timeout : ℤ) (fuel : ℕ) (n : Target) (apart : has_prefix n.name deployment_prefix ≡ false)
    (known : IsKnown cluster n) where
  -- If `n` is down, the run tells of it.
  Told : Run F → State F W → Type 0
  Told run = Implies n (IsTold n run)
