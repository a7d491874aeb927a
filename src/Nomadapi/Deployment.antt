-- ===== src/Nomadapi/Deployment.antt =====
-- internal/nomadapi/jobs.go: a managed inference job as the listing shows it. The two floating-point
-- usage figures, which are only displayed, are left out.
use ai_model_scheduler.Base.{String, ℤ, Bool}

pub record Deployment : Type 0 where
  pub job_id : String
  pub name : String
  pub runtime : String
  pub model : String
  pub status : String
  pub alloc_id : String
  pub alloc_status : String
  pub healthy : Bool
  pub endpoint : String
  pub port : ℤ
  pub gpu : String
  pub cpu_mhz : ℤ
  pub mem_mb : ℤ

abbrev pub no_deployment : Deployment
no_deployment = record {
  job_id = "";
  name = "";
  runtime = "";
  model = "";
  status = "";
  alloc_id = "";
  alloc_status = "";
  healthy = Bool.false;
  endpoint = "";
  port = ℤ.pos 0;
  gpu = "";
  cpu_mhz = ℤ.pos 0;
  mem_mb = ℤ.pos 0;
}
