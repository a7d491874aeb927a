-- ===== src/Samples/Ports.antt =====
-- The choice of a port, and a deployment on it.
use ai_model_scheduler.Deploy.Service.{choose_port, register_built}
use ai_model_scheduler.Jobspec.Runtimes.{build, build_runtime, llama_cpp}
use ai_model_scheduler.Jobspec.Common.{runtime_image}
use ai_model_scheduler.Base.{get_text}
use ai_model_scheduler.Base.{span}
use ai_model_scheduler.Jobspec.Params.{validate_env}
use ai_model_scheduler.Base.{suc_ℤ}
use ai_model_scheduler.Deploy.Service.{is_used}
use ai_model_scheduler.Deploy.Service.{deploy_listed}
use ai_model_scheduler.Base.{any}
use ai_model_scheduler.Jobspec.Params.{name_re}
use ai_model_scheduler.Deploy.Service.{scan}
use ai_model_scheduler.Jobspec.Params.{validate}
use ai_model_scheduler.Deploy.Service.{used_ports}
use ai_model_scheduler.Samples.Data.{qwen, env, encode, serving}
use ai_model_scheduler.Deploy.Service.{deploy}
use ai_model_scheduler.Base.{
  ◌⊎◌, refl, ◌↔◌, ◌<ℤ◌, err, some, none, ℤ, arith, ok, ◌≤ℤ◌, ◌≡◌, ◌∷◌, List, pos, [],
}
use ai_model_scheduler.Deploy.Registers.{deploy_error, deploy_ok, Deployed}
use ai_model_scheduler.Deploy.Service.{
  already_exists, no_free_ports, suggest_port, Client, PortRange,
}
use ai_model_scheduler.Jobspec.Job.{Job}
use ai_model_scheduler.Deploy.Ports.{suggest_port_full, suggest_port_least, IsFree, InRange}
use ai_model_scheduler.Jobspec.Common.{base_job}
use ai_model_scheduler.Nomadapi.Deployment.{Deployment}
use ai_model_scheduler.Jobspec.Runtimes.{llama_args}

abbrev pub range : PortRange
range = record { min = pos 8000; max = pos 8002 }

abbrev crowd : List Deployment
crowd =
    serving "a" (pos 8000)
    ∷ record (serving "b" (pos 8001)) { status = "dead" }
    ∷ serving "c" (pos 8002)
    ∷ []

abbrev full_house : List Deployment
full_house = serving "a" (pos 8000) ∷ serving "b" (pos 8001) ∷ serving "c" (pos 8002) ∷ []

range_positive : pos 1 ≤ℤ range.min
range_positive = ground arith

crowd_port : suggest_port range crowd ≡ ok (pos 8001)
unfolding suggest_port scan span is_used used_ports suc_ℤ
crowd_port = refl

suggest_port_least_example :
    InRange range (pos 8001)
    × IsFree (pos 8001) crowd
    × ((r : ℤ) → pos 8000 ≤ℤ r → r <ℤ pos 8001 → ¬ IsFree r crowd)
suggest_port_least_example = suggest_port_least range crowd range_positive (pos 8001) crowd_port

suggest_port_full_example :
    (suggest_port range full_house ≡ err no_free_ports)
    ↔ ((r : ℤ) → InRange range r → ¬ IsFree r full_house)
suggest_port_full_example = suggest_port_full range full_house range_positive

-- A client that lists the crowd and keeps the jobs that were registered.
abbrev client : Client (List Job)
client = record {
  list_managed = λ jobs. (ok crowd, jobs);
  register = λ job jobs. (none, job ∷ jobs);
  stop = λ name purge jobs. (none, jobs);
}

abbrev no_jobs : List Job
no_jobs = []

abbrev placed_job : Job
placed_job =
    base_job encode (record qwen { port = pos 8001 }) env "llama:cuda"
      (llama_args (record qwen { port = pos 8001 }) env)

deploy-qwen : deploy client encode env range qwen [] ≡ (none, placed_job ∷ [])
unfolding deploy validate name_re validate_env deploy_listed any choose_port suggest_port scan span
    is_used used_ports suc_ℤ register_built build build_runtime llama_cpp runtime_image get_text
deploy-qwen = refl

deploy_ok_example : Deployed client encode env range range_positive qwen [] (placed_job ∷ [])
deploy_ok_example =
    deploy_ok client encode env range range_positive qwen [] (placed_job ∷ []) deploy-qwen

a_again :
    deploy client encode env range (record qwen { name = "a" }) [] ≡ (some (already_exists "a"), [])
unfolding deploy validate name_re validate_env deploy_listed any
a_again = refl

deploy_error_example : (no_jobs ≡ no_jobs) ⊎ (no_jobs ≡ no_jobs)
deploy_error_example =
    deploy_error client encode env range (record qwen { name = "a" }) [] [] (already_exists "a")
      refl a_again
