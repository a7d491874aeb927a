-- ===== src/Samples/Cluster.antt =====
-- A Nomad cluster with one job, whose state is the ticks that the context has left.
use ai_model_scheduler.Nomadapi.Logs.{podman_line}
use ai_model_scheduler.Nomadapi.Logs.{chomp}
use ai_model_scheduler.Base.{
  ◌==◌, if◌then◌else◌, pos, List, Bool, Option, arith, ◌<◌, split, ok, ℕ, Dict, String, IsSome, All,
  ◌≡◌, refl, [], ◌∷◌, none, some, zero, suc, true, false,
}
use ai_model_scheduler.Nomadapi.Api.{Allocation, AllocStub, Api}
use ai_model_scheduler.Nomadapi.Logs.{lines}
use ai_model_scheduler.Nomadapi.Waiting.{wait_for_batch-IsSome, Context}
use ai_model_scheduler.Nomadapi.Managed.{list_managed-AreManaged, AreManaged}
use ai_model_scheduler.Hardware.Fresh.{latest_sample-IsLatest, IsLatest}
use ai_model_scheduler.Hardware.Service.{GpuUse, latest_sample, Gpu, Service}
use ai_model_scheduler.Jobspec.Common.{kind_inference, kind_key, managed_by_value, managed_by_key}
use ai_model_scheduler.Nomadapi.Listing.{list_managed}
use ai_model_scheduler.Nomadapi.Plain.{IsPlain}
use ai_model_scheduler.Nomadapi.Dispatch.{wait_for_batch}

abbrev qwen_meta : Dict String
qwen_meta = (managed_by_key, managed_by_value) ∷ (kind_key, kind_inference) ∷ []

abbrev alloc : Allocation
alloc = record {
  id = "a1";
  client_status = "running";
  allocated = none;
  resources = none;
  task_states = [];
}

abbrev older : AllocStub
older = record { id = "a0"; create_index = 7 }

abbrev newer : AllocStub
newer = record { id = "a1"; create_index = 9 }

abbrev count_down : ℕ → Bool × ℕ
count_down zero = (true, 0)
count_down (suc n) = (false, n)

abbrev pub api : Api ℕ
api = record {
  list_jobs = λ prefix w.
      (ok (record { id = "model-qwen"; status = "running"; submit_time = pos 1 } ∷ []), w);
  job_info = λ id w. (ok (record { meta = qwen_meta; groups = [] }), w);
  allocations = λ id w. (ok (older ∷ newer ∷ []), w);
  alloc_info = λ id w. (ok alloc, w);
  register = λ job w. (none, w);
  deregister = λ id purge w. (none, w);
  dispatch = λ id meta w. (ok "ams-indexer/dispatch-1", w);
  logs = λ id task stream from_end offset w. (("ready\n", none), w);
  tick = count_down;
  ctx_err = λ w. "context deadline exceeded";
  join_host_port = λ ip port. ip;
}

count_down_less : (n : ℕ) → (count_down n).0 ≡ false → (count_down n).1 < n
count_down_less zero h = cc
count_down_less (suc n) h = omega arith

abbrev context : Context api
context = record {
  remaining = λ w. w;
  tick = count_down_less;
  allocations = λ id w. omega arith;
  alloc_info = λ id w. omega arith;
}

wait_for_batch-IsSome_example : IsSome (wait_for_batch api 4 "ams-indexer/dispatch-1" 3).0
wait_for_batch-IsSome_example =
    wait_for_batch-IsSome api context 4 "ams-indexer/dispatch-1" 3 (omega arith)

list_managed-AreManaged_example : AreManaged api (api.list_jobs "" 3).0 (list_managed api 3).0
list_managed-AreManaged_example = list_managed-AreManaged api 3

IsPlain-lines : All IsPlain (lines "line one\nline two\n")
unfolding lines podman_line chomp
IsPlain-lines = (refl, (refl, tt))

abbrev no_gpus : Service
no_gpus = record { gpus = []; fetched = some 0; agent_ensured = none; agent_ensured_at = 0 }

abbrev decode_gpu : String → Option Gpu
decode_gpu text = none

abbrev decode_sample : String → Option (List (GpuUse ℕ))
decode_sample text = if text == "{\"gpus\":[]}" then some [] else none

latest_sample-IsLatest_example :
    IsLatest decode_sample
      (split 10 "noise\n{\"gpus\":[]}\n")
      (latest_sample decode_sample "noise\n{\"gpus\":[]}\n")
latest_sample-IsLatest_example = latest_sample-IsLatest decode_sample "noise\n{\"gpus\":[]}\n"
