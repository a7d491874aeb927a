-- ===== src/Nomadapi/Api.antt =====
-- What internal/nomadapi calls of the Nomad API: a call answers by the state `W`, which stands for all
-- that happened before. The records have the fields that the program reads.
use ai_model_scheduler.Base.{Bool, ok, err, ℕ, ℤ, Dict, List, Option, Result, String}
use ai_model_scheduler.Jobspec.Job.{Job}

pub record JobStub : Type 0 where
  pub id : String
  pub status : String
  pub submit_time : ℤ

pub record ApiResources : Type 0 where
  pub cpu : Option ℤ
  pub memory_mb : Option ℤ

-- The resources of the tasks, group by group.
pub record ApiJob : Type 0 where
  pub meta : Dict String
  pub groups : List (List (Option ApiResources))

pub record AllocStub : Type 0 where
  pub id : String
  pub create_index : ℕ

pub record HostPort : Type 0 where
  pub label : String
  pub value : ℤ
  pub host_ip : String

pub record Network : Type 0 where
  pub ip : String
  pub reserved_ports : List HostPort
  pub dynamic_ports : List HostPort

pub record Shared : Type 0 where
  pub ports : List HostPort
  pub networks : List Network

pub record TaskEvent : Type 0 where
  pub time : ℤ
  pub type : String
  pub display_message : String
  pub message : String

pub record Allocation : Type 0 where
  pub id : String
  pub client_status : String
  pub allocated : Option Shared
  pub resources : Option (List Network)
  pub task_states : Dict (List TaskEvent)

-- Jobs().List, .Info, .Allocations, .Register, .Deregister and .Dispatch, Allocations().Info, the
-- frames of AllocFS().Logs put together with the error that came after them (of an allocation, a task
-- and a stream; true reads from the end), the select of the context against a ticker (true if the
-- context ended), the context's error and net.JoinHostPort.
pub record Api (W : Type 0) : Type 0 where
  pub list_jobs : String → W → Result String (List JobStub) × W
  pub job_info : String → W → Result String ApiJob × W
  pub allocations : String → W → Result String (List AllocStub) × W
  pub alloc_info : String → W → Result String Allocation × W
  pub register : Job → W → Option String × W
  pub deregister : String → Bool → W → Option String × W
  pub dispatch : String → Dict String → W → Result String String × W
  pub logs : String → String → String → Bool → ℕ → W → (String × Option String) × W
  pub tick : W → Bool × W
  pub ctx_err : W → String
  pub join_host_port : String → ℤ → String

-- A call, or several in a row.
abbrev pub Act : Type 0 → Type 0 → Type 0
Act W A = W → A × W

module _ {W : Type 0} where
  unfoldable pub return : {A : Type 0} → A → Act W A
  return a w = (a, w)

  infixl 5 ◌>>=◌
  unfoldable pub ◌>>=◌ : {A B : Type 0} → Act W A → (A → Act W B) → Act W B
  ◌>>=◌ m f w = let (a, w') = m w in f a w'

  -- if err != nil { … }, and what follows
  unfoldable pub on_ok : {E A B : Type 0} → Result E A → (E → Act W B) → (A → Act W B) → Act W B
  on_ok (err e) failed go_on = failed e
  on_ok (ok a) failed go_on = go_on a
