-- ===== src/Nomadapi/Allocs.antt =====
-- internal/nomadapi/allocs.go.
use ai_model_scheduler.Base.{
  lookup, ok, sprint, err, pos, ◌++◌, map, ltb, some, none, ◌∷◌, ◌==◌, Result, [], if◌then◌else◌, ℤ,
  List, Option, String,
}
use ai_model_scheduler.Nomadapi.Api.{
  return, on_ok, Network, Act, Allocation, AllocStub, HostPort, Shared, Api, TaskEvent, ◌>>=◌,
}
use ai_model_scheduler.Jobspec.Common.{task_name, port_label}

-- s.CreateIndex > latest.CreateIndex, or the first one
unfoldable pub latest_stub : Option AllocStub → List AllocStub → Option AllocStub
latest_stub latest [] = latest
latest_stub none (s ∷ stubs) = latest_stub (some s) stubs
latest_stub (some l) (s ∷ stubs) =
    latest_stub (some (if ltb l.create_index s.create_index then s else l)) stubs

unfoldable pub port_labelled : List HostPort → Option HostPort
port_labelled [] = none
port_labelled (p ∷ ps) =
    let later = port_labelled ps in if p.label == port_label then some p else later

-- The address and the port of the first network that has the port.
unfoldable pub network_port : List Network → Option (String × ℤ)
unfolding port_labelled
network_port [] = none
network_port (nw ∷ nws) = elim (port_labelled (nw.reserved_ports ++ nw.dynamic_ports)) [
  | some p ↦ some (nw.ip, p.value)
  | none ↦ network_port nws
]

shared_port : Option Shared → Option (String × ℤ)
shared_port none = none
shared_port (some s) = elim (port_labelled s.ports) [
  | some p ↦ some (p.host_ip, p.value)
  | none ↦ network_port s.networks
]

older_port : Option (List Network) → Option (String × ℤ)
older_port none = none
older_port (some nws) = network_port nws

-- AllocEvent
pub record AllocEvent : Type 0 where
  pub time : ℤ
  pub type : String
  pub message : String

unfoldable pub alloc_event : TaskEvent → AllocEvent
alloc_event ev = record {
  time = ev.time;
  type = ev.type;
  message = if ev.display_message == "" then ev.message else ev.display_message;
}

task_events : Option (List TaskEvent) → List AllocEvent
task_events none = []
task_events (some events) = map alloc_event events

module _ {W : Type 0} (api : Api W) where
  -- The rest of LatestAlloc; `none` is the nil of a job without allocations.
  unfoldable pub fetch_latest : Option AllocStub → Act W (Result String (Option Allocation))
  fetch_latest none = return (ok none)
  fetch_latest (some stub) = do
    info ← api.alloc_info stub.id
    on_ok info (λ text. return (err (sprint ("fetching allocation " ∷ stub.id ∷ ": " ∷ text ∷ []))))
        λ alloc. return (ok (some alloc))

  -- LatestAlloc
  unfoldable pub latest_alloc : String → Act W (Result String (Option Allocation))
  latest_alloc job_id = do
    listed ← api.allocations job_id
    on_ok listed
        (λ text. return (err (sprint ("listing allocations for " ∷ job_id ∷ ": " ∷ text ∷ []))))
        λ stubs. fetch_latest (latest_stub none stubs)

  -- AllocEvents
  unfoldable pub alloc_events : String → Act W (Result String (List AllocEvent))
  unfolding task_events
  alloc_events alloc_id = do
    info ← api.alloc_info alloc_id
    on_ok info
        (λ text. return (err (sprint ("fetching allocation " ∷ alloc_id ∷ ": " ∷ text ∷ []))))
        λ alloc. return (ok (task_events (lookup task_name alloc.task_states)))

  -- allocEndpoint
  unfoldable pub alloc_endpoint : Allocation → String × ℤ
  unfolding shared_port older_port
  alloc_endpoint alloc = elim (shared_port alloc.allocated) [
    | some (ip, port) ↦ (api.join_host_port ip port, port)
    | none ↦ elim (older_port alloc.resources) [
      | some (ip, port) ↦ (api.join_host_port ip port, port)
      | none ↦ ("", pos 0)
    ]
  ]
