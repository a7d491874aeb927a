-- ===== src/Nomadapi/Stats.antt =====
-- internal/nomadapi/stats.go. The type `F` stands for float64; the calls of the Nomad API that only
-- these functions make are parameters. The uptime as a duration is left out beside its seconds.
use ai_model_scheduler.Base.{
  show_nat, sprint, ok, err, length, ltb_ℤ, ◌==◌, eqb_ℤ, if◌then◌else◌, pos, Result, to_int64, List,
  Option, ℕ, ℤ, String, [], ◌∷◌, none, some,
}
use ai_model_scheduler.Nomadapi.Api.{on_ok, Act, Api, Allocation, ◌>>=◌, return}
use ai_model_scheduler.Bench.Run.{Floats}

-- What a sample of an allocation holds: the CPU ticks, and the resident size with the usage, where
-- the sample has them.
pub record UsageSample (F : Type 0) : Type 0 where
  pub total_ticks : Option F
  pub memory : Option (ℕ × ℕ)

-- What Stats of a node gives: the idle share of each core, the used and the whole memory, the uptime.
pub record HostSample (F : Type 0) : Type 0 where
  pub idle : List F
  pub memory : Option (ℕ × ℕ)
  pub uptime : ℕ

pub record NodeStub : Type 0 where
  pub id : String
  pub name : String
  pub status : String

-- A device of a node: its type, its name and how many instances there are.
pub record Device : Type 0 where
  pub type : String
  pub name : String
  pub instances : ℕ

-- Allocations().Stats, where the usage may be nil, Nodes().List, .Stats and .Info, where the resources
-- may be nil.
pub record StatsApi (F W : Type 0) : Type 0 where
  pub alloc_stats : Allocation → W → Result String (Option (UsageSample F)) × W
  pub nodes : W → Result String (List NodeStub) × W
  pub node_stats : String → W → Result String (HostSample F) × W
  pub node_devices : String → W → Result String (Option (List Device)) × W

-- AllocUsage
pub record AllocUsage (F : Type 0) : Type 0 where
  pub cpu_mhz : F
  pub mem_bytes : ℤ

-- NodeStats
pub record NodeStats (F : Type 0) : Type 0 where
  pub node_id : String
  pub node_name : String
  pub status : String
  pub cpu_percent : F
  pub mem_used : ℤ
  pub mem_total : ℤ
  pub mem_percent : F
  pub uptime_secs : ℤ
  pub gpus : List String

unfoldable pub gpu_names : List Device → List String
gpu_names [] = []
gpu_names (dev ∷ devices) =
    let rest = gpu_names devices in
    if dev.type == "gpu"
    then sprint (dev.name ∷ " ×" ∷ show_nat dev.instances ∷ []) ∷ rest
    else rest

module _ {F : Type 0} (floats : Floats F) (sub : F → F → F) where
  -- busy += 100 - core.Idle
  unfoldable pub busy_from : F → List F → F
  busy_from busy [] = busy
  busy_from busy (idle ∷ cores) =
      busy_from (floats.add busy (sub (floats.of_int (pos 100)) idle)) cores

  unfoldable pub cpu_percent_of : List F → F
  unfolding busy_from
  cpu_percent_of [] = floats.zero
  cpu_percent_of (idle ∷ cores) =
      floats.div (busy_from floats.zero (idle ∷ cores))
        (floats.of_int (pos (length (idle ∷ cores))))

  unfoldable pub mem_percent_of : ℤ → ℤ → F
  mem_percent_of used total =
      if ltb_ℤ (pos 0) total
      then floats.mul (floats.div (floats.of_int used) (floats.of_int total))
          (floats.of_int (pos 100))
      else floats.zero

  unfoldable pub with_memory : Option (ℕ × ℕ) → NodeStats F → NodeStats F
  unfolding mem_percent_of
  with_memory none ns = ns
  with_memory (some (used, total)) ns = record ns {
    mem_used = to_int64 used;
    mem_total = to_int64 total;
    mem_percent = mem_percent_of (to_int64 used) (to_int64 total);
  }

  unfoldable pub with_host : Result String (HostSample F) → NodeStats F → NodeStats F
  unfolding with_memory cpu_percent_of
  with_host (err _) ns = ns
  with_host (ok hs) ns =
      with_memory hs.memory
        (record ns { cpu_percent = cpu_percent_of hs.idle; uptime_secs = to_int64 hs.uptime })

  unfoldable pub with_devices : Result String (Option (List Device)) → NodeStats F → NodeStats F
  unfolding gpu_names
  with_devices (err _) ns = ns
  with_devices (ok none) ns = ns
  with_devices (ok (some devices)) ns = record ns { gpus = gpu_names devices }

  unfoldable pub bare_node : NodeStub → NodeStats F
  bare_node n = record {
    node_id = n.id;
    node_name = n.name;
    status = n.status;
    cpu_percent = floats.zero;
    mem_used = pos 0;
    mem_total = pos 0;
    mem_percent = floats.zero;
    uptime_secs = pos 0;
    gpus = [];
  }

  unfoldable pub mem_bytes_of : ℕ × ℕ → ℤ
  mem_bytes_of (rss, usage) = if eqb_ℤ (to_int64 rss) (pos 0) then to_int64 usage else to_int64 rss

  unfoldable pub usage_of : Option (UsageSample F) → AllocUsage F
  unfolding mem_bytes_of
  usage_of none = record { cpu_mhz = floats.zero; mem_bytes = pos 0 }
  usage_of (some usage) = record {
    cpu_mhz = elim usage.total_ticks [ none ↦ floats.zero | some ticks ↦ ticks ];
    mem_bytes = elim usage.memory [ none ↦ pos 0 | some memory ↦ mem_bytes_of memory ];
  }

  module _ {W : Type 0} (api : Api W) (stats : StatsApi F W) where
    unfoldable pub sampled_usage :
        String → Result String (Option (UsageSample F)) → Result String (AllocUsage F)
    unfolding usage_of
    sampled_usage id (err text) = err (sprint ("fetching stats for " ∷ id ∷ ": " ∷ text ∷ []))
    sampled_usage id (ok usage) = ok (usage_of usage)

    -- AllocStats
    unfoldable pub alloc_stats : String → Act W (Result String (AllocUsage F))
    unfolding sampled_usage
    alloc_stats id = do
      info ← api.alloc_info id
      on_ok info (λ text. return (err (sprint ("fetching allocation " ∷ id ∷ ": " ∷ text ∷ []))))
          λ alloc. do usage ← stats.alloc_stats alloc; return (sampled_usage id usage)

    -- One round of NodeStats.
    unfoldable pub sample_node : NodeStub → Act W (NodeStats F)
    unfolding bare_node with_host with_devices
    sample_node n =
        if n.status == "ready"
        then (do
          host ← stats.node_stats n.id
          devices ← stats.node_devices n.id
          return (with_devices devices (with_host host (bare_node n))))
        else return (bare_node n)

    unfoldable pub sample_each : List NodeStub → Act W (List (NodeStats F))
    unfolding sample_node
    sample_each [] = return []
    sample_each (n ∷ nodes) =
        let rest = sample_each nodes in (do ns ← sample_node n; more ← rest; return (ns ∷ more))

    -- NodeStats
    unfoldable pub node_stats : Act W (Result String (List (NodeStats F)))
    node_stats = do
      listed ← stats.nodes
      on_ok listed (λ text. return (err (sprint ("listing nodes: " ∷ text ∷ []))))
          λ nodes. do out ← sample_each nodes; return (ok out)
