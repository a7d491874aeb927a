-- ===== src/Server/Gpus.antt =====
-- internal/server/api_hardware.go, api_stats.go and api_health.go.
use ai_model_scheduler.Base.{
  sprint, Option, not, ok, if◌then◌else◌, err, ℕ, Result, String, List, [], ◌∷◌, none, some,
}
use ai_model_scheduler.Nomadapi.Api.{Act, Api, ◌>>=◌, return}
use ai_model_scheduler.Bench.Run.{Floats}
use ai_model_scheduler.Nomadapi.Stats.{alloc_stats, node_stats, AllocUsage, StatsApi, NodeStats}
use ai_model_scheduler.Hardware.Service.{
  refresh, stats, entries, Service, is_deployable, GpuUse, Gpu,
}
use ai_model_scheduler.Jobspec.Job.{Env}
use ai_model_scheduler.Server.Replies.{shown, http_error, View, Reply}
use ai_model_scheduler.Nomadapi.Health.{Health}

-- gpusPartialData
pub record GpusData : Type 0 where
  pub gpus : List Gpu
  pub selected : String
  pub error : String

-- nodeStatsData
pub record NodeStatsData (F : Type 0) : Type 0 where
  pub nodes : List (NodeStats F)
  pub gpus : List (GpuUse F)
  pub gpu_note : String

unfoldable pub deployable_gpus : List Gpu → List Gpu
deployable_gpus [] = []
deployable_gpus (g ∷ gpus) =
    let rest = deployable_gpus gpus in if is_deployable g then g ∷ rest else rest

-- gpusPartialData, with the answer of Entries
unfoldable pub gpus_data : String → Result String (List Gpu) → GpusData
unfolding deployable_gpus
gpus_data selected (err text) = record { gpus = []; selected = selected; error = text }
gpus_data selected (ok gpus) = record {
  gpus = deployable_gpus gpus;
  selected = selected;
  error = "";
}

module _ {F : Type 0} where
  unfoldable pub node_stats_data :
      List (NodeStats F) → Result String (List (GpuUse F)) → NodeStatsData F
  node_stats_data nodes (err text) = record { nodes = nodes; gpus = []; gpu_note = text }
  node_stats_data nodes (ok gpus) = record { nodes = nodes; gpus = gpus; gpu_note = "" }

-- apiHealth
unfoldable pub api_health : {W : Type 0} → Act W Health → Act W (ℕ × Health)
api_health health = do h ← health; return (if not h.reachable then 503 else 200, h)

module _ {F W : Type 0} (floats : Floats F) (sub : F → F → F) (api : Api W)
    (stats_api : StatsApi F W) (time : W → ℕ × W) (env : Env) (decode : String → Option Gpu)
    (decode_sample : String → Option (List (GpuUse F))) (fuel : ℕ) where
  unfoldable pub probing : {A : Type 0} → String → Reply String A
  probing text = (502, err (sprint ("probing gpus: " ∷ text ∷ [])))

  unfoldable pub gpus_reply : Result String (List Gpu) × Service → Reply String (List Gpu) × Service
  unfolding probing
  gpus_reply (err text, s) = (probing text, s)
  gpus_reply (ok gpus, s) = ((200, ok gpus), s)

  -- apiListGPUs; the time of the cache is left out of the answer
  unfoldable pub api_list_gpus : Service → Act W (Reply String (List Gpu) × Service)
  unfolding gpus_reply
  api_list_gpus s = do
    got ← entries floats api time env decode decode_sample fuel s
    return (gpus_reply got)

  unfoldable pub listed_after : Option String × Service → Act W (Reply String (List Gpu) × Service)
  unfolding probing
  listed_after (some text, s) = return (probing text, s)
  listed_after (none, s) = api_list_gpus s

  -- apiRefreshGPUs
  unfoldable pub api_refresh_gpus : Service → Act W (Reply String (List Gpu) × Service)
  api_refresh_gpus s = refresh floats api time env decode decode_sample fuel s >>= listed_after

  -- partialGPUs, with the value "gpu" of the form
  unfoldable pub partial_gpus : String → Service → Act W (GpusData × Service)
  unfolding gpus_data
  partial_gpus selected s = do
    got ← entries floats api time env decode decode_sample fuel s
    return (gpus_data selected got.0, got.1)

  unfoldable pub rescanned : String → Option String × Service → Act W (GpusData × Service)
  rescanned selected (some text, s) =
      return (record { gpus = []; selected = selected; error = text }, s)
  rescanned selected (none, s) = partial_gpus selected s

  -- uiRescanGPUs
  unfoldable pub ui_rescan_gpus : String → Service → Act W (GpusData × Service)
  ui_rescan_gpus selected s =
      refresh floats api time env decode decode_sample fuel s >>= rescanned selected

  unfoldable pub stats_reply : {A : Type 0} → String → Result String A → Reply String A
  stats_reply what (err text) = (502, err (sprint ("fetching " ∷ what ∷ " stats: " ∷ text ∷ [])))
  stats_reply what (ok a) = (200, ok a)

  -- apiNodeStats
  unfoldable pub api_node_stats : Act W (Reply String (List (NodeStats F)))
  unfolding stats_reply
  api_node_stats = do got ← node_stats floats sub api stats_api; return (stats_reply "node" got)

  -- apiAllocStats
  unfoldable pub api_alloc_stats : String → Act W (Reply String (AllocUsage F))
  unfolding stats_reply
  api_alloc_stats id = do
    got ← alloc_stats floats sub api stats_api id
    return (stats_reply "allocation" got)

  -- apiGPUStats
  unfoldable pub api_gpu_stats : Service → Act W (Reply String (List (GpuUse F)) × Service)
  unfolding stats_reply
  api_gpu_stats s = do
    got ← stats floats api time env decode decode_sample fuel s
    return (stats_reply "gpu" got.0, got.1)

  unfoldable pub node_stats_view :
      Service → Result String (List (NodeStats F)) → Act W (View (NodeStatsData F) × Service)
  unfolding node_stats_data
  node_stats_view s (err text) = return (http_error 502 text, s)
  node_stats_view s (ok nodes) = do
    got ← stats floats api time env decode decode_sample fuel s
    return (shown (node_stats_data nodes got.0), got.1)

  -- partialNodeStats
  unfoldable pub partial_node_stats : Service → Act W (View (NodeStatsData F) × Service)
  partial_node_stats s = node_stats floats sub api stats_api >>= node_stats_view s
