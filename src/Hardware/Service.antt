-- ===== src/Hardware/Service.antt =====
-- internal/hardware/hardware.go and stats.go. The mutex and the log are left out: the program's one
-- background sampler and its requests are taken one after the other. Times are in nanoseconds.
use ai_model_scheduler.Base.{
  any, ok, err, Result, pos, ltb_ℤ, contains, ◌&&◌, ◌||◌, sprint, ◌-◌, if◌then◌else◌, map,
  trim_space, split, ltb, not, ◌==◌, List, Option, ℕ, ℤ, Bool, String, [], ◌∷◌, none, some, true,
  false,
}
use ai_model_scheduler.Nomadapi.Api.{return, Allocation, Act, Api, ◌>>=◌}
use ai_model_scheduler.Bench.Run.{Floats}
use ai_model_scheduler.Nomadapi.Lines.{decode_line, decode_lines}
use ai_model_scheduler.Jobspec.Job.{Env}
use ai_model_scheduler.Nomadapi.Dispatch.{
  batch_failure_reason, wait_for_batch, dispatch, BatchResult,
}
use ai_model_scheduler.Nomadapi.Listing.{stop_job, register}
use ai_model_scheduler.Nomadapi.Allocs.{latest_alloc}
use ai_model_scheduler.Nomadapi.Logs.{read_all_logs, tail_logs}
use ai_model_scheduler.Jobspec.Helpers.{
  gpu_stats_job_id, gpu_probe_job_id, gpu_probe, gpu_stats_agent,
}
use ai_model_scheduler.Jobspec.Common.{task_name}

-- GPU
pub record Gpu : Type 0 where
  pub index : ℤ
  pub vendor : String
  pub name : String
  pub pci : String

-- GPUStats
pub record GpuUse (F : Type 0) : Type 0 where
  pub vendor : String
  pub name : String
  pub pci : String
  pub util_percent : F
  pub vram_used : ℤ
  pub vram_total : ℤ
  pub vram_percent : F
  pub temp_c : F
  pub power_w : F

unfoldable pub is_deployable : Gpu → Bool
is_deployable g = g.vendor == "nvidia" || g.vendor == "amd" || g.vendor == "intel"

abbrev pub probe_ttl : ℕ
probe_ttl = 3600000000000

abbrev pub ensure_agent_every : ℕ
ensure_agent_every = 600000000000

-- Service; no `fetched` is its zero time
pub record Service : Type 0 where
  pub gpus : List Gpu
  pub fetched : Option ℕ
  pub agent_ensured : Option Bool
  pub agent_ensured_at : ℕ

unfoldable pub is_named : Gpu → Bool
is_named g = not (g.vendor == "") && not (g.name == "")

-- parseProbe
unfoldable pub parse_probe : (String → Option Gpu) → String → List Gpu
unfolding is_named
parse_probe decode out = decode_lines decode is_named (split 10 out)

-- The last of the lines that is a sample.
unfoldable pub last_sample : {A : Type 0} → (String → Option A) → List String → Option A
last_sample decode [] = none
last_sample decode (line ∷ lines) = elim (last_sample decode lines) [
  | some a ↦ some a
  | none ↦ if contains line "\"gpus\"" then decode_line decode line else none
]

-- latestSample
unfoldable pub latest_sample : {A : Type 0} → (String → Option A) → String → Option A
unfolding last_sample
latest_sample decode tail = last_sample decode (split 10 tail)

-- byPCI: a later GPU replaces an earlier one
unfoldable pub by_pci : String → List Gpu → Option Gpu
by_pci pci [] = none
by_pci pci (g ∷ gpus) = elim (by_pci pci gpus) [
  | some later ↦ some later
  | none ↦ if g.pci == pci && not (pci == "") then some g else none
]

-- byVendor
unfoldable pub by_vendor : String → List Gpu → List Gpu
by_vendor vendor [] = []
by_vendor vendor (g ∷ gpus) =
    let rest = by_vendor vendor gpus in if g.vendor == vendor then g ∷ rest else rest

-- The name of a vendor's only GPU, else its vendor and address.
unfoldable pub vendor_name : String → String → List Gpu → String
vendor_name vendor pci (g ∷ []) = g.name
vendor_name vendor pci _ = trim_space (sprint (vendor ∷ " " ∷ pci ∷ []))

module _ {F : Type 0} (floats : Floats F) where
  unfoldable pub name_for : List Gpu → GpuUse F → String
  unfolding vendor_name
  name_for probed g = if not (g.name == "") then g.name else elim (by_pci g.pci probed) [
    | some p ↦ p.name
    | none ↦ vendor_name g.vendor g.pci (by_vendor g.vendor probed)
  ]

  -- enrichNames, at one GPU
  unfoldable pub enrich_name : List Gpu → GpuUse F → GpuUse F
  unfolding name_for
  enrich_name probed g = record g {
    name = name_for probed g;
    vram_percent =
        if ltb_ℤ (pos 0) g.vram_total
        then floats.mul (floats.div (floats.of_int g.vram_used) (floats.of_int g.vram_total))
            (floats.of_int (pos 100))
        else g.vram_percent;
  }

  unfoldable pub enrich_names : List Gpu → List (GpuUse F) → List (GpuUse F)
  unfolding enrich_name
  enrich_names probed gpus = map (enrich_name probed) gpus

-- time.Since(t) < d, with the zero time long ago
unfoldable pub is_fresh : Option ℕ → ℕ → ℕ → Bool
is_fresh none now ttl = false
is_fresh (some t) now ttl = ltb (now - t) ttl

module _ {F W : Type 0} (floats : Floats F) (api : Api W) (time : W → ℕ × W) (env : Env)
    (decode : String → Option Gpu) (decode_sample : String → Option (List (GpuUse F)))
    (fuel : ℕ) where
  -- The output of the probe, read; the error of the logs counts if nothing was read.
  unfoldable pub store_probe : Service → String × Option String → Act W (Option String × Service)
  store_probe s (stdout, none) = do
    now ← time
    return (none, record s { gpus = parse_probe decode stdout; fetched = some now })
  store_probe s (stdout, some text) =
      if stdout == ""
      then return (some (sprint ("reading gpu probe output: " ∷ text ∷ [])), s)
      else (do
        now ← time
        return (none, record s { gpus = parse_probe decode stdout; fetched = some now }))

  -- What the end of the wait gives; `none` is no fuel left.
  unfoldable pub read_probe :
      Service → Option (Result String BatchResult) → Act W (Option String × Service)
  read_probe s none = return (some "out of fuel", s)
  read_probe s (some (err text)) = return (some text, s)
  read_probe s (some (ok res)) =
      if not (res.client_status == "complete")
      then (do
        reason ← batch_failure_reason api res.alloc_id
        return (some (sprint ("gpu probe failed: " ∷ reason ∷ [])), s))
      else (read_all_logs api res.alloc_id task_name "stdout" >>= store_probe s)

  -- The probe is purged whatever came of it; the error of that is only logged.
  unfoldable pub await_probe : Service → Result String String → Act W (Option String × Service)
  await_probe s (err text) = return (some text, s)
  await_probe s (ok id) = do
    waited ← wait_for_batch api fuel id
    outcome ← read_probe s waited
    purged ← stop_job api id true
    return outcome

  unfoldable pub dispatch_probe : Service → Option String → Act W (Option String × Service)
  dispatch_probe s (some text) =
      return (some (sprint ("registering gpu probe job: " ∷ text ∷ [])), s)
  dispatch_probe s none = dispatch api gpu_probe_job_id [] >>= await_probe s

  -- Refresh
  unfoldable pub refresh : Service → Act W (Option String × Service)
  refresh s = register api (gpu_probe env) >>= dispatch_probe s

  -- What Entries answers after a probe: an error only if nothing was ever fetched.
  unfoldable pub answer_entries :
      Option ℕ → List Gpu → Option String × Service → Result String (List Gpu) × Service
  answer_entries fetched gpus (none, s) = (ok s.gpus, s)
  answer_entries none gpus (some text, s) = (err text, s)
  answer_entries (some t) gpus (some text, s) = (ok gpus, s)

  -- Entries, without the time of the cache
  unfoldable pub entries : Service → Act W (Result String (List Gpu) × Service)
  unfolding is_fresh
  entries s = do
    now ← time
    (if is_fresh s.fetched now probe_ttl
        then return (ok s.gpus, s)
        else (do outcome ← refresh s; return (answer_entries s.fetched s.gpus outcome)))

  unfoldable pub is_ensured : Service → Bool → ℕ → Bool
  is_ensured s nvidia now = elim s.agent_ensured [
    | none ↦ false
    | some was ↦
        (if was then nvidia else not nvidia) && ltb (now - s.agent_ensured_at) ensure_agent_every
  ]

  unfoldable pub note_agent : Service → Bool → Option String → Act W (Option String × Service)
  note_agent s nvidia (some text) = return (some text, s)
  note_agent s nvidia none = do
    now ← time
    return (none, record s { agent_ensured = some nvidia; agent_ensured_at = now })

  -- ensureAgent
  unfoldable pub ensure_agent : Service → Bool → Act W (Option String × Service)
  unfolding is_ensured
  ensure_agent s nvidia = do
    now ← time
    (if is_ensured s nvidia now
        then return (none, s)
        else (register api (gpu_stats_agent env nvidia) >>= note_agent s nvidia))

  unfoldable pub enriched :
      Service → Option (List (GpuUse F)) → Result String (List (GpuUse F)) × Service
  enriched s none = (err "gpu stats agent starting", s)
  enriched s (some gpus) = (ok (enrich_names floats s.gpus gpus), s)

  unfoldable pub read_sample :
      Service → String × Option String → Result String (List (GpuUse F)) × Service
  read_sample s (tail, none) = enriched s (latest_sample decode_sample tail)
  read_sample s (tail, some text) =
      if tail == ""
      then (err (sprint ("reading gpu stats: " ∷ text ∷ [])), s)
      else enriched s (latest_sample decode_sample tail)

  unfoldable pub read_agent :
      Service
      → Result String (Option Allocation)
      → Act W (Result String (List (GpuUse F)) × Service)
  read_agent s (err text) = return (err text, s)
  read_agent s (ok none) = return (err "gpu stats agent starting", s)
  read_agent s (ok (some alloc)) =
      if not (alloc.client_status == "running")
      then return (err "gpu stats agent starting", s)
      else (do tail ← tail_logs api alloc.id task_name "stdout" 8192; return (read_sample s tail))

  unfoldable pub sample_agent :
      Option String × Service → Act W (Result String (List (GpuUse F)) × Service)
  sample_agent (some text, s) = return (err (sprint ("starting gpu stats agent: " ∷ text ∷ [])), s)
  sample_agent (none, s) = latest_alloc api gpu_stats_job_id >>= read_agent s

  unfoldable pub stats_of :
      Result String (List Gpu) × Service → Act W (Result String (List (GpuUse F)) × Service)
  stats_of (err text, s) = return (err text, s)
  stats_of (ok probed, s) =
      if not (any is_deployable probed)
      then return (ok [], s)
      else (ensure_agent s (any (λ g. g.vendor == "nvidia") probed) >>= sample_agent)

  -- Stats
  unfoldable pub stats : Service → Act W (Result String (List (GpuUse F)) × Service)
  stats s = entries s >>= stats_of
