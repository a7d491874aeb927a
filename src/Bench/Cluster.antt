-- ===== src/Bench/Cluster.antt =====
-- internal/bench/runner.go: the interface `Cluster`, and what else the runner asks of its host: the
-- clock, the context, the store and the codecs. Each answer may depend on all that happened before,
-- which is the state `W`. The log beside it records the calls that change something, with their
-- outcomes, the oldest first: statements speak about it, and no operation reads it.
use ai_model_scheduler.Base.{
  String, ℕ, ℤ, Bool, List, [], ◌∷◌, ◌++◌, Option, none, some, Result, ok, err,
}
use Prim.Native.Char.{Char}
use ai_model_scheduler.Jobspec.Params.{Params}
use ai_model_scheduler.Jobspec.Job.{Job}
use ai_model_scheduler.Nomadapi.Deployment.{Deployment}
use ai_model_scheduler.Bench.Run.{Run, Metrics}

-- internal/hardware/stats.go, as far as the runner reads a sample
pub record GpuStats (F : Type 0) : Type 0 where
  pub vendor : String
  pub vram_used : ℤ
  pub util_percent : F

pub record Cluster (F W : Type 0) : Type 0 where
  pub list_managed : W → Result String (List Deployment) × W
  pub deployment_params : String → W → Option Params × W
  pub deploy : Params → W → Option String × W
  pub stop : String → Bool → W → Option String × W
  pub register_job : Job → W → Option String × W
  pub batch_status : String → W → Result String (String × String) × W
  pub read_logs : String → Bool → W → (String × Option String) × W
  pub failure_reason : String → W → String × W
  pub task_exits : String → W → List String × W
  pub purge_job : String → W → Option String × W
  pub purge_jobs_with_prefix : String → W → Option String × W
  pub gpu_stats : W → Result String (List (GpuStats F)) × W

-- time.Now, ctx.Err() != nil, the select of ctx.Done() against time.After(Poll) (true if the context
-- ended), Store.SaveRun, Store.ReadDataset and Store.ListRuns; then gzip with base64, SHA-256,
-- json.Unmarshal of a result and Duration.String.
pub record Host (F W : Type 0) : Type 0 where
  pub now : W → ℕ × W
  pub cancelled : W → Bool × W
  pub wait : W → Bool × W
  pub save_run : Run F → W → Option String × W
  pub read_dataset : String → W → Result String String × W
  pub list_runs : W → Result String (List (Run F)) × W
  pub pack : String → Result String (List Char)
  pub digest : String → String
  pub decode_metrics : String → Result String (Metrics F)
  pub show_duration : ℤ → String

pub data Call (F : Type 0) : Type 0 where
  deployed : Params → Option String → Call F
  stopped : String → Bool → Option String → Call F
  registered : Job → Option String → Call F
  purged : String → Option String → Call F
  purged_prefix : String → Option String → Call F
  saved : Run F → Option String → Call F
  finished : Run F → Call F

pub record State (F W : Type 0) : Type 0 where
  pub world : W
  pub log : List (Call F)

abbrev pub M : Type 0 → Type 0 → Type 0 → Type 0
M F W A = State F W → A × State F W

module _ {F W : Type 0} where
  unfoldable pub pure : {A : Type 0} → A → M F W A
  pure a s = (a, s)

  infixl 5 ◌>>=◌ ◌>>◌
  unfoldable pub ◌>>=◌ : {A B : Type 0} → M F W A → (A → M F W B) → M F W B
  unfolding pure
  ◌>>=◌ m f s = let (a, s') = m s in f a s'

  abbrev pub ◌>>◌ : {A B : Type 0} → M F W A → M F W B → M F W B
  m >> k = m >>= λ _. k

  -- A call that only reads.
  unfoldable pub read : {A : Type 0} → (W → A × W) → M F W A
  read op s = let (a, w) = op s.world in (a, record s { world = w })

  -- A call that changes something, with its record.
  unfoldable pub act : (Option String → Call F) → (W → Option String × W) → M F W (Option String)
  act c op s = let (e, w) = op s.world in (e, record { world = w; log = s.log ++ (c e ∷ []) })

  -- A record with no call: what the process does to itself.
  unfoldable pub note : Call F → M F W (Unit {0})
  note c s = (tt, record s { log = s.log ++ (c ∷ []) })

  -- if err != nil { … } and the code after it
  unfoldable pub if_err : {A : Type 0} → Option String → (String → M F W A) → M F W A → M F W A
  if_err (some text) failed go_on = failed text
  if_err none failed go_on = go_on

  -- x, err := …; if err != nil { … } and the code after it
  unfoldable pub on_result : {E A B : Type 0} → Result E A → (E → M F W B) → (A → M F W B) → M F W B
  on_result (err e) failed go_on = failed e
  on_result (ok a) failed go_on = go_on a
