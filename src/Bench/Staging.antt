-- ===== src/Bench/Staging.antt =====
-- internal/bench/runner.go: `stageDataset` and `purgeJobs`. The packed dataset, gzip in base64, is a
-- list of characters.
use ai_model_scheduler.Base.{
  path_join, String, ℕ, zero, suc, ◌+◌, ◌*◌, ℤ, not, ◌||◌, List, [], ◌∷◌, ◌++◌, Option, none, some,
  length, Result, ok, err, if◌then◌else◌, ◌==◌, ltb, eqb, sprint, show_nat, code,
}
use Prim.Native.Char.{Char}
use ai_model_scheduler.Jobspec.Job.{Env}
use ai_model_scheduler.Jobspec.BenchJobs.{BenchStage, bench_stage_job, bench_job_prefix, bench_dir}
use ai_model_scheduler.Bench.Eval.{uses_dataset}
use ai_model_scheduler.Bench.Run.{Run}
use ai_model_scheduler.Bench.Cluster.{
  Cluster, Host, M, pure, ◌>>=◌, ◌>>◌, read, act, if_err, on_result, registered, purged,
}
use ai_model_scheduler.Bench.Polling.{wait_batch, seconds}

pub record StagedDataset : Type 0 where
  pub dir : String
  pub sha256 : String

abbrev pub stage_chunk_bytes : ℕ
stage_chunk_bytes = 256 * 1024

abbrev pub stage_parallel : ℕ
stage_parallel = 4

module _ {ℓ} {A : Type ℓ} where
  unfoldable pub take : ℕ → List A → List A
  take zero xs = []
  take (suc n) [] = []
  take (suc n) (x ∷ xs) = x ∷ take n xs

  unfoldable pub drop : ℕ → List A → List A
  drop zero xs = xs
  drop (suc n) [] = []
  drop (suc n) (x ∷ xs) = drop n xs

  -- for len(encoded) > size { … } and the rest as the last part: no more rounds than there are items
  unfoldable pub split_parts : ℕ → ℕ → List A → List (List A)
  split_parts zero size xs = xs ∷ []
  split_parts (suc rounds) size xs =
      let rest = take size xs ∷ split_parts rounds size (drop size xs) in
      if ltb size (length xs) then rest else xs ∷ []

  unfoldable pub chunks : ℕ → List A → List (List A)
  chunks size xs = split_parts (length xs) size xs

last_dash : String → String → String
last_dash tail String.[] = tail
last_dash tail (String.◌∷◌ c s) = if eqb (code c) b'-' then last_dash s s else last_dash tail s

-- Short: what follows the last dash of an ID
unfoldable pub short : String → String
unfolding last_dash
short id = last_dash id id

-- %04d
unfoldable pub pad4 : ℕ → String
pad4 n =
    if ltb n 10
    then sprint ("000" ∷ show_nat n ∷ [])
    else if ltb n 100
    then sprint ("00" ∷ show_nat n ∷ [])
    else if ltb n 1000
    then sprint ("0" ∷ show_nat n ∷ [])
    else show_nat n

of_chars : List Char → String
of_chars [] = ""
of_chars (c ∷ cs) = String.◌∷◌ c (of_chars cs)

-- The staging job of one part.
unfoldable pub stage_job_id : String → ℕ → String
unfolding short
stage_job_id run_id i = sprint (bench_job_prefix ∷ short run_id ∷ "-stage-" ∷ show_nat i ∷ [])

unfoldable pub part_job : Env → String → String → ℕ → List Char → BenchStage
unfolding pad4 of_chars
part_job env run_id dir i part = record {
  job_id = stage_job_id run_id i;
  dir = dir;
  name = sprint ("part-" ∷ pad4 i ∷ []);
  content = of_chars part;
}

unfoldable pub staging_error : String → String
staging_error text = sprint ("staging dataset: " ∷ text ∷ [])

module _ {F W : Type 0} (cluster : Cluster F W) (host : Host F W) (env : Env) (fuel : ℕ) where
  unfoldable pub purge_job : String → M F W (Option String)
  purge_job id = act (purged id) (cluster.purge_job id)

  -- purgeJobs: a failure is only logged.
  unfoldable pub purge_jobs : List String → M F W (Unit {0})
  purge_jobs [] = pure tt
  purge_jobs (id ∷ ids) = do purge_job id; purge_jobs ids

  -- Registers the parts of one batch; the IDs so far are those that were registered.
  unfoldable pub register_parts :
      String → String → ℕ → List (List Char) → List String → M F W (Result String (List String))
  register_parts run_id dir i [] ids = pure (ok ids)
  register_parts run_id dir i (part ∷ parts) ids = do
    let spec = part_job env run_id dir i part
    let job = bench_stage_job env spec
    e ← act (registered job) (cluster.register_job job)
    if_err e (λ text. do purge_jobs ids; pure (err (staging_error text)))
        (register_parts run_id dir (suc i) parts (ids ++ spec.job_id ∷ []))

  unfoldable pub finish_batch : Option (Result String (Unit {0})) → M F W (Result String (Unit {0}))
  finish_batch none = pure (err "out of fuel")
  finish_batch (some r) = pure r

  -- for start := 0; start < len(parts); start += stageParallel: no more rounds than there are parts
  unfoldable pub stage_batches :
      ℕ → String → String → ℤ → ℕ → List (List Char) → M F W (Result String (Unit {0}))
  unfolding finish_batch
  stage_batches zero run_id dir timeout i parts = pure (ok tt)
  stage_batches (suc rounds) run_id dir timeout i parts =
      if eqb (length parts) 0 then pure (ok tt) else do
        registered_ids ← register_parts run_id dir i (take stage_parallel parts) []
        on_result registered_ids (λ text. pure (err text))
            λ ids. do
              start ← read host.now
              waited ← wait_batch cluster host fuel start timeout ids
              purge_jobs ids
              outcome ← finish_batch waited
              on_result outcome (λ text. pure (err (staging_error text)))
                  λ _.
                    stage_batches rounds run_id dir timeout (i + stage_parallel)
                      (drop stage_parallel parts)

  unfoldable pub stage_parts : Run F → String → List (List Char) → M F W (Result String (Unit {0}))
  stage_parts run dir parts =
      stage_batches (length parts) run.id dir (seconds run.eval.ready_timeout_sec) 0 parts

  -- stageDataset; `none` where the run uses no uploaded dataset
  unfoldable pub stage_dataset : Run F → M F W (Result String (Option StagedDataset))
  stage_dataset run =
      if not (uses_dataset run.eval) || run.eval.dataset_id == "" then pure (ok none) else do
        content ← read (host.read_dataset run.eval.dataset_id)
        on_result content (λ text. pure (err (sprint ("reading dataset: " ∷ text ∷ []))))
            λ bytes.
              on_result (host.pack bytes)
                (λ text. pure (err (sprint ("compressing dataset: " ∷ text ∷ []))))
                λ packed. do
                  let dir = path_join (bench_dir ∷ run.id ∷ "dataset" ∷ [])
                  done ← stage_parts run dir (chunks stage_chunk_bytes packed)
                  on_result done (λ text. pure (err text))
                      λ _. pure (ok (some (record { dir = dir; sha256 = host.digest bytes })))
