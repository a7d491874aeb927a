-- ===== src/Bench/Watch.antt =====
-- internal/bench/runner.go: `watchEval`, on fuel.
use ai_model_scheduler.Base.{
  String, ℕ, zero, suc, ℤ, pos, ltb_ℤ, Bool, true, false, not, ◌&&◌, ◌||◌, List, [], ◌∷◌, Option,
  none, some, Result, ok, err, if◌then◌else◌, ◌==◌, leb, eqb, sprint, ◌+ℤ◌,
}
use ai_model_scheduler.Nomadapi.Deployment.{Deployment}
use ai_model_scheduler.Bench.Run.{Floats, ConfigResult, Metrics, Resources}
use ai_model_scheduler.Bench.Cluster.{
  Cluster, Host, GpuStats, M, pure, ◌>>=◌, ◌>>◌, read, on_result,
}
use ai_model_scheduler.Bench.Polling.{find_deployment, first_line, is_after, wrap_ℤ}
use ai_model_scheduler.Bench.Output.{last_progress, parse_eval_output}

-- deploymentStopped
unfoldable pub deployment_stopped : Deployment → Bool
deployment_stopped d =
    d.alloc_status == "complete"
    || d.alloc_status == "failed"
    || d.alloc_status == "lost"
    || d.status == "dead"

-- The sightings in a row without the deployment; a listing that failed counts as none.
unfoldable pub count_gone : String → Result String (List Deployment) → ℕ → ℕ
count_gone name (err _) gone = gone
count_gone name (ok deps) gone = elim (find_deployment name deps) [
  | none ↦ suc gone
  | some d ↦ if deployment_stopped d then suc gone else 0
]

-- `resources` and `utilSum` while the loop runs.
pub record Usage (F : Type 0) : Type 0 where
  pub peak : ℤ
  pub util_sum : F
  pub samples : ℕ

module _ {F : Type 0} (floats : Floats F) where
  abbrev pub no_usage : Usage F
  no_usage = record { peak = pos 0; util_sum = floats.zero; samples = 0 }

  -- vram, util and n over the vendor's GPUs of one sample
  unfoldable pub sum_gpus : String → ℤ → F → ℕ → List (GpuStats F) → ℤ × F × ℕ
  sum_gpus vendor vram util n [] = (vram, util, n)
  sum_gpus vendor vram util n (g ∷ gs) =
      let counted =
        sum_gpus vendor (wrap_ℤ (vram +ℤ g.vram_used)) (floats.add util g.util_percent) (suc n)
          gs in
      let unknown = sum_gpus vendor (wrap_ℤ (vram +ℤ g.vram_used)) util n gs in
      let other = sum_gpus vendor vram util n gs in
      if not (g.vendor == vendor)
      then other
      else if floats.le floats.zero g.util_percent
      then counted
      else unknown

  unfoldable pub add_sample : String → List (GpuStats F) → Usage F → Usage F
  add_sample vendor gpus u =
      let (vram, util, n) = sum_gpus vendor (pos 0) floats.zero 0 gpus in
      record {
        peak = if ltb_ℤ u.peak vram then vram else u.peak;
        util_sum =
            if eqb n 0
            then u.util_sum
            else floats.add u.util_sum (floats.div util (floats.of_int (pos n)));
        samples = if eqb n 0 then u.samples else suc u.samples;
      }

  unfoldable pub as_resources : Usage F → Resources F
  as_resources u = record {
    peak_vram_bytes = u.peak;
    avg_util =
        if eqb u.samples 0
        then floats.zero
        else floats.div u.util_sum (floats.of_int (pos u.samples));
    samples = u.samples;
  }

-- What the loop returns, beside the result that it may have updated.
abbrev pub Watched : Type 0 → Type 0
Watched F = Option (Result String (Metrics F × Resources F)) × ConfigResult F

module _ {F W : Type 0} (floats : Floats F) (cluster : Cluster F W) (host : Host F W)
    (save : ConfigResult F → M F W (Unit {0})) where
  -- A progress line that is new is stored.
  unfoldable pub note_progress : String × Option String → ConfigResult F → M F W (ConfigResult F)
  note_progress (tail, some _) res = pure res
  note_progress (tail, none) res =
      let p = last_progress tail in
      if not (p == "") && not (p == res.progress)
      then (do save (record res { progress = p }); pure (record res { progress = p }))
      else pure res

  unfoldable pub sample_gpus : String → Usage F → M F W (Usage F)
  sample_gpus vendor u = if vendor == "" then pure u else do
    answer ← read cluster.gpu_stats
    on_result answer (λ _. pure u) (λ gpus. pure (add_sample floats vendor gpus u))

  -- The eval job is complete: its output, if any was read, holds the metrics.
  unfoldable pub read_result :
      String × Option String → Usage F → Result String (Metrics F × Resources F)
  read_result (stdout, e) u =
      let parsed = parse_eval_output host.decode_metrics stdout in
      let outcome : Result String (Metrics F × Resources F) = elim parsed [
        | ok m ↦ ok (m, as_resources floats u)
        | err text ↦ err text
      ] in
      elim e [
        | none ↦ outcome
        | some text ↦
            if stdout == "" then err (sprint ("reading eval output: " ∷ text ∷ [])) else outcome
      ]

  unfoldable pub stopped_message : ConfigResult F → String
  stopped_message res = sprint ("deployment " ∷ res.deployment ∷ " stopped during the eval" ∷ [])

  -- The end of a round: the deadline, then the wait for the next round.
  unfoldable pub end_round : ℕ → ℤ → ConfigResult F → M F W (Watched F) → M F W (Watched F)
  end_round start timeout res next = do
    t ← read host.now
    if is_after start timeout t
        then pure (
          some (err (sprint ("eval did not finish within " ∷ host.show_duration timeout ∷ []))),
          res,
        )
        else (do ended ← read host.wait; if ended then pure (some (err "cancelled"), res) else next)

  unfoldable pub watch_eval : ℕ → String → ℕ → ℤ → ℕ → Usage F → ConfigResult F → M F W (Watched F)
  watch_eval zero job_id start timeout gone u res = pure (none, res)
  watch_eval (suc fuel) job_id start timeout gone u res = do
    listing ← read cluster.list_managed
    let gone' = count_gone res.deployment listing gone
    let go_on = λ (u' : Usage F) (res' : ConfigResult F).
        end_round start timeout res' (watch_eval fuel job_id start timeout gone' u' res')
    if leb 2 gone' then pure (some (err (stopped_message res)), res) else do
      answer ← read (cluster.batch_status job_id)
      on_result answer (λ _. go_on u res)
          λ (alloc, status).
            if alloc == ""
            then go_on u res
            else if status == "complete"
            then (do
              output ← read (cluster.read_logs alloc true)
              pure (some (read_result output u), res))
            else if status == "failed"
            then (do
              reason ← read (cluster.failure_reason alloc)
              pure (some (err (sprint ("eval job failed: " ∷ first_line reason ∷ []))), res))
            else if status == "running"
            then (do
              tail ← read (cluster.read_logs alloc false)
              res' ← note_progress tail res
              u' ← sample_gpus res.config.gpu u
              go_on u' res')
            else go_on u res
