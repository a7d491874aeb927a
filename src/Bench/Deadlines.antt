-- ===== src/Bench/Deadlines.antt =====
-- internal/bench/runner.go: `waitBatch`, `waitHealthy` and `watchEval` return, at the deadline at the
-- latest, for all answers of the cluster.
use ai_model_scheduler.Bench.Cluster.{pure, ◌>>=◌, act, State, M, Host, Cluster}
use ai_model_scheduler.Bench.Clock.{poll-Leads, Since-Reads, deadline, Enough, Clock, Since}
use ai_model_scheduler.Bench.Polling.{count_miss, late_deployment, wait_batch, wait_healthy}
use ai_model_scheduler.Bench.Run.{Run, ConfigResult, Floats}
use ai_model_scheduler.Base.{
  IsSome, ◌<◌, refl, false, zero, true, length, eqb, ◌==◌, leb, err, some, [], ◌≤◌, ◌+◌, suc, arith,
  List, String, ℤ, ℕ,
}
use ai_model_scheduler.Bench.Keeps.{Keeps-pure, Keeps-bind, Keeps}
use ai_model_scheduler.Bench.Watch.{count_gone, end_round, Watched, Usage, watch_eval}
use ai_model_scheduler.Nomadapi.Deployment.{Deployment}
use ai_model_scheduler.Bench.Leads.{
  Leads-after_scan, Leads-pure, Leads-if, Leads-on_result, Leads-Keeps, Leads-bind, Leads,
}
use ai_model_scheduler.Bench.Reading.{
  Keeps-sample_gpus, Keeps-note_progress, Keeps-scan_listing, Keeps-poll_pending,
}
use ai_model_scheduler.Bench.Stopping.{save}
use ai_model_scheduler.Bench.Configs.{whole, Focus}

module _ {F W : Type 0} (cluster : Cluster F W) (host : Host F W) (clock : Clock cluster host) where
  wait_batch-Leads :
      (fuel k start : ℕ) (timeout : ℤ) (pending : List String)
      → Enough cluster host clock start timeout fuel k
      → Leads
          (Since cluster host clock k)
          (wait_batch cluster host fuel start timeout pending)
          (λ r _. IsSome r)
  unfolding wait_batch Enough
  wait_batch-Leads zero k start timeout pending enough = absurd (ground (arith, enough))
  wait_batch-Leads (suc fuel) k start timeout pending enough =
      Leads-bind (λ _. Since cluster host clock k) _ _
        (Leads-Keeps _
          (Keeps-poll_pending cluster host (Since-Reads cluster host clock k) [] pending))
        λ polled.
          Leads-on_result polled _ _ (λ text. Leads-pure _ λ s h. (_, refl))
            λ still.
              Leads-if (eqb (length still) 0) _ _ (λ _. Leads-pure _ λ s h. (_, refl))
                λ _.
                  poll-Leads cluster host clock start timeout fuel k _ _ _ enough.1
                    (λ t s. (_, refl)) (λ s. (_, refl))
                    (wait_batch-Leads fuel (suc k) start timeout still)

  wait_healthy-Leads :
      (fuel k : ℕ) (name : String) (start : ℕ) (timeout : ℤ) (last : Deployment) (misses : ℕ)
      → Enough cluster host clock start timeout fuel k
      → Leads
          (Since cluster host clock k)
          (wait_healthy cluster host fuel name start timeout last misses)
          (λ r _. IsSome r)
  unfolding wait_healthy Enough
  wait_healthy-Leads zero k name start timeout last misses enough = absurd (ground (arith, enough))
  wait_healthy-Leads (suc fuel) k name start timeout last misses enough =
      let reads = Since-Reads cluster host clock k in
      let again = λ (d : Deployment) (m : ℕ).
        poll-Leads cluster host clock start timeout fuel k
          (λ _. some (err (late_deployment cluster host timeout d))) (some (err "cancelled")) _
          enough.1 (λ t s. (_, refl)) (λ s. (_, refl))
          (wait_healthy-Leads fuel (suc k) name start timeout d m) in
      Leads-bind (λ _. Since cluster host clock k) _ _ (Leads-Keeps _ reads.list_managed)
        λ listing.
          Leads-on_result listing _ _ (λ _. again last misses)
            λ deps.
              Leads-if (leb 2 (count_miss cluster host name deps misses)) _ _
                (λ _. Leads-pure _ λ s h. (_, refl))
                λ _.
                  Leads-bind (λ _. Since cluster host clock k) _ _
                    (Leads-Keeps _ (Keeps-scan_listing cluster host reads name last deps))
                    λ seen.
                      Leads-after_scan seen _ _ (λ outcome. Leads-pure _ λ s h. (_, refl))
                        λ d. again d (count_miss cluster host name deps misses)

module _ {F W : Type 0} (cluster : Cluster F W) (host : Host F W) (clock : Clock cluster host)
    (floats : Floats F) (save : ConfigResult F → M F W (Unit {0}))
    (keep : (k : ℕ) (res : ConfigResult F) → Keeps (Since cluster host clock k) (save res)) where
  end_round-Leads :
      (fuel k start : ℕ) (timeout : ℤ) (res : ConfigResult F) (next : M F W (Watched F))
      → deadline start timeout + 2 ≤ suc fuel + k
      → (Enough cluster host clock start timeout fuel (suc k)
          → Leads (Since cluster host clock (suc k)) next (λ watched _. IsSome watched.0))
      → Leads
          (Since cluster host clock k)
          (end_round floats cluster host save start timeout res next)
          (λ watched _. IsSome watched.0)
  unfolding end_round
  end_round-Leads fuel k start timeout res next enough go =
      poll-Leads cluster host clock {Q = λ watched _. IsSome watched.0} start timeout fuel k _ _
        next enough (λ t s. (_, refl)) (λ s. (_, refl)) go

  watch_eval-Leads :
      (fuel k : ℕ) (job_id : String) (start : ℕ) (timeout : ℤ) (gone : ℕ) (u : Usage F)
      (res : ConfigResult F)
      → Enough cluster host clock start timeout fuel k
      → Leads
          (Since cluster host clock k)
          (watch_eval floats cluster host save fuel job_id start timeout gone u res)
          (λ watched _. IsSome watched.0)
  unfolding watch_eval Enough
  watch_eval-Leads zero k job_id start timeout gone u res enough = absurd (ground (arith, enough))
  watch_eval-Leads (suc fuel) k job_id start timeout gone u res enough =
      let reads = Since-Reads cluster host clock k in
      Leads-bind (λ _. Since cluster host clock k) _ _ (Leads-Keeps _ reads.list_managed)
        λ listing.
          let gone' = count_gone res.deployment listing gone in
          let again = λ (u' : Usage F) (res' : ConfigResult F).
            end_round-Leads fuel k start timeout res' _ enough.1
              (watch_eval-Leads fuel (suc k) job_id start timeout gone' u' res') in
          Leads-if (leb 2 gone') _ _ (λ _. Leads-pure _ λ s h. (_, refl))
            λ _.
              Leads-bind (λ _. Since cluster host clock k) _ _
                (Leads-Keeps _ (reads.batch_status job_id))
                λ answer.
                  Leads-on_result answer _ _ (λ _. again u res)
                    λ (alloc, status).
                      Leads-if (alloc == "") _ _ (λ _. again u res)
                        λ _.
                          Leads-if (status == "complete") _ _
                            (λ _.
                              Leads-bind (λ _. Since cluster host clock k) _ _
                                (Leads-Keeps _ (reads.read_logs alloc true))
                                λ _. Leads-pure _ λ s h. (_, refl))
                            λ _.
                              Leads-if (status == "failed") _ _
                                (λ _.
                                  Leads-bind (λ _. Since cluster host clock k) _ _
                                    (Leads-Keeps _ (reads.failure_reason alloc))
                                    λ _. Leads-pure _ λ s h. (_, refl))
                                λ _.
                                  Leads-if (status == "running") _ _
                                    (λ _.
                                      Leads-bind (λ _. Since cluster host clock k) _ _
                                        (Leads-Keeps _ (reads.read_logs alloc false))
                                        λ tail.
                                          Leads-bind (λ _. Since cluster host clock k) _ _
                                            (Leads-Keeps _ (
                                              Keeps-note_progress cluster host reads floats save
                                                (keep k) tail res))
                                            λ res'.
                                              Leads-bind (λ _. Since cluster host clock k) _ _
                                                (Leads-Keeps _ (
                                                  Keeps-sample_gpus cluster host reads floats save
                                                    (keep k) res.config.gpu u))
                                                λ u'. again u' res')
                                    λ _. again u res

module _ {F W : Type 0} (cluster : Cluster F W) (host : Host F W) (clock : Clock cluster host) where
  -- With fuel left, and as much of it beyond the time that it is as the deadline is away and two
  -- more, `wait_batch` returns an outcome, whatever the cluster answers.
  pub wait_batch-IsSome :
      (fuel start : ℕ) (timeout : ℤ) (pending : List String) (s : State F W)
      → 0 < fuel
      → deadline start timeout + 2 ≤ fuel + clock.time s.world
      → IsSome (wait_batch cluster host fuel start timeout pending s).0
  unfolding Enough Since
  wait_batch-IsSome fuel start timeout pending s some_left enough =
      (wait_batch-Leads cluster host clock fuel (clock.time s.world) start timeout pending
          (some_left, enough)).at
        s (ground arith)

  -- With fuel left, and as much of it beyond the time that it is as the deadline is away and two
  -- more, `wait_healthy` returns an outcome, whatever the cluster answers.
  pub wait_healthy-IsSome :
      (fuel : ℕ) (name : String) (start : ℕ) (timeout : ℤ) (last : Deployment) (misses : ℕ)
      (s : State F W)
      → 0 < fuel
      → deadline start timeout + 2 ≤ fuel + clock.time s.world
      → IsSome (wait_healthy cluster host fuel name start timeout last misses s).0
  unfolding Enough Since
  wait_healthy-IsSome fuel name start timeout last misses s some_left enough =
      (wait_healthy-Leads cluster host clock fuel (clock.time s.world) name start timeout last
          misses (some_left, enough)).at
        s (ground arith)

  save-Since : (k : ℕ) (run : Run F) → Keeps (Since cluster host clock k) (save cluster host run)
  unfolding save act Since
  save-Since k run = record { at = λ s h. ground (arith, clock.save_run run s.world, h) }

  -- With fuel left, and as much of it beyond the time that it is as the deadline is away and two
  -- more, `watch_eval` returns an outcome, whatever the cluster answers, where it stores its progress
  -- in the run.
  pub watch_eval-IsSome :
      (floats : Floats F) (f : Focus F) (fuel : ℕ) (job_id : String) (start : ℕ) (timeout : ℤ)
      (gone : ℕ) (u : Usage F) (res : ConfigResult F) (s : State F W)
      → 0 < fuel
      → deadline start timeout + 2 ≤ fuel + clock.time s.world
      → IsSome
          (watch_eval floats cluster host
            (λ r. save cluster host (whole f r) >>= λ _. pure tt)
            fuel
            job_id
            start
            timeout
            gone
            u
            res
            s).0.0
  unfolding Enough Since
  watch_eval-IsSome floats f fuel job_id start timeout gone u res s some_left enough =
      (watch_eval-Leads cluster host clock floats _
          (λ k r. Keeps-bind _ _ (save-Since k (whole f r)) λ _. Keeps-pure tt) fuel
          (clock.time s.world) job_id start timeout gone u res (some_left, enough)).at
        s (ground arith)
