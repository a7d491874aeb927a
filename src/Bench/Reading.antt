-- ===== src/Bench/Reading.antt =====
-- The polling loops of internal/bench/runner.go keep what the calls that they make keep.
use ai_model_scheduler.Bench.Cluster.{pure, M, read, Host, Cluster, State, ◌>>=◌}
use ai_model_scheduler.Bench.Polling.{
  count_miss, is_after, after_scan, wait_batch, poll_pending, scan_listing, wait_healthy,
}
use ai_model_scheduler.Bench.Keeps.{
  Keeps-on_result, Keeps-pure, Keeps-if, Keeps-bind, keeps_rules, Keeps,
}
use ai_model_scheduler.Base.{
  false, true, ◌==◌, leb, ◌++◌, none, zero, some, [], Option, inr, suc, inl, ◌∷◌, if◌then◌else◌,
  ◌⊎◌, Result, String, ℤ, Bool, List, ℕ,
}
use ai_model_scheduler.Bench.Run.{ConfigResult, Floats}
use ai_model_scheduler.Nomadapi.Deployment.{Deployment}
use ai_model_scheduler.Bench.Watch.{
  count_gone, Usage, Watched, watch_eval, end_round, note_progress, sample_gpus,
}

-- The calls of a polling loop, which change nothing that the log shows, keep `P`.
pub record Reads {F W : Type 0} (P : State F W → Type 0) (cluster : Cluster F W) (host : Host F W)
    : Type 0 where
  pub list_managed : Keeps P (read cluster.list_managed)
  pub batch_status : (id : String) → Keeps P (read (cluster.batch_status id))
  pub failure_reason : (alloc : String) → Keeps P (read (cluster.failure_reason alloc))
  pub read_logs : (alloc : String) (all : Bool) → Keeps P (read (cluster.read_logs alloc all))
  pub gpu_stats : Keeps P (read cluster.gpu_stats)
  pub now : Keeps P (read host.now)
  pub wait : Keeps P (read host.wait)

module _ {F W : Type 0} {P : State F W → Type 0} (cluster : Cluster F W) (host : Host F W)
    (r : Reads P cluster host) where
  pub Keeps-poll_pending : (still ids : List String) → Keeps P (poll_pending cluster host still ids)
  unfolding poll_pending
  Keeps-poll_pending still [] = search keeps_rules
  Keeps-poll_pending still (id ∷ ids) = Keeps-bind _ _ (r.batch_status id) λ a.
      Keeps-on_result a _ _ (λ _. Keeps-poll_pending (still ++ id ∷ []) ids)
        λ (alloc, status). Keeps-if _ _ _ (Keeps-poll_pending still ids) (
          Keeps-if _ _ _ (Keeps-bind _ _ (r.failure_reason alloc) λ _. Keeps-pure _)
            (Keeps-poll_pending (still ++ id ∷ []) ids))

  -- The end of a round of polling: the deadline, then the wait for the next round.
  pub Keeps-poll :
      {A : Type 0} (late : ℕ → Bool) (a : ℕ → A) (b : A) (next : M F W A)
      → Keeps P next
      → Keeps P (
          read host.now >>= λ t.
          if late t
          then pure (a t)
          else (read host.wait >>= λ ended. if ended then pure b else next))
  Keeps-poll late a b next k = Keeps-bind _ _ r.now λ t.
      Keeps-if _ _ _ (Keeps-pure _) (Keeps-bind _ _ r.wait λ ended. Keeps-if _ _ _ (Keeps-pure _) k)

  pub Keeps-wait_batch :
      (fuel start : ℕ) (timeout : ℤ) (pending : List String)
      → Keeps P (wait_batch cluster host fuel start timeout pending)
  unfolding wait_batch
  Keeps-wait_batch zero start timeout pending = search keeps_rules
  Keeps-wait_batch (suc fuel) start timeout pending =
      Keeps-bind _ _ (Keeps-poll_pending [] pending) λ polled.
        Keeps-on_result polled _ _ (λ _. Keeps-pure _)
          λ still.
            Keeps-if _ _ _ (Keeps-pure _) (
              Keeps-poll (is_after start timeout) _ _ _ (Keeps-wait_batch fuel start timeout still))

  Keeps-after_scan :
      {A : Type 0} (seen : Result String String ⊎ Deployment) (f : Result String String → M F W A)
      (g : Deployment → M F W A)
      → ((outcome : Result String String) → Keeps P (f outcome))
      → ((d : Deployment) → Keeps P (g d))
      → Keeps P (after_scan seen f g)
  unfolding after_scan
  Keeps-after_scan (inl outcome) f g kf kg = kf outcome
  Keeps-after_scan (inr d) f g kf kg = kg d

  pub Keeps-scan_listing :
      (name : String) (last : Deployment) (deps : List Deployment)
      → Keeps P (scan_listing cluster host name last deps)
  unfolding scan_listing
  Keeps-scan_listing name last [] = search keeps_rules
  Keeps-scan_listing name last (d ∷ deps) = Keeps-if _ _ _ (Keeps-scan_listing name last deps) (
      Keeps-if _ _ _ (Keeps-pure _) (
        Keeps-if _ _ _
          (Keeps-bind _ _ (Keeps-if _ _ _ (Keeps-pure _) (r.failure_reason d.alloc_id))
            λ _. Keeps-pure _)
          (Keeps-scan_listing name d deps)))

  pub Keeps-wait_healthy :
      (fuel : ℕ) (name : String) (start : ℕ) (timeout : ℤ) (last : Deployment) (misses : ℕ)
      → Keeps P (wait_healthy cluster host fuel name start timeout last misses)
  unfolding wait_healthy
  Keeps-wait_healthy zero name start timeout last misses = search keeps_rules
  Keeps-wait_healthy (suc fuel) name start timeout last misses =
      Keeps-bind _ _ r.list_managed λ listing.
        Keeps-on_result listing _ _
          (λ _. Keeps-poll _ _ _ _ (Keeps-wait_healthy fuel name start timeout last misses))
          λ deps. Keeps-if _ _ _ (Keeps-pure _) (
            Keeps-bind _ _ (Keeps-scan_listing name last deps) λ seen.
              Keeps-after_scan seen _ _ (λ _. Keeps-pure _)
                λ d. Keeps-poll _ _ _ _ (
                  Keeps-wait_healthy fuel name start timeout d
                    (count_miss cluster host name deps misses)))

  module _ (floats : Floats F) where
    module _ (save : ConfigResult F → M F W (Unit {0}))
        (keep : (res : ConfigResult F) → Keeps P (save res)) where
      pub Keeps-note_progress :
          (out : String × Option String) (res : ConfigResult F)
          → Keeps P (note_progress floats cluster host save out res)
      unfolding note_progress
      Keeps-note_progress (tail, some _) res = Keeps-pure _
      Keeps-note_progress (tail, none) res =
          Keeps-if _ _ _ (Keeps-bind _ _ (keep _) λ _. Keeps-pure _) (Keeps-pure _)

      pub Keeps-sample_gpus :
          (vendor : String) (u : Usage F) → Keeps P (sample_gpus floats cluster host save vendor u)
      unfolding sample_gpus
      Keeps-sample_gpus vendor u = Keeps-if _ _ _ (Keeps-pure _) (
          Keeps-bind _ _ r.gpu_stats
            λ answer. Keeps-on_result answer _ _ (λ _. Keeps-pure _) λ _. Keeps-pure _)

      Keeps-end_round :
          (start : ℕ) (timeout : ℤ) (res : ConfigResult F) (next : M F W (Watched F))
          → Keeps P next
          → Keeps P (end_round floats cluster host save start timeout res next)
      unfolding end_round
      Keeps-end_round start timeout res next k =
          Keeps-poll (is_after start timeout) (λ _. _) _ next k

      pub Keeps-watch_eval :
          (fuel : ℕ) (job_id : String) (start : ℕ) (timeout : ℤ) (gone : ℕ) (u : Usage F)
          (res : ConfigResult F)
          → Keeps P (watch_eval floats cluster host save fuel job_id start timeout gone u res)
      unfolding watch_eval
      Keeps-watch_eval zero job_id start timeout gone u res = Keeps-pure _
      Keeps-watch_eval (suc fuel) job_id start timeout gone u res =
          Keeps-bind _ _ r.list_managed λ listing.
            let gone' = count_gone res.deployment listing gone in
            let again = λ (u' : Usage F) (res' : ConfigResult F).
              Keeps-end_round start timeout res' _
                (Keeps-watch_eval fuel job_id start timeout gone' u' res') in
            Keeps-if (leb 2 gone') _ _ (Keeps-pure _) (
              Keeps-bind _ _ (r.batch_status job_id) λ answer.
                Keeps-on_result answer _ _ (λ _. again u res)
                  λ (alloc, status). Keeps-if (alloc == "") _ _ (again u res) (
                    Keeps-if (status == "complete") _ _
                      (Keeps-bind _ _ (r.read_logs alloc true) λ _. Keeps-pure _)
                      (Keeps-if (status == "failed") _ _
                        (Keeps-bind _ _ (r.failure_reason alloc) λ _. Keeps-pure _)
                        (Keeps-if (status == "running") _ _
                          (Keeps-bind _ _ (r.read_logs alloc false) λ tail.
                            Keeps-bind _ _ (Keeps-note_progress tail res) λ res'.
                              Keeps-bind _ _ (Keeps-sample_gpus res.config.gpu u)
                                λ u'. again u' res')
                          (again u res)))))
