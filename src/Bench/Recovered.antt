-- ===== src/Bench/Recovered.antt =====
-- internal/bench/runner.go: how `Recover` leaves the runs that a restart interrupted.
use ai_model_scheduler.Bench.Cluster.{pure, on_result, M, ◌>>=◌, act, read, State, Host, Cluster}
use ai_model_scheduler.Base.{
  ok, err, String, Result, inr, inl, Bool-cases, ◌≡◌, List, refl, [], ◌∷◌,
}
use ai_model_scheduler.Bench.Execute.{recover, recover_each, recover_run, interrupt_all}
use ai_model_scheduler.Bench.Run.{is_active, Run}
use ai_model_scheduler.Bench.Keeps.{Yields-if, Yields-bind, Yields-pure, Yields}
use ai_model_scheduler.Bench.Endings.{restore-results}
use ai_model_scheduler.Bench.Stopping.{save, restore}
use ai_model_scheduler.Bench.Leads.{Leads-bind, Leads-pure, Leads}
use ai_model_scheduler.Bench.Interrupted.{
  AreAllRecovered, IsSaved, IsRecovered, AreRecovered, IsStill, IsStill-recover_each,
  interrupt_all-IsSettled,
}

module _ {F W : Type 0} (cluster : Cluster F W) (host : Host F W) where
  restore-id : (run : Run F) → Yields (λ run'. run'.id ≡ run.id) (restore cluster host run)
  unfolding restore
  restore-id run =
      Yields-if run.restored _ _ (Yields-pure run refl)
        (Yields-bind _ _ λ errs. Yields-bind _ _ λ _. Yields-pure _ refl)

  -- What `restore` keeps of a run.
  IsSame : Run F → Run F → Type 0
  IsSame run run' = (run'.id ≡ run.id) × (run'.results ≡ run.results)

  restore-IsSame : (run : Run F) → Yields (IsSame run) (restore cluster host run)
  unfolding IsSame
  restore-IsSame run = record {
    at = λ s. ((restore-id run).at s, (restore-results cluster host run).at s);
  }

  save-IsSaved :
      (run : Run F) → Leads (λ _. Unit {0}) (save cluster host run) (λ _ s. IsSaved run s.log)
  unfolding save act IsSaved
  save-IsSaved run = record { at = λ s h. (s.log, _, [], refl) }

  -- An action whose value is used, whatever the state.
  Leads-carry :
      {A B : Type 0} {R : A → Type 0} {Q : B → State F W → Type 0} (m : M F W A) (f : A → M F W B)
      → Yields R m
      → ((a : A) → R a → Leads (λ _. Unit {0}) (f a) Q)
      → Leads (λ _. Unit {0}) (m >>= f) Q
  unfolding ◌>>=◌
  Leads-carry m f ym lf = record { at = λ s h. (lf (m s).0 (ym.at s)).at (m s).1 tt }

  Leads-any :
      {A B : Type 0} {Q : B → State F W → Type 0} (m : M F W A) (f : A → M F W B)
      → ((a : A) → Leads (λ _. Unit {0}) (f a) Q)
      → Leads (λ _. Unit {0}) (m >>= f) Q
  unfolding ◌>>=◌
  Leads-any m f lf = record { at = λ s h. (lf (m s).0).at (m s).1 tt }

  recover_run-IsRecovered :
      (run : Run F)
      → Leads
          (λ _. Unit {0})
          (recover_run cluster host run)
          (λ after s. IsRecovered run after s.log)
  unfolding recover_run IsRecovered IsSame
  recover_run-IsRecovered run = elim (Bool-cases (is_active run.status)) [
    | inl e ↦
        let stopped = record run { results = interrupt_all run.results } in
        rw e (
          Leads-any _ _ λ listing. Leads-any _ _ λ _. Leads-any _ _ λ _.
            Leads-carry _ _ (restore-IsSame stopped) λ restored (id, same). Leads-any _ _ λ t.
              Leads-bind (λ _ s. IsSaved _ s.log) _ _ (save-IsSaved _)
                λ _. Leads-pure _ λ s kept.
                  (λ h. (id, refl, rw same (interrupt_all-IsSettled run.results), kept), λ h. cc))
    | inr e ↦ rw e (Leads-pure run λ s h. (λ k. cc, λ k. refl))
  ]

  recover_each-AreAllRecovered :
      (runs : List (Run F))
      → Leads
          (λ _. Unit {0})
          (recover_each cluster host runs)
          (λ afters s. AreAllRecovered runs afters s.log)
  unfolding recover_each AreAllRecovered IsStill
  recover_each-AreAllRecovered [] = Leads-pure [] λ s h. tt
  recover_each-AreAllRecovered (run ∷ runs) =
      Leads-bind (λ after s. IsRecovered run after s.log) _ _ (recover_run-IsRecovered run)
        λ after.
          Leads-bind (λ afters s. IsRecovered run after s.log × AreAllRecovered runs afters s.log) _
            _
            (record {
              at = λ s h. (
                (IsStill-recover_each run after cluster host runs).at s h,
                (recover_each-AreAllRecovered runs).at s tt,
              );
            })
            λ afters. Leads-pure _ λ s h. h

  -- Whatever the cluster and the store answer: where the store lists its runs, `recover` goes through
  -- all of them; each one that was in progress it leaves interrupted, with each configuration complete,
  -- failed or skipped, and it calls the store to save it so; the others it leaves as they are. A save
  -- that fails is only logged by the code. Where the store's listing fails, nothing is called.
  pub recover-AreRecovered :
      (s : State F W)
      → AreRecovered
          (host.list_runs s.world).0
          s.log
          (recover cluster host s).0
          (recover cluster host s).1.log
  unfolding recover ◌>>=◌ read AreRecovered on_result pure
  recover-AreRecovered s = go (host.list_runs s.world).0 (host.list_runs s.world).1
    where
      go :
          (listed : Result String (List (Run F))) (w : W)
          → AreRecovered listed s.log
              (on_result listed
                (λ _. pure [])
                (recover_each cluster host)
                (record s { world = w })).0
              (on_result listed
                (λ _. pure [])
                (recover_each cluster host)
                (record s { world = w })).1.log
      go (err text) w = (refl, refl)
      go (ok runs) w = (recover_each-AreAllRecovered runs).at _ tt
