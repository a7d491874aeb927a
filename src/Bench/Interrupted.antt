-- ===== src/Bench/Interrupted.antt =====
-- internal/bench/runner.go: what a run is that `Recover` interrupted, and that it stays so.
use mathlib.Core.List.{append_assoc}
use ai_model_scheduler.Bench.Cluster.{saved, Call, act, read, State, Host, Cluster}
use ai_model_scheduler.Base.{
  not, has_prefix, ok, err, ◌++◌, Option, String, Result, inr, inl, ◌⊎◌, All, ◌≡◌, List, refl, [],
  ◌∷◌, true, false,
}
use ai_model_scheduler.Bench.Execute.{
  purge_leftovers, recover_each, skipped, interrupted_at, recover_run, interrupted, interrupt_all,
}
use ai_model_scheduler.Bench.Run.{
  run_interrupted, config_evaluating, config_deploying, config_pending, config_skipped,
  config_failed, config_complete, is_active, ConfigStatus, Run, ConfigResult,
}
use ai_model_scheduler.Bench.Keeps.{
  Keeps-on_result, Keeps-pure, Keeps-if, Keeps-bind, keeps_rules, Keeps,
}
use ai_model_scheduler.Bench.Stopping.{deployment_prefix, stop, save, relaunch_each, restore}
use ai_model_scheduler.Jobspec.Params.{Params}
use ai_model_scheduler.Nomadapi.Deployment.{Deployment}

-- A configuration that ended or was passed over.
abbrev pub IsSettled : {F : Type 0} → ConfigResult F → Type 0
IsSettled res =
    (res.status ≡ config_complete) ⊎ (res.status ≡ config_failed) ⊎ (res.status ≡ config_skipped)

interrupted-IsSettled : {F : Type 0} (res : ConfigResult F) → IsSettled (interrupted res)
unfolding interrupted interrupted_at skipped
interrupted-IsSettled res = go res.status refl
  where
    go : (status : ConfigStatus) → res.status ≡ status → IsSettled (interrupted_at status res)
    go config_pending e = inr (inr refl)
    go config_deploying e = inr (inl refl)
    go config_evaluating e = inr (inl refl)
    go config_complete e = inl e
    go config_failed e = inr (inl e)
    go config_skipped e = inr (inr e)

pub interrupt_all-IsSettled :
    {F : Type 0} (rs : List (ConfigResult F)) → All IsSettled (interrupt_all rs)
unfolding interrupt_all
interrupt_all-IsSettled [] = tt
interrupt_all-IsSettled (r ∷ rs) = (interrupted-IsSettled r, interrupt_all-IsSettled rs)

-- The calls up to now include one that saves the run.
unfoldable pub IsSaved : {F : Type 0} → Run F → List (Call F) → Type 0
IsSaved {F = F} run log =
    (before : List (Call F)) × (e : Option String) × (after : List (Call F)) × (log
      ≡ before ++ saved run e ∷ after)

-- A run that was in progress is interrupted, each of its configurations is settled, and it was saved
-- so; another run is as it was.
unfoldable pub IsRecovered : {F : Type 0} → Run F → Run F → List (Call F) → Type 0
IsRecovered run after log =
    (is_active run.status ≡ true
      → (after.id ≡ run.id)
        × (after.status ≡ run_interrupted)
        × All IsSettled after.results
        × IsSaved after log)
    × (is_active run.status ≡ false → after ≡ run)

-- Each of the runs, in their order.
unfoldable pub AreAllRecovered : {F : Type 0} → List (Run F) → List (Run F) → List (Call F) → Type 0
AreAllRecovered [] [] log = Unit {0}
AreAllRecovered [] (after ∷ afters) log = ⊥
AreAllRecovered (run ∷ runs) [] log = ⊥
AreAllRecovered (run ∷ runs) (after ∷ afters) log =
    IsRecovered run after log × AreAllRecovered runs afters log

-- Of the answer of the store, the log before and what `recover` leaves.
unfoldable pub AreRecovered :
    {F : Type 0}
    → Result String (List (Run F))
    → List (Call F)
    → List (Run F)
    → List (Call F)
    → Type 0
AreRecovered (err _) log afters log' = (afters ≡ []) × (log' ≡ log)
AreRecovered (ok runs) log afters log' = AreAllRecovered runs afters log'

IsSaved-append :
    {F : Type 0} (run : Run F) (log : List (Call F)) (c : Call F)
    → IsSaved run log
    → IsSaved run (log ++ c ∷ [])
unfolding IsSaved
IsSaved-append run log c (before, e, after, same) =
    (before, e, after ++ c ∷ [], rw same (append_assoc before (saved run e ∷ after) (c ∷ [])))

IsRecovered-append :
    {F : Type 0} (run after : Run F) (log : List (Call F)) (c : Call F)
    → IsRecovered run after log
    → IsRecovered run after (log ++ c ∷ [])
unfolding IsRecovered
IsRecovered-append run after log c (active, other) = (
  λ h.
      let (id, status, settled, kept) = active h in
      (id, status, settled, IsSaved-append after log c kept),
  other,
)

-- What is recovered stays so, whatever is called later.
module _ {F W : Type 0} (run after : Run F) where
  unfoldable pub IsStill : State F W → Type 0
  IsStill s = IsRecovered run after s.log

  IsStill-read : {A : Type 0} (op : W → A × W) → Keeps IsStill (read op)
  unfolding read IsStill
  IsStill-read op = record { at = λ s h. h }

  IsStill-act : (c : Option String → Call F) (op : W → Option String × W) → Keeps IsStill (act c op)
  unfolding act IsStill
  IsStill-act c op = record { at = λ s h. IsRecovered-append run after s.log _ h }

  ruleset still_rules = (keeps_rules, IsStill-read, IsStill-act)

  module _ (cluster : Cluster F W) (host : Host F W) where
    IsStill-purge_leftovers :
        (deps : List Deployment) → Keeps IsStill (purge_leftovers cluster host deps)
    unfolding purge_leftovers stop
    IsStill-purge_leftovers [] = search still_rules
    IsStill-purge_leftovers (d ∷ deps) =
        Keeps-if (has_prefix d.name deployment_prefix) _ _
          (Keeps-bind _ _ (IsStill-act _ _) λ _. IsStill-purge_leftovers deps)
          (IsStill-purge_leftovers deps)

    IsStill-relaunch_each :
        (ps : List Params) (errs : List String) → Keeps IsStill (relaunch_each cluster host ps errs)
    unfolding relaunch_each
    IsStill-relaunch_each [] errs = search still_rules
    IsStill-relaunch_each (p ∷ ps) errs =
        Keeps-bind _ _ (IsStill-act _ _) λ e. IsStill-relaunch_each ps _

    IsStill-save : (r : Run F) → Keeps IsStill (save cluster host r)
    unfolding save
    IsStill-save r = IsStill-act _ _

    IsStill-restore : (r : Run F) → Keeps IsStill (restore cluster host r)
    unfolding restore
    IsStill-restore r = search (still_rules, IsStill-relaunch_each, IsStill-save)

    IsStill-recover_run : (r : Run F) → Keeps IsStill (recover_run cluster host r)
    unfolding recover_run
    IsStill-recover_run r = Keeps-if (not (is_active r.status)) _ _ (Keeps-pure r) (
        Keeps-bind _ _ (IsStill-read _) λ listing.
          Keeps-bind _ _ (Keeps-on_result listing _ _ (λ _. Keeps-pure tt) IsStill-purge_leftovers)
            λ _. Keeps-bind _ _ (IsStill-act _ _) λ _.
              Keeps-bind _ _ (IsStill-restore _) λ restored.
                Keeps-bind _ _ (IsStill-read _)
                  λ t. Keeps-bind _ _ (IsStill-save _) λ _. Keeps-pure _)

    pub IsStill-recover_each : (rs : List (Run F)) → Keeps IsStill (recover_each cluster host rs)
    unfolding recover_each
    IsStill-recover_each [] = search still_rules
    IsStill-recover_each (r ∷ rs) =
        search (still_rules, IsStill-recover_run r, IsStill-recover_each rs)
