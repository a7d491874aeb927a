-- ===== src/Bench/Restores.antt =====
-- internal/bench/runner.go: the list of `stopOthers` names what is down.
use mathlib.Core.Path.{subst}
use ai_model_scheduler.Base.{
  eq_iff, true, has_prefix, sym, ◌==◌, ◌∷◌, [], ◌≡◌, Option, ◌++◌, List, String, none, some, false,
}
use ai_model_scheduler.Bench.Outage.{Implies, Target, Keeps-read, Covers}
use ai_model_scheduler.Bench.Cluster.{read, Host, Cluster}
use ai_model_scheduler.Jobspec.Params.{Params}
use ai_model_scheduler.Bench.Run.{Run}
use ai_model_scheduler.Bench.Stopping.{
  save_stopped, stop_others, deployment_prefix, stored_or_listed, stop_each,
}
use ai_model_scheduler.Bench.Leads.{
  Leads-if_err, Leads-on_result, Leads-fact, Leads-bind, Leads-pure, Leads-if, Leads-Keeps, Leads,
}
use ai_model_scheduler.Bench.Unstopped.{Keeps-purge, Keeps-save}
use ai_model_scheduler.Nomadapi.Deployment.{Deployment}
use ai_model_scheduler.Bench.Told.{Listed, IsKnown, Stopped, stop-Stopped}

module _ {F W : Type 0} (n : Target) (cluster : Cluster F W) (host : Host F W)
    (apart : has_prefix n.name deployment_prefix ≡ false) (known : IsKnown cluster n) where
  -- The parameters that are recorded for the deployment are its own.
  params-Covers :
      (d : Deployment) (ps : List Params)
      → Leads (Covers {F = F} n ps) (read (cluster.deployment_params d.name)) λ stored s.
        Covers n ps s × ((d.name == n.name) ≡ true → n.is_mine (stored_or_listed stored d) ≡ true)
  unfolding read Covers Implies IsKnown
  params-Covers d ps = record {
    at = λ s h. (
      h,
      λ same.
          let e : d.name ≡ n.name = (eq_iff _ _).0 same in
          subst
            (λ name.
              n.is_mine (stored_or_listed (cluster.deployment_params name s.world).0 d) ≡ true)
            (sym e) (known s.world d e),
    );
  }

  stop_each-Listed :
      (deps : List Deployment) (run : Run F)
      → run.restored ≡ false
      → Leads (Covers n run.restore) (stop_each cluster host deps run) λ (e, run'). Listed n run'
  unfolding stop_each Listed Stopped
  stop_each-Listed [] run fresh = Leads-pure _ λ s h. (h, fresh)
  stop_each-Listed (d ∷ deps) run fresh =
      Leads-if (has_prefix d.name deployment_prefix) _ _
        (λ bench.
          Leads-bind (λ _. Covers n run.restore) _ _
            (Leads-Keeps _ (Keeps-purge n run.restore cluster host d.name apart bench))
            λ _. stop_each-Listed deps run fresh)
        λ _.
          Leads-if (d.status == "dead") _ _ (λ _. stop_each-Listed deps run fresh)
            λ _. Leads-bind _ _ _ (params-Covers d run.restore) λ stored.
              let p = stored_or_listed stored d in
              Leads-fact λ mine.
                Leads-bind (Stopped n run.restore p) _ _
                  (stop-Stopped n cluster host run.restore d.name p mine)
                  λ e.
                    Leads-if_err (Stopped n run.restore p) e _ _
                      (λ text. Leads-pure _ λ s h. (h, fresh))
                      (stop_each-Listed deps (record run { restore = run.restore ++ p ∷ [] }) fresh)

  save_stopped-Listed :
      (outcome : Option String × Run F)
      → Leads (Listed n outcome.1) (save_stopped cluster host outcome) λ (e, run'). Listed n run'
  unfolding save_stopped Listed
  save_stopped-Listed (some text, run) = Leads-pure _ λ s h. h
  save_stopped-Listed (none, run) = Leads-fact λ fresh.
      Leads-bind (λ _. Covers n run.restore) _ _
        (Leads-Keeps _ (Keeps-save n run.restore cluster host run))
        λ _. Leads-pure _ λ s h. (h, fresh)

  pub stop_others-Listed :
      (run : Run F)
      → run.restored ≡ false
      → Leads (Covers n run.restore) (stop_others cluster host run) λ (e, run'). Listed n run'
  unfolding stop_others Listed
  stop_others-Listed run fresh =
      Leads-bind (λ _. Covers n run.restore) _ _
        (Leads-Keeps _ (Keeps-read n run.restore cluster.list_managed))
        λ listing.
          Leads-on_result listing _ _ (λ text. Leads-pure _ λ s h. (h, fresh))
            λ deps.
              Leads-bind (λ (e, run'). Listed n run') _ _ (stop_each-Listed deps run fresh)
                save_stopped-Listed
