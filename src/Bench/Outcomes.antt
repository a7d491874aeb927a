-- ===== src/Bench/Outcomes.antt =====
-- internal/bench/runner.go: how `runConfig` and `execute` leave the results and the run.
use ai_model_scheduler.Base.{
  refl, inl, inr, [], ◌∷◌, ◌++◌, ℕ, Option, ℤ, ◌⊎◌, List, ◌≡◌, String, some, true,
}
use ai_model_scheduler.Bench.Run.{config_failed, Metrics, config_complete, ConfigResult, Floats}
use ai_model_scheduler.Bench.Cluster.{pure, ◌>>=◌, act, stopped, Call, Host, Cluster, State}
use ai_model_scheduler.Jobspec.Job.{Env}
use ai_model_scheduler.Bench.Configs.{
  deployment_name, out_of_fuel, Focus, note_server_exits, fail, measure, evaluate, warn_exits,
  run_config, finish_config,
}
use ai_model_scheduler.Bench.Stopping.{stop}
use ai_model_scheduler.Bench.Watch.{Watched}
use ai_model_scheduler.Bench.Keeps.{
  Yields-if, Yields-carry, Yields-if_err, Yields-pure, Yields-on_result, Yields-bind, Yields,
}
use ai_model_scheduler.Bench.Staging.{StagedDataset}

-- The configuration was measured, or it failed.
unfoldable pub IsEnded : {F : Type 0} → ConfigResult F → Type 0
IsEnded {F = F} res =
    ((res.status ≡ config_complete) × ((m : Metrics F) × (res.metrics ≡ some m)))
    ⊎ (res.status ≡ config_failed)

-- The last call so far is the purge of `name`.
unfoldable pub IsPurged : {F W : Type 0} → String → State F W → Type 0
IsPurged {F = F} name s =
    (calls : List (Call F)) × ((e : Option String) × (s.log ≡ calls ++ stopped name true e ∷ []))

module _ {F W : Type 0} (floats : Floats F) (cluster : Cluster F W) (host : Host F W) (env : Env)
    (eval_timeout : ℤ) (fuel : ℕ) where
  fail-IsEnded :
      (res : ConfigResult F) (text : String)
      → Yields IsEnded (fail floats cluster host env eval_timeout fuel res text)
  unfolding fail IsEnded
  fail-IsEnded res text = Yields-bind _ _ λ t. Yields-pure _ (inr refl)

  warn_exits-IsEnded :
      (res : ConfigResult F) (exits : List String)
      → IsEnded res
      → IsEnded (warn_exits floats cluster host env eval_timeout fuel res exits)
  unfolding warn_exits IsEnded
  warn_exits-IsEnded res [] h = h
  warn_exits-IsEnded res (x ∷ xs) h = h

  note_server_exits-IsEnded :
      (res : ConfigResult F)
      → IsEnded res
      → Yields IsEnded (note_server_exits floats cluster host env eval_timeout fuel res)
  unfolding note_server_exits
  note_server_exits-IsEnded res h = Yields-bind _ _ λ listing.
      Yields-on_result listing _ _ (λ _. Yields-pure res h)
        λ deps.
          Yields-if _ _ _ (Yields-pure res h)
            (Yields-bind _ _ λ exits. Yields-pure _ (warn_exits-IsEnded res exits h))

  finish_config-IsEnded :
      (start ready : ℕ) (watched : Watched F)
      → Yields IsEnded (finish_config floats cluster host env eval_timeout fuel start ready watched)
  unfolding finish_config IsEnded
  finish_config-IsEnded start ready (outcome, res) =
      Yields-on_result (out_of_fuel outcome) _ _ (fail-IsEnded res)
        λ (m, resources). Yields-bind _ _ λ _. Yields-pure _ (inl (refl, (_, refl)))

  evaluate-IsEnded :
      (f : Focus F) (staged : Option StagedDataset) (start : ℕ) (endpoint : String)
      (res : ConfigResult F)
      → Yields IsEnded
          (evaluate floats cluster host env eval_timeout fuel f staged start endpoint res)
  unfolding evaluate
  evaluate-IsEnded f staged start endpoint res = Yields-bind _ _ λ ready. Yields-bind _ _ λ _.
      Yields-bind _ _ λ e.
        Yields-if_err e _ _ (λ text. fail-IsEnded _ _)
          (Yields-bind _ _ λ t. Yields-bind _ _ λ watched.
            Yields-carry _ _ (finish_config-IsEnded start ready watched)
              λ done h. Yields-bind _ _ λ _. Yields-pure done h)

  measure-IsEnded :
      (f : Focus F) (staged : Option StagedDataset) (start : ℕ) (res : ConfigResult F)
      → Yields IsEnded (measure floats cluster host env eval_timeout fuel f staged start res)
  unfolding measure
  measure-IsEnded f staged start res = Yields-bind _ _ λ t. Yields-bind _ _ λ waited.
      Yields-carry _ _
        (Yields-on_result (out_of_fuel waited) _ _ (fail-IsEnded res)
          λ endpoint. evaluate-IsEnded f staged start endpoint res)
        note_server_exits-IsEnded

  stop-IsPurged :
      (name : String) (done : ConfigResult F) (s : State F W)
      → IsPurged name ((stop cluster host name true >>= λ _. pure done) s).1
  unfolding stop act IsPurged ◌>>=◌ pure
  stop-IsPurged name done s = (s.log, (_, refl))

  run_config-parts :
      (f : Focus F) (staged : Option StagedDataset) (res : ConfigResult F)
      → Yields IsEnded (run_config floats cluster host env eval_timeout fuel f staged res)
  unfolding run_config
  run_config-parts f staged res = Yields-bind _ _ λ t. Yields-bind _ _ λ _. Yields-bind _ _ λ start.
      Yields-bind _ _ λ e.
        Yields-carry _ _
          (Yields-if_err e _ _ (λ text. fail-IsEnded _ _) (measure-IsEnded f staged start _))
          λ done h. Yields-bind _ _ λ _. Yields-pure done h

  run_config-IsPurged :
      (f : Focus F) (staged : Option StagedDataset) (res : ConfigResult F) (s : State F W)
      → IsPurged
          (deployment_name f.run.id res.index)
          (run_config floats cluster host env eval_timeout fuel f staged res s).1
  unfolding run_config IsPurged stop act ◌>>=◌ pure
  run_config-IsPurged f staged res s = (_, (_, refl))

  -- On every path, whatever the cluster answers, `run_config` returns a result that is complete, with
  -- metrics, or failed, and the last call that it makes is the purge of the configuration's deployment.
  pub run_config-IsEnded :
      (f : Focus F) (staged : Option StagedDataset) (res : ConfigResult F) (s : State F W)
      → IsEnded (run_config floats cluster host env eval_timeout fuel f staged res s).0
        × IsPurged
            (deployment_name f.run.id res.index)
            (run_config floats cluster host env eval_timeout fuel f staged res s).1
  run_config-IsEnded f staged res s =
      ((run_config-parts f staged res).at s, run_config-IsPurged f staged res s)
