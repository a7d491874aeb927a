-- ===== src/Server/Protection.antt =====
-- internal/server/api_bench.go with the runner of internal/bench/runner.go: the record of a run that
-- executes is not deleted under it.
use ai_model_scheduler.Base.{inr, ◌∙◌, sym, eq_iff, inl, ◌≡◌, ◌++◌, List, String, refl, [], ◌∷◌}
use ai_model_scheduler.Nomadapi.Api.{return}
use ai_model_scheduler.Bench.Disk.{Disk}
use ai_model_scheduler.Bench.Store.{Codec}
use ai_model_scheduler.Bench.Config.{Suite}
use ai_model_scheduler.Bench.Run.{Run}
use ai_model_scheduler.Bench.Datasets.{DecodeRow, Dataset}
use ai_model_scheduler.Server.Api.{api_delete_run}
use ai_model_scheduler.Bench.Control.{active_id}
use ai_model_scheduler.Bench.Session.{Reachable, IsSole, Session}
use ai_model_scheduler.Bench.Sole.{not_empty, Reachable-IsSole}

only_executing :
    (active id : String) (before after : List String)
    → before ++ id ∷ after ≡ active ∷ []
    → active ≡ id
only_executing active id [] after h = cc
only_executing active id (first ∷ []) after h = cc
only_executing active id (first ∷ second ∷ before) after h = cc

module _ {F W : Type 0} (zero_sec : F) (disk : Disk W) (dir : String) (suites : Codec Suite)
    (runs : Codec (Run F)) (datasets : Codec Dataset) (decode_row : DecodeRow) where
  executing_active :
      (s : Session W) (id : String) (before after : List String)
      → IsSole s
      → s.executing ≡ before ++ id ∷ after
      → active_id s.control ≡ id
  unfolding active_id
  executing_active s id before after (inl (idle, none_runs)) e =
      absurd (not_empty id before after (sym e ∙ none_runs))
  executing_active s id before after (inr (busy, one_runs)) e =
      only_executing s.control.active id before after (sym e ∙ one_runs)

  -- While a run executes, whatever happened before, a DELETE of it answers 409 and leaves all files as
  -- they are.
  pub api_delete_run-executing :
      (s : Session W) (id : String) (before after : List String)
      → Reachable zero_sec disk dir suites runs datasets decode_row s
      → s.executing ≡ before ++ id ∷ after
      → ((api_delete_run disk dir suites runs datasets decode_row
            (active_id s.control)
            id
            s.files).0.0
          ≡ 409)
        × ((api_delete_run disk dir suites runs datasets decode_row
              (active_id s.control)
              id
              s.files).1
            ≡ s.files)
  unfolding api_delete_run return
  api_delete_run-executing s id before after r e =
      let sole = Reachable-IsSole zero_sec disk dir suites runs datasets decode_row s r in
      let same = executing_active s id before after sole e in
      let equal = (eq_iff (active_id s.control) id).1 same in rw equal (refl, refl)
