-- ===== src/Server/Busy.antt =====
-- internal/server/api_bench.go with the runner of internal/bench/runner.go: no second run is started.
use ai_model_scheduler.Base.{
  not, eq_iff, ◌&&◌, inr, ◌∙◌, Bool-cases, sym, ok, Option, err, inl, Result, ◌++◌, arith, ◌≡◌,
  ◌==◌, ◌≢◌, List, String, ℕ, refl, ◌∷◌, none, some, false,
}
use ai_model_scheduler.Server.Runs.{store, started_reply, api_start_run, start_status}
use ai_model_scheduler.Bench.Run.{Run, Floats}
use ai_model_scheduler.Bench.Session.{Reachable, launch, IsSole, Session}
use ai_model_scheduler.Bench.Control.{
  bad_spec, run_active, saving, with_dataset, start, begin, Started, with_suite, with_spec,
  no_dataset, loading_suite, Control, StartError, Store,
}
use ai_model_scheduler.Bench.Disk.{StoreError, Disk}
use ai_model_scheduler.Bench.Store.{Codec}
use ai_model_scheduler.Bench.Config.{Suite}
use ai_model_scheduler.Bench.Datasets.{DecodeRow, Dataset}
use ai_model_scheduler.Bench.Eval.{uses_dataset, normalize, EvalError, EvalSpec}
use ai_model_scheduler.Bench.Sole.{Reachable-IsSole, not_empty}

module _ {E F W : Type 0} (zero_sec : F) (store : Store E F W) (now : W → ℕ × W) (control : Control)
    (busy : (control.active == "") ≡ false) where
  -- A refusal that leaves the runner as it is.
  abbrev Refused : Started zero_sec store now → Type 0
  Refused started = (e : StartError E) × (w : W) × (started ≡ (err e, (control, w)))

  begin-Refused :
      (suite : Suite) (eval : EvalSpec) (w : W)
      → Refused (begin zero_sec store now control suite eval w)
  unfolding begin
  begin-Refused suite eval w = (run_active, w, rw busy refl)

  with_dataset-Refused :
      (suite : Suite) (eval : EvalSpec) (found : Option E × W)
      → Refused (with_dataset zero_sec store now control suite eval found)
  unfolding with_dataset
  with_dataset-Refused suite eval (none, w) = begin-Refused suite eval w
  with_dataset-Refused suite eval (some e, w) = (no_dataset eval.dataset_id e, w, refl)

  with_spec-Refused :
      (suite : Suite) (eval : Result EvalError EvalSpec) (w : W)
      → Refused (with_spec zero_sec store now control suite eval w)
  unfolding with_spec
  with_spec-Refused suite (err e) w = (bad_spec e, w, refl)
  with_spec-Refused suite (ok eval) w =
      elim (Bool-cases (uses_dataset eval && not (eval.dataset_id == ""))) [
        | inl e ↦ rw e (with_dataset-Refused suite eval (store.get_dataset eval.dataset_id w))
        | inr e ↦ rw e (begin-Refused suite eval w)
      ]

  with_suite-Refused :
      (eval : EvalSpec) (found : Result E Suite × W)
      → Refused (with_suite zero_sec store now control eval found)
  unfolding with_suite
  with_suite-Refused eval (err e, w) = (loading_suite e, w, refl)
  with_suite-Refused eval (ok suite, w) = with_spec-Refused suite (normalize eval) w

  start-Refused :
      (suite_id : String) (eval : EvalSpec) (w : W)
      → Refused (start zero_sec store now control suite_id eval w)
  unfolding start
  start-Refused suite_id eval w = with_suite-Refused eval (store.get_suite suite_id w)

executing_busy :
    {W : Type 0} (s : Session W) (id : String) (before after : List String)
    → IsSole s
    → s.executing ≡ before ++ id ∷ after
    → (s.control.active == "") ≡ false
executing_busy s id before after (inl (idle, none_runs)) e =
    absurd (not_empty id before after (sym e ∙ none_runs))
executing_busy s id before after (inr (busy, one_runs)) e =
    ground (arith, eq_iff s.control.active "", busy)

start_status_refuses : (e : StartError StoreError) → start_status e ≢ 201
unfolding start_status
start_status_refuses (loading_suite e) h = absurd (omega (arith, h))
start_status_refuses (saving e) h = absurd (omega (arith, h))
start_status_refuses (bad_spec e) h = absurd (omega (arith, h))
start_status_refuses (no_dataset id e) h = absurd (omega (arith, h))
start_status_refuses run_active h = absurd (omega (arith, h))

module _ {F W : Type 0} (floats : Floats F) (disk : Disk W) (dir : String) (suites : Codec Suite)
    (runs : Codec (Run F)) (datasets : Codec Dataset) (decode_row : DecodeRow) where
  -- While a run executes, whatever happened before, a POST of another run is never answered with
  -- 201, and neither the runner nor the runs that execute change.
  pub api_start_run-executing :
      (s : Session W) (id : String) (before after : List String) (suite_id : String)
      (eval : EvalSpec)
      → Reachable floats.zero disk dir suites runs datasets decode_row s
      → s.executing ≡ before ++ id ∷ after
      → ((api_start_run floats disk dir suites runs datasets decode_row suite_id eval s).0.0 ≢ 201)
        × ((api_start_run floats disk dir suites runs datasets decode_row suite_id eval
              s).1.executing
            ≡ s.executing)
        × ((api_start_run floats disk dir suites runs datasets decode_row suite_id eval s).1.control
            ≡ s.control)
  unfolding api_start_run started_reply launch
  api_start_run-executing s id before after suite_id eval r executes =
      let sole = Reachable-IsSole floats.zero disk dir suites runs datasets decode_row s r in
      let busy = executing_busy s id before after sole executes in
      let (e, w, refused) =
        start-Refused floats.zero (store floats disk dir suites runs datasets decode_row) disk.now
          s.control busy suite_id eval s.files in
      rw refused (start_status_refuses e, refl, refl)
