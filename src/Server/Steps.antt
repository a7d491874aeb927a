-- ===== src/Server/Steps.antt =====
-- internal/server/api_bench.go: what the handlers of the runs do to the runner are steps of
-- Bench/Session, so that its theorems hold of a server that serves requests.
use ai_model_scheduler.Base.{
  inr, inl, ◌==◌, not, ◌&&◌, Bool-cases, ok, err, Result, Option, String, none, some,
}
use ai_model_scheduler.Bench.Run.{Run, Floats}
use ai_model_scheduler.Bench.Disk.{StoreError, Disk}
use ai_model_scheduler.Bench.Store.{Codec}
use ai_model_scheduler.Bench.Config.{Suite}
use ai_model_scheduler.Bench.Datasets.{DecodeRow, Dataset}
use ai_model_scheduler.Bench.Control.{begin, start, with_suite, Store, with_dataset, with_spec}
use ai_model_scheduler.Bench.Session.{
  starts, writes, cancels, Reachable, stepped, launch, started, Session,
}
use ai_model_scheduler.Server.Runs.{store, api_cancel_run, api_start_run}
use ai_model_scheduler.Bench.Eval.{uses_dataset, normalize, EvalError, EvalSpec}

module _ {F W : Type 0} (floats : Floats F) (disk : Disk W) (dir : String) (suites : Codec Suite)
    (runs : Codec (Run F)) (datasets : Codec Dataset) (decode_row : DecodeRow) where
  abbrev Reached : Session W → Type 0
  Reached s = Reachable floats.zero disk dir suites runs datasets decode_row s

  abbrev files_of : Store StoreError F W
  files_of = store floats disk dir suites runs datasets decode_row

  begin-Reached :
      (s : Session W) (suite : Suite) (eval : EvalSpec) (w : W)
      → Reached s
      → Reached (launch s.executing (begin floats.zero files_of disk.now s.control suite eval w))
  unfolding started
  begin-Reached s suite eval w r =
      stepped (stepped r (writes s w)) (starts (record s { files = w }) suite eval)

  with_dataset-Reached :
      (s : Session W) (suite : Suite) (eval : EvalSpec) (found : Option StoreError × W)
      → Reached s
      → Reached (
          launch s.executing
            (with_dataset floats.zero files_of disk.now s.control suite eval found))
  unfolding with_dataset launch
  with_dataset-Reached s suite eval (none, w) r = begin-Reached s suite eval w r
  with_dataset-Reached s suite eval (some e, w) r = stepped r (writes s w)

  with_spec-Reached :
      (s : Session W) (suite : Suite) (eval : Result EvalError EvalSpec) (w : W)
      → Reached s
      → Reached
          (launch s.executing (with_spec floats.zero files_of disk.now s.control suite eval w))
  unfolding with_spec launch
  with_spec-Reached s suite (err e) w r = stepped r (writes s w)
  with_spec-Reached s suite (ok eval) w r =
      elim (Bool-cases (uses_dataset eval && not (eval.dataset_id == ""))) [
        | inl e ↦
            rw e (with_dataset-Reached s suite eval (files_of.get_dataset eval.dataset_id w) r)
        | inr e ↦ rw e (begin-Reached s suite eval w r)
      ]

  with_suite-Reached :
      (s : Session W) (eval : EvalSpec) (found : Result StoreError Suite × W)
      → Reached s
      → Reached (launch s.executing (with_suite floats.zero files_of disk.now s.control eval found))
  unfolding with_suite launch
  with_suite-Reached s eval (err e, w) r = stepped r (writes s w)
  with_suite-Reached s eval (ok suite, w) r = with_spec-Reached s suite (normalize eval) w r

  -- A POST of a run, whatever it asks for, takes the runner from a state that it reaches to another
  -- such state.
  pub api_start_run-Reached :
      (s : Session W) (suite_id : String) (eval : EvalSpec)
      → Reached s
      → Reached (api_start_run floats disk dir suites runs datasets decode_row suite_id eval s).1
  unfolding api_start_run start
  api_start_run-Reached s suite_id eval r =
      with_suite-Reached s eval (files_of.get_suite suite_id s.files) r

  -- So does a cancel.
  pub api_cancel_run-Reached :
      (s : Session W) (id : String)
      → Reached s
      → Reached (api_cancel_run floats disk dir suites runs datasets decode_row id s).1
  unfolding api_cancel_run
  api_cancel_run-Reached s id r = stepped r (cancels s id)
