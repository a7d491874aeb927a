-- ===== src/Server/Runs.antt =====
-- internal/server/api_bench.go: the handlers of the runs. The form of a run is in RunForm;
-- strconv.Quote is an argument.
use ai_model_scheduler.Base.{
  sprint, ok, err, Result, ◌==◌, if◌then◌else◌, Option, String, List, ℕ, [], ◌∷◌, none, some,
}
use ai_model_scheduler.Nomadapi.Api.{Act, ◌>>=◌, return}
use ai_model_scheduler.Bench.Control.{start, cancel, Control, Store, run_active, StartError}
use ai_model_scheduler.Bench.Run.{Run, Floats}
use ai_model_scheduler.Bench.Config.{Suite}
use ai_model_scheduler.Bench.Eval.{EvalSpec}
use ai_model_scheduler.Bench.Disk.{failed, StoreError, Disk}
use ai_model_scheduler.Bench.Datasets.{list_datasets, DecodeRow, Dataset}
use ai_model_scheduler.Bench.Table.{Table}
use ai_model_scheduler.Bench.Store.{delete_run, get_suite, get_run, list_runs, Codec}
use ai_model_scheduler.Server.Suites.{
  redirect, shown, http_error, redirect_error, Page, no_content_or, list_or_none,
}
use ai_model_scheduler.Server.Replies.{redirect, shown, http_error, Reply, reply_done}
use ai_model_scheduler.Bench.Session.{run_store, Session, launch}
use ai_model_scheduler.Server.Api.{not_found_status}
use ai_model_scheduler.Bench.Grid.{build_table, csv_records}
use ai_model_scheduler.Server.RunForm.{default_spec}

-- suitePageData; the YAML of the suite and the tasks are left out
pub record SuiteData (F : Type 0) : Type 0 where
  pub suite : Suite
  pub datasets : List Dataset
  pub runs : List (Run F)
  pub defaults : EvalSpec
  pub error : String

-- runPageData
pub record RunData (F : Type 0) : Type 0 where
  pub run : Run F
  pub table : Table

-- runsPartialData
pub record RunsData (F : Type 0) : Type 0 where
  pub runs : List (Run F)
  pub active : String

-- The body of an export.
pub data Export (F : Type 0) : Type 0 where
  csv_export : List (List String) → Export F
  json_export : Run F → Export F

unfoldable pub runs_of : {F : Type 0} → String → List (Run F) → List (Run F)
runs_of suite_id [] = []
runs_of suite_id (run ∷ runs) =
    let rest = runs_of suite_id runs in if run.suite_id == suite_id then run ∷ rest else rest

-- errors.Is(err, bench.ErrRunActive)
unfoldable pub start_status : StartError StoreError → ℕ
start_status run_active = 409
start_status _ = 400

module _ {F W : Type 0} (floats : Floats F) (disk : Disk W) (dir : String) (suites : Codec Suite)
    (runs : Codec (Run F)) (datasets : Codec Dataset) (decode_row : DecodeRow) where
  -- What a handler that may start a run leaves: the runner, the runs that execute and the files.
  abbrev pub store : Store StoreError F W
  store = run_store floats.zero disk dir suites runs datasets decode_row

  unfoldable pub started_reply :
      Result (StartError StoreError) (Run F) → Reply (StartError StoreError) (Run F)
  unfolding start_status
  started_reply (err e) = (start_status e, err e)
  started_reply (ok run) = (201, ok run)

  -- apiStartRun, with the decoded request
  unfoldable pub api_start_run :
      String → EvalSpec → Session W → Reply (StartError StoreError) (Run F) × Session W
  unfolding launch started_reply
  api_start_run suite_id eval s =
      let started = start floats.zero store disk.now s.control suite_id eval s.files in
      (started_reply started.0, launch s.executing started)

  unfoldable pub started_page :
      String → Result (StartError StoreError) (Run F) → Page (StartError StoreError) (Run F)
  started_page suite_id (err e) = redirect_error (sprint ("/benchmarks/suites/" ∷ suite_id ∷ [])) e
  started_page suite_id (ok run) = redirect (sprint ("/benchmarks/runs/" ∷ run.id ∷ []))

  -- uiStartRun, with the spec of the form
  unfoldable pub ui_start_run :
      String → EvalSpec → Session W → Page (StartError StoreError) (Run F) × Session W
  unfolding launch started_page
  ui_start_run suite_id eval s =
      let started = start floats.zero store disk.now s.control suite_id eval s.files in
      (started_page suite_id started.0, launch s.executing started)

  -- apiCancelRun
  unfoldable pub api_cancel_run : String → Session W → Reply String String × Session W
  unfolding reply_done
  api_cancel_run id s =
      let (e, control) = cancel s.control id in
      (reply_done 200 400 id e, record s { control = control })

  unfoldable pub export_reply :
      (String → String) → String → Result StoreError (Run F) → Reply StoreError (Export F)
  export_reply quote format (err e) = (not_found_status e, err e)
  export_reply quote format (ok run) =
      if format == "csv"
      then (200, ok (csv_export (csv_records floats run)))
      else if format == "json"
      then (200, ok (json_export run))
      else (
        404,
        err (failed (sprint ("unknown export format " ∷ quote format ∷ " (csv or json)" ∷ []))),
      )

  -- apiExportRun
  unfoldable pub api_export_run :
      (String → String) → String → String → Act W (Reply StoreError (Export F))
  api_export_run quote id format = do
    got ← get_run disk dir runs id
    return (export_reply quote format got)

  unfoldable pub suite_page :
      String → Result StoreError Suite → Act W (Page StoreError (SuiteData F))
  unfolding list_or_none runs_of
  suite_page text (err e) = return (http_error (not_found_status e) e)
  suite_page text (ok suite) = do
    sets ← list_datasets disk dir datasets decode_row
    all_runs ← list_runs disk dir runs
    return (
        shown (record {
          suite = suite;
          datasets = list_or_none sets;
          runs = runs_of suite.id (list_or_none all_runs);
          defaults = default_spec;
          error = text;
        }))

  -- uiSuitePage, with the value "error" of the query
  unfoldable pub ui_suite_page : String → String → Act W (Page StoreError (SuiteData F))
  ui_suite_page id text = get_suite disk dir suites id >>= suite_page text

  unfoldable pub with_table : Result StoreError (Run F) → Result StoreError (RunData F)
  with_table (err e) = err e
  with_table (ok run) = ok (record { run = run; table = build_table floats run })

  -- runPageData
  unfoldable pub run_page_data : String → Act W (Result StoreError (RunData F))
  unfolding with_table
  run_page_data id = do got ← get_run disk dir runs id; return (with_table got)

  unfoldable pub run_page : Result StoreError (RunData F) → Page StoreError (RunData F)
  run_page (err e) = http_error (not_found_status e) e
  run_page (ok found) = shown found

  -- uiRunPage
  unfoldable pub ui_run_page : String → Act W (Page StoreError (RunData F))
  unfolding run_page
  ui_run_page id = do got ← run_page_data id; return (run_page got)

  unfoldable pub partial_run_data :
      Result StoreError (RunData F) → Option (RunData F) × Option StoreError
  partial_run_data (err e) = (none, some e)
  partial_run_data (ok found) = (some found, none)

  -- partialRun: the run with its table, or the error that the fragment shows
  unfoldable pub partial_run : String → Act W (Option (RunData F) × Option StoreError)
  unfolding partial_run_data
  partial_run id = do got ← run_page_data id; return (partial_run_data got)

  -- uiDeleteRun, with the identifier of the run in progress, or ""
  unfoldable pub ui_delete_run : String → String → Act W (Page StoreError (Run F))
  unfolding no_content_or
  ui_delete_run active id =
      if active == id
      then return (http_error 409 (failed "run is in progress; cancel it first"))
      else (do e ← delete_run disk dir id; return (no_content_or e))

  -- partialRuns
  unfoldable pub partial_runs : String → Act W (RunsData F)
  unfolding list_or_none
  partial_runs active = do
    found ← list_runs disk dir runs
    return (record { runs = list_or_none found; active = active })

  unfoldable pub cancelled_view :
      String
      → Option String × Control
      → Session W
      → Result String (Result StoreError (RunData F)) × Session W
  unfolding run_page_data
  cancelled_view id (some text, control) s = (err text, s)
  cancelled_view id (none, control) s =
      let (got, w) = run_page_data id s.files in
      (ok got, record { control = control; executing = s.executing; files = w })

  -- uiCancelRun: the error of a 400, or what the fragment shows
  unfoldable pub ui_cancel_run :
      String → Session W → Result String (Result StoreError (RunData F)) × Session W
  unfolding cancelled_view
  ui_cancel_run id s = cancelled_view id (cancel s.control id) s
