-- ===== src/Bench/Session.antt =====
-- internal/bench/runner.go over internal/bench/store.go: the runner with the goroutines that execute
-- its runs, whose sections under the runner's lock are the steps.
use ai_model_scheduler.Base.{
  ◌⊎◌, ◌≡◌, err, ◌++◌, ok, ◌≢◌, Option, Result, List, String, [], ◌∷◌, none, some, false,
}
use ai_model_scheduler.Bench.Control.{release, StartError, begin, cancel, Store, Control}
use ai_model_scheduler.Bench.Disk.{StoreError, Disk}
use ai_model_scheduler.Bench.Store.{save_run, get_suite, Codec}
use ai_model_scheduler.Bench.Config.{Suite}
use ai_model_scheduler.Bench.Run.{Run}
use ai_model_scheduler.Bench.Datasets.{get_dataset, DecodeRow, Dataset}
use ai_model_scheduler.Bench.Eval.{EvalSpec}

-- The runner, the runs that goroutines execute, by their identifiers, and the files.
pub record Session (W : Type 0) : Type 0 where
  pub control : Control
  pub executing : List String
  pub files : W

-- No run is active and none executes, or the active one executes alone.
abbrev pub IsSole : {W : Type 0} → Session W → Type 0
IsSole s =
    ((s.control.active ≡ "") × (s.executing ≡ []))
    ⊎ ((s.control.active ≢ "") × (s.executing ≡ s.control.active ∷ []))

unfoldable pub saved_run : {F : Type 0} → Option StoreError × Run F → Result StoreError (Run F)
saved_run (none, run) = ok run
saved_run (some e, run) = err e

-- go r.execute(ctx, run)
unfoldable pub launch :
    {F W : Type 0}
    → List String
    → Result (StartError StoreError) (Run F) × (Control × W)
    → Session W
launch executing (err e, (control, w)) = record {
  control = control;
  executing = executing;
  files = w;
}
launch executing (ok run, (control, w)) = record {
  control = control;
  executing = run.id ∷ executing;
  files = w;
}

unfoldable pub result_error : {A : Type 0} → Result StoreError A → Option StoreError
result_error (ok _) = none
result_error (err e) = some e

module _ {F W : Type 0} (zero_sec : F) (disk : Disk W) (dir : String) (suites : Codec Suite)
    (runs : Codec (Run F)) (datasets : Codec Dataset) (decode_row : DecodeRow) where
  -- The store of NewRunner
  unfoldable pub run_store : Store StoreError F W
  run_store = record {
    get_suite = get_suite disk dir suites;
    get_dataset = λ id w.
        let (got, w') = get_dataset disk dir datasets decode_row id w in (result_error got, w');
    save_new = λ run w. let (saved, w') = save_run disk dir runs run w in (saved_run saved, w');
  }

  -- Start from the lock on, for the suite and the spec that it loaded before.
  unfoldable pub started : Suite → EvalSpec → Session W → Session W
  started suite eval s =
      launch s.executing (begin zero_sec run_store disk.now s.control suite eval s.files)

  -- What may happen: the sections of Start and Cancel, the last section of a run's goroutine, and
  -- whatever the goroutines and the other handlers do with the files.
  pub data Step : Session W → Session W → Type 0 where
    starts : (s : Session W) (suite : Suite) (eval : EvalSpec) → Step s (started suite eval s)
    cancels :
        (s : Session W) (id : String) → Step s (record s { control = (cancel s.control id).1 })
    finishes :
        (s : Session W) (id : String) (before after : List String)
        → Step
            (record s { executing = before ++ id ∷ after })
            (record s { executing = before ++ after; control = release s.control })
    writes : (s : Session W) (w : W) → Step s (record s { files = w })

  pub data Reachable : Session W → Type 0 where
    opened :
        (w : W)
        → Reachable (record {
          control = record { active = ""; cancelling = false };
          executing = [];
          files = w;
        })
    stepped : {s t : Session W} → Reachable s → Step s t → Reachable t
