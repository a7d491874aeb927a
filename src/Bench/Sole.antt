-- ===== src/Bench/Sole.antt =====
-- internal/bench/runner.go: one benchmark run at a time.
use ai_model_scheduler.Base.{
  ap, eq_iff, inr, ◌==◌, inl, Bool-cases, sym, err, ◌≢◌, ok, Result, ◌≡◌, Option, ◌++◌, List,
  String, refl, [], ◌∷◌, none, some,
}
use ai_model_scheduler.Nomadapi.Api.{return, ◌>>=◌}
use ai_model_scheduler.Bench.Disk.{StoreError, Disk}
use ai_model_scheduler.Bench.Session.{
  writes, finishes, cancels, stepped, opened, starts, Step, Reachable, started, run_store,
  saved_run, IsSole, launch, Session,
}
use ai_model_scheduler.Bench.Store.{name_run, id_re, path, Codec, write_at, save_run, write_json}
use ai_model_scheduler.Bench.Control.{new_run, begin, cancel, release, Control, Store, adopt}
use ai_model_scheduler.Bench.Run.{Run}
use ai_model_scheduler.Bench.Config.{Suite}
use ai_model_scheduler.Bench.Datasets.{DecodeRow, Dataset}
use ai_model_scheduler.Bench.Eval.{EvalSpec}

pub not_empty : (id : String) (before after : List String) → before ++ id ∷ after ≢ []
not_empty id [] after = λ e. cc
not_empty id (first ∷ before) after = λ e. cc

taken_empty :
    (active id : String) (before after : List String)
    → before ++ id ∷ after ≡ active ∷ []
    → before ++ after ≡ []
taken_empty active id [] after h = cc
taken_empty active id (first ∷ []) after h = cc
taken_empty active id (first ∷ second ∷ before) after h = cc

finish-IsSole :
    {W : Type 0} (s : Session W) (id : String) (before after : List String)
    → IsSole (record s { executing = before ++ id ∷ after })
    → IsSole (record s { executing = before ++ after; control = release s.control })
unfolding release
finish-IsSole s id before after (inl (idle, none_runs)) =
    absurd (not_empty id before after none_runs)
finish-IsSole s id before after (inr (busy, one_runs)) =
    inl (refl, taken_empty s.control.active id before after one_runs)

cancel-IsSole :
    {W : Type 0} (s : Session W) (id : String)
    → IsSole s
    → IsSole (record s { control = (cancel s.control id).1 })
unfolding cancel
cancel-IsSole s id h = elim (Bool-cases (s.control.active == id)) [
  | inl e ↦ rw e h
  | inr e ↦ rw e h
]

-- A record is not written without an identifier.
write_json_named :
    {W A : Type 0} (disk : Disk W) (dir : String) (codec : Codec A) (kind id : String) (v : A)
    (w : W)
    → (write_json disk dir codec kind id v w).0 ≡ none
    → id ≢ ""
unfolding write_json write_at path id_re return
write_json_named disk dir codec kind id v w h = λ e. let off = rw e at h in cc

saved_run_ok :
    {F : Type 0} (e : Option StoreError) (run saved : Run F)
    → saved_run (e, run) ≡ ok saved
    → (e ≡ none) × (run ≡ saved)
unfolding saved_run
saved_run_ok none run saved h = (refl, cc)
saved_run_ok (some e) run saved h = cc

save_run_named :
    {F W : Type 0} (disk : Disk W) (dir : String) (runs : Codec (Run F)) (run saved : Run F) (w : W)
    → saved_run (save_run disk dir runs run w).0 ≡ ok saved
    → saved.id ≢ ""
unfolding save_run return ◌>>=◌
save_run_named disk dir runs run saved w h =
    let (named, w') = name_run disk dir runs run w in
    let (written, same) =
      saved_run_ok (write_json disk dir runs "runs" named.id named w').0 named saved h in
    rw (sym same) (write_json_named disk dir runs "runs" named.id named w' written)

module _ {F W : Type 0} (zero_sec : F) (disk : Disk W) (dir : String) (suites : Codec Suite)
    (runs : Codec (Run F)) (datasets : Codec Dataset) (decode_row : DecodeRow) where
  abbrev store : Store StoreError F W
  store = run_store zero_sec disk dir suites runs datasets decode_row

  launch-adopt :
      (control : Control) (executing : List String) (saved : Result StoreError (Run F)) (w : W)
      → ((run : Run F) → saved ≡ ok run → run.id ≢ "")
      → control.active ≡ ""
      → executing ≡ []
      → IsSole (launch executing (adopt zero_sec store disk.now control (saved, w)))
  unfolding launch adopt
  launch-adopt control executing (err e) w named idle none_runs = inl (idle, none_runs)
  launch-adopt control executing (ok run) w named idle none_runs =
      inr (named run refl, ap (λ (l : List String). run.id ∷ l) none_runs)

  started-IsSole :
      (suite : Suite) (eval : EvalSpec) (s : Session W)
      → IsSole s
      → IsSole (started zero_sec disk dir suites runs datasets decode_row suite eval s)
  unfolding started begin run_store launch
  started-IsSole suite eval s (inl (idle, none_runs)) =
      let (t, w) = disk.now s.files in
      let run = new_run zero_sec suite eval t in
      let (saved, w') = save_run disk dir runs run w in
      let free = (eq_iff s.control.active "").1 idle in
      rw free (
        launch-adopt s.control s.executing (saved_run saved) w'
          (λ named h. save_run_named disk dir runs run named w h) idle none_runs)
  started-IsSole suite eval s (inr (busy, one_runs)) = elim (Bool-cases (s.control.active == "")) [
    | inl e ↦ absurd (busy ((eq_iff s.control.active "").0 e))
    | inr e ↦ rw e (inr (busy, one_runs))
  ]

  Step-IsSole :
      {s t : Session W}
      → Step zero_sec disk dir suites runs datasets decode_row s t
      → IsSole s
      → IsSole t
  Step-IsSole (starts s suite eval) h = started-IsSole suite eval s h
  Step-IsSole (cancels s id) h = cancel-IsSole s id h
  Step-IsSole (finishes s id before after) h = finish-IsSole s id before after h
  Step-IsSole (writes s w) h = h

  -- Whatever callers start and cancel, and whatever the runs and the other handlers do with the files,
  -- the runner never executes two runs: either none is active and none executes, or the active one, which
  -- has an identifier, executes alone.
  pub Reachable-IsSole :
      (s : Session W) → Reachable zero_sec disk dir suites runs datasets decode_row s → IsSole s
  Reachable-IsSole _ (opened w) = inl (refl, refl)
  Reachable-IsSole _ (stepped {s} {t} r step) = Step-IsSole step (Reachable-IsSole s r)
