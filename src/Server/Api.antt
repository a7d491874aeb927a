-- ===== src/Server/Api.antt =====
-- internal/server/api_bench.go: the handlers of the benchmark API. A handler answers the status and the
-- value or the error of the body; the decoding of a request's body is an argument.
use ai_model_scheduler.Base.{
  inr, inl, sprint, ◌==◌, Bool-cases, arith, if◌then◌else◌, List, ◌≡◌, err, ok, Result, Option,
  String, ℕ, refl, [], ◌∷◌, none, some,
}
use ai_model_scheduler.Nomadapi.Api.{Act, return, ◌>>=◌}
use ai_model_scheduler.Bench.Disk.{failed, IsDisk, missing, Disk, StoreError}
use ai_model_scheduler.Bench.Store.{
  delete_run, save_suite, list_runs, list_suites, delete_suite, get_run, get_suite, Codec,
}
use ai_model_scheduler.Bench.Config.{Suite}
use ai_model_scheduler.Bench.Run.{Run}
use ai_model_scheduler.Bench.Datasets.{
  save_dataset, list_datasets, delete_dataset, DecodeRow, Dataset,
}
use ai_model_scheduler.Bench.Stored.{get_run-delete_run}

abbrev pub Response : Type 0 → Type 0
Response A = ℕ × Result StoreError A

unfoldable pub not_found_status : StoreError → ℕ
not_found_status missing = 404
not_found_status _ = 400

unfoldable pub respond : {A : Type 0} → ℕ → (StoreError → ℕ) → Result StoreError A → Response A
respond done failed_with (ok a) = (done, ok a)
respond done failed_with (err e) = (failed_with e, err e)

-- The answer to a change that returns an error or nothing: the identifier.
unfoldable pub respond_id : String → Option StoreError → Response String
respond_id id none = (200, ok id)
respond_id id (some e) = (400, err e)

module _ {F W : Type 0} (disk : Disk W) (dir : String) (suites : Codec Suite) (runs : Codec (Run F))
    (datasets : Codec Dataset) (decode_row : DecodeRow) where
  -- apiListSuites
  unfoldable pub api_list_suites : Act W (Response (List Suite))
  api_list_suites = do found ← list_suites disk dir suites; return (respond 200 (λ _. 500) found)

  unfoldable pub respond_saved : Option StoreError × Suite → Response Suite
  respond_saved (none, suite) = (201, ok suite)
  respond_saved (some e, suite) = (400, err e)

  -- apiCreateSuite: an identifier in the body does not count
  unfoldable pub api_create_suite : Result String Suite → Act W (Response Suite)
  api_create_suite (err text) = return (400, err (failed text))
  api_create_suite (ok suite) = do
    saved ← save_suite disk dir suites (record suite { id = "" })
    return (respond_saved saved)

  -- apiGetSuite
  unfoldable pub api_get_suite : String → Act W (Response Suite)
  api_get_suite id = do
    found ← get_suite disk dir suites id
    return (respond 200 not_found_status found)

  -- apiDeleteSuite
  unfoldable pub api_delete_suite : String → Act W (Response String)
  api_delete_suite id = do e ← delete_suite disk dir id; return (respond_id id e)

  -- apiListRuns
  unfoldable pub api_list_runs : Act W (Response (List (Run F)))
  api_list_runs = do found ← list_runs disk dir runs; return (respond 200 (λ _. 500) found)

  -- apiGetRun
  unfoldable pub api_get_run : String → Act W (Response (Run F))
  api_get_run id = do found ← get_run disk dir runs id; return (respond 200 not_found_status found)

  -- apiDeleteRun, with the identifier of the run in progress, or ""
  unfoldable pub api_delete_run : String → String → Act W (Response String)
  api_delete_run active id =
      if active == id
      then return
          (409, err (failed (sprint ("run " ∷ id ∷ " is in progress; cancel it first" ∷ []))))
      else (do e ← delete_run disk dir id; return (respond_id id e))

  -- apiListDatasets
  unfoldable pub api_list_datasets : Act W (Response (List Dataset))
  api_list_datasets = do
    found ← list_datasets disk dir datasets decode_row
    return (respond 200 (λ _. 500) found)

  -- apiUploadDataset
  unfoldable pub api_upload_dataset : String → Result String String → Act W (Response Dataset)
  api_upload_dataset name (err text) = return (400, err (failed text))
  api_upload_dataset name (ok body) = do
    saved ← save_dataset disk dir datasets decode_row name body
    return (respond 201 (λ _. 400) saved)

  -- apiDeleteDataset
  unfoldable pub api_delete_dataset : String → Act W (Response String)
  api_delete_dataset id = do
    e ← delete_dataset disk dir datasets decode_row id
    return (respond_id id e)

  respond_id-none : (id : String) (e : Option StoreError) → (respond_id id e).0 ≡ 200 → e ≡ none
  unfolding respond_id
  respond_id-none id none h = refl
  respond_id-none id (some e) h = let off : ⊥ = omega (arith, h) in absurd off

  -- Once `api_delete_run` answered 200, `api_get_run` answers 404 for the run, on a disk whose reads do
  -- not fail.
  pub api_get_run-api_delete_run :
      (healthy : IsDisk disk) (active id : String) (w : W)
      → (api_delete_run active id w).0.0 ≡ 200
      → (api_get_run id (api_delete_run active id w).1).0.0 ≡ 404
  unfolding api_delete_run api_get_run respond not_found_status return ◌>>=◌
  api_get_run-api_delete_run healthy active id w h = elim (Bool-cases (active == id)) [
    | inl e ↦
        let conflict = rw (e, api_delete_run) at h in
        let off : ⊥ = omega (arith, conflict) in absurd off
    | inr e ↦
        let answered = rw (e, api_delete_run) at h in
        let done = respond_id-none id (delete_run disk dir id w).0 answered in
        rw (e, get_run-delete_run disk dir healthy runs id w done) refl
  ]
