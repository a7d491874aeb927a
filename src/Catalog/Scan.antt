-- ===== src/Catalog/Scan.antt =====
-- internal/catalog/catalog.go: the rescan.
use ai_model_scheduler.Base.{
  sprint, if◌then◌else◌, err, ok, ◌&&◌, split, Result, ◌==◌, ℕ, not, List, Option, Bool, String, [],
  ◌∷◌, none, some, true,
}
use ai_model_scheduler.Nomadapi.Api.{return, Act, Api, ◌>>=◌}
use ai_model_scheduler.Catalog.Cache.{Entry}
use ai_model_scheduler.Jobspec.Job.{Env}
use ai_model_scheduler.Nomadapi.Lines.{decode_lines}
use ai_model_scheduler.Nomadapi.Listing.{stop_job, register}
use ai_model_scheduler.Nomadapi.Dispatch.{
  batch_failure_reason, dispatch, wait_for_batch, BatchResult,
}
use ai_model_scheduler.Jobspec.Helpers.{indexer_job_id, indexer}
use ai_model_scheduler.Nomadapi.Logs.{read_all_logs}
use ai_model_scheduler.Jobspec.Common.{task_name}

unfoldable pub is_entry : Entry → Bool
is_entry e = not (e.path == "") && not (e.kind == "")

module _ (decode : String → Option Entry) where
  -- parseManifest, which does not fail
  unfoldable pub parse_manifest : String → List Entry
  unfolding is_entry
  parse_manifest out = decode_lines decode is_entry (split 10 out)

module _ {W : Type 0} (api : Api W) (env : Env) (decode : String → Option Entry) (fuel : ℕ) where
  unfoldable pub parse_output : String × Option String → Result String (List Entry)
  parse_output (stdout, none) = ok (parse_manifest decode stdout)
  parse_output (stdout, some text) =
      if stdout == ""
      then err (sprint ("reading indexer output: " ∷ text ∷ []))
      else ok (parse_manifest decode stdout)

  -- What the end of the wait gives; `none` is no fuel left.
  unfoldable pub read_index :
      Option (Result String BatchResult) → Act W (Option (Result String (List Entry)))
  read_index none = return none
  read_index (some (err text)) = return (some (err text))
  read_index (some (ok res)) = do
    stdout ← read_all_logs api res.alloc_id task_name "stdout"
    (if not (res.client_status == "complete")
        then (do
          reason ← batch_failure_reason api res.alloc_id
          return (some (err (sprint ("indexer job failed: " ∷ reason ∷ [])))))
        else return (some (parse_output stdout)))

  -- The dispatch is purged whatever came of it; the error of that is only logged.
  unfoldable pub await_index : Result String String → Act W (Option (Result String (List Entry)))
  await_index (err text) = return (some (err text))
  await_index (ok id) = do
    waited ← wait_for_batch api fuel id
    found ← read_index waited
    purged ← stop_job api id true
    return found

  unfoldable pub dispatch_index : Option String → Act W (Option (Result String (List Entry)))
  dispatch_index (some text) =
      return (some (err (sprint ("registering indexer job: " ∷ text ∷ []))))
  dispatch_index none = dispatch api indexer_job_id [] >>= await_index

  -- scan, up to the section that replaces the cache: the entries, or the error
  unfoldable pub scan : Act W (Option (Result String (List Entry)))
  scan = register api (indexer env) >>= dispatch_index
