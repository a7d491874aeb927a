-- ===== src/Server/Downloads.antt =====
-- internal/server/api_downloads.go. The decoded request and the values of a form are arguments.
use ai_model_scheduler.Base.{
  ◌≡◌, has_prefix, sprint, Option, ok, err, List, Result, String, refl, [], ◌∷◌, none, some, false,
}
use ai_model_scheduler.Nomadapi.Api.{Act, Api, ◌>>=◌, return}
use ai_model_scheduler.Downloads.Service.{
  call_failed, bad_dest, logs, list_downloads, bad_repo, Watch, remove, Download,
}
use ai_model_scheduler.Downloads.Service.{start, StartError}
use ai_model_scheduler.Jobspec.Job.{Env}
use ai_model_scheduler.Server.Replies.{
  reply, http_error, no_content, reply_done, shown, View, Reply,
}
use ai_model_scheduler.Jobspec.Helpers.{hf_download_job_id}

-- The request of apiStartDownload.
pub record Request : Type 0 where
  pub repo_id : String
  pub revision : String
  pub include : String
  pub dest : String

-- downloadsPartialData
pub record DownloadsData : Type 0 where
  pub downloads : List Download
  pub error : String

-- downloadLogsData
pub record DownloadLogs : Type 0 where
  pub id : String
  pub logs : String
  pub error : String

module _ (quote : String → String) where
  -- The errors of Start
  unfoldable pub start_text : StartError → String
  start_text (bad_repo repo) = sprint ("repo id must look like org/name, got " ∷ quote repo ∷ [])
  start_text (bad_dest dest) = sprint ("invalid destination " ∷ quote dest ∷ [])
  start_text (call_failed text) = text

unfoldable pub downloads_data : Result String (List Download) → DownloadsData
downloads_data (err text) = record { downloads = []; error = text }
downloads_data (ok list) = record { downloads = list; error = "" }

unfoldable pub download_logs : String → Result String String → DownloadLogs
download_logs id (err text) = record { id = id; logs = ""; error = text }
download_logs id (ok logs) = record { id = id; logs = logs; error = "" }

module _ {W : Type 0} (api : Api W) (quote : String → String) (env : Env) (hf_token : String) where
  unfoldable pub listed_downloads :
      Result String (List Download) × Watch → Reply String (List Download) × Watch
  listed_downloads (err text, watch) =
      ((502, err (sprint ("listing downloads: " ∷ text ∷ []))), watch)
  listed_downloads (ok list, watch) = ((200, ok list), watch)

  -- apiListDownloads, with the state of the notifications
  unfoldable pub api_list_downloads : Watch → Act W (Reply String (List Download) × Watch)
  api_list_downloads watch = do
    listed ← list_downloads api env hf_token watch
    return (listed_downloads listed)

  unfoldable pub started_reply : Result StartError String → Reply String String
  unfolding start_text
  started_reply (err e) = (400, err (start_text quote e))
  started_reply (ok id) = (201, ok id)

  -- apiStartDownload
  unfoldable pub api_start_download : Result String Request → Act W (Reply String String)
  api_start_download (err text) = return (400, err (sprint ("decoding request: " ∷ text ∷ [])))
  api_start_download (ok req) = do
    started ← start api env hf_token req.repo_id req.revision req.include req.dest
    return (started_reply started)

  -- apiDownloadLogs
  unfoldable pub api_download_logs : String → Act W (Reply String String)
  api_download_logs id = do got ← logs api env hf_token id; return (reply 200 404 got)

  -- apiDeleteDownload
  unfoldable pub api_delete_download : String → Act W (Reply String String)
  api_delete_download id = do e ← remove api env hf_token id; return (reply_done 200 400 id e)

  -- partialDownloads
  unfoldable pub partial_downloads : Watch → Act W (View DownloadsData × Watch)
  unfolding downloads_data
  partial_downloads watch = do
    listed ← list_downloads api env hf_token watch
    return (shown (downloads_data listed.0), listed.1)

  unfoldable pub started_view : Result StartError String → View String
  unfolding start_text
  started_view (err e) = shown (start_text quote e)
  started_view (ok id) = no_content

  -- uiStartDownload: the page of the error, or none
  unfoldable pub ui_start_download : Request → Act W (View String)
  ui_start_download req = do
    started ← start api env hf_token req.repo_id req.revision req.include req.dest
    return (started_view started)

  unfoldable pub removed_view : Watch → Option String → Act W (View DownloadsData × Watch)
  removed_view watch (some text) = return (http_error 400 text, watch)
  removed_view watch none = partial_downloads watch

  -- uiRemoveDownload
  unfoldable pub ui_remove_download : String → Watch → Act W (View DownloadsData × Watch)
  ui_remove_download id watch = remove api env hf_token id >>= removed_view watch

  -- partialDownloadLogs
  unfoldable pub partial_download_logs : String → Act W DownloadLogs
  unfolding download_logs
  partial_download_logs id = do got ← logs api env hf_token id; return (download_logs id got)

  -- A DELETE whose id is not that of a download's job is refused and reaches no job of the cluster.
  pub api_delete_download-foreign :
      (id : String) (w : W)
      → has_prefix id (sprint (hf_download_job_id ∷ "/" ∷ [])) ≡ false
      → ((api_delete_download id w).0.0 ≡ 400) × ((api_delete_download id w).1 ≡ w)
  unfolding api_delete_download remove reply_done return ◌>>=◌
  api_delete_download-foreign id w foreign = rw foreign (refl, refl)
