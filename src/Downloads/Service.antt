-- ===== src/Downloads/Service.antt =====
-- internal/downloads/downloads.go. The mutex and the log are left out.
use ai_model_scheduler.Base.{
  ◌++◌, has_prefix, sort_by, contains, trim_space, not, sprint, get_text, eqb, ok, ◌==◌, ℤ, code,
  lookup, ◌||◌, if◌then◌else◌, Option, leb, ◌&&◌, leb_ℤ, err, insert, ℕ, List, all_chars, split,
  Result, Bool, String, Dict, [], ◌∷◌, none, some, true, false,
}
use ai_model_scheduler.Nomadapi.Api.{return, Act, Allocation, JobStub, Api, ◌>>=◌}
use ai_model_scheduler.Jobspec.Job.{Env}
use ai_model_scheduler.Nomadapi.Allocs.{latest_alloc}
use ai_model_scheduler.Nomadapi.Listing.{stop_job, register, job_meta, list_by_prefix}
use ai_model_scheduler.Nomadapi.Dispatch.{dispatch}
use ai_model_scheduler.Nomadapi.Logs.{tail_logs}
use ai_model_scheduler.Jobspec.Helpers.{hf_download, hf_download_job_id}
use ai_model_scheduler.Jobspec.Common.{task_name}

-- Download; the time is in nanoseconds
pub record Download : Type 0 where
  pub id : String
  pub repo_id : String
  pub dest : String
  pub revision : String
  pub include : String
  pub status : String
  pub submitted_at : ℤ
  pub alloc_id : String

-- What Start refuses: the repository's id, or the destination; then a failed call.
pub data StartError : Type 0 where
  bad_repo : String → StartError
  bad_dest : String → StartError
  call_failed : String → StartError

-- \w
unfoldable pub is_word : ℕ → Bool
is_word c =
    (leb b'0' c && leb c b'9')
    || (leb b'A' c && leb c b'Z')
    || eqb c b'_'
    || (leb b'a' c && leb c b'z')

-- [\w.-]
unfoldable pub is_repo_char : ℕ → Bool
unfolding is_word
is_repo_char c = is_word c || eqb c b'.' || eqb c b'-'

-- [\w][\w.-]*
unfoldable pub is_repo_part : String → Bool
unfolding is_word is_repo_char all_chars
is_repo_part String.[] = false
is_repo_part (String.◌∷◌ c s) = is_word (code c) && all_chars is_repo_char s

-- repoRe, ^[\w][\w.-]*/[\w][\w.-]*$: two parts around the one slash
unfoldable pub repo_re : String → Bool
unfolding is_repo_part split
repo_re s = elim (split b'/' s) [
  | [] ↦ false
  | org ∷ names ↦ elim names [
    | [] ↦ false
    | name ∷ more ↦ elim more [ [] ↦ is_repo_part org && is_repo_part name | _ ∷ _ ↦ false ]
  ]
]

unfoldable pub put_unless_empty : String → String → Dict String → Dict String
put_unless_empty key value meta = if value == "" then meta else insert key value meta

-- The meta of a dispatch.
unfoldable pub start_meta : String → String → String → String → Dict String
unfolding put_unless_empty
start_meta repo_id revision include dest =
    put_unless_empty "include" include
      (put_unless_empty "revision" revision (("repo_id", repo_id) ∷ ("dest", dest) ∷ []))

-- The state beside Nomad's: Service.seen, and the downloads that onComplete was called for, oldest
-- first.
pub record Watch : Type 0 where
  pub seen : Dict String
  pub fired : List String

-- d.Status == "complete" && known && prev != "complete"
unfoldable pub turned : Option String → String → Bool
turned none status = false
turned (some prev) status = status == "complete" && not (prev == "complete")

-- A round of notifyTransitions, where onComplete is set.
unfoldable pub observe : Download → Watch → Watch
unfolding turned
observe d watch = record {
  seen = insert d.id d.status watch.seen;
  fired =
      if turned (lookup d.id watch.seen) d.status then watch.fired ++ (d.id ∷ []) else watch.fired;
}

-- notifyTransitions
unfoldable pub notify_transitions : List Download → Watch → Watch
unfolding observe
notify_transitions [] watch = watch
notify_transitions (d ∷ downloads) watch = notify_transitions downloads (observe d watch)

abbrev pub newest_first : Download → Download → Bool
newest_first a b = leb_ℤ b.submitted_at a.submitted_at

-- The meta of a job, where it could be read.
unfoldable pub with_meta : Result String (Dict String) → Download → Download
with_meta (err _) d = d
with_meta (ok meta) d = record d {
  repo_id = get_text "repo_id" meta;
  dest = get_text "dest" meta;
  revision = get_text "revision" meta;
  include = get_text "include" meta;
}

unfoldable pub with_latest : Result String (Option Allocation) → Download → Download
with_latest (err _) d = d
with_latest (ok none) d = d
with_latest (ok (some alloc)) d = record d { alloc_id = alloc.id; status = alloc.client_status }

unfoldable pub pending_download : JobStub → Download
pending_download stub = record {
  id = stub.id;
  repo_id = "";
  dest = "";
  revision = "";
  include = "";
  status = "pending";
  submitted_at = stub.submit_time;
  alloc_id = "";
}

module _ {W : Type 0} (api : Api W) (env : Env) (hf_token : String) where
  unfoldable pub dispatched : Result String String → Result StartError String
  dispatched (err text) = err (call_failed text)
  dispatched (ok id) = ok id

  -- The rest of Start, after the job is registered.
  unfoldable pub dispatch_download : Dict String → Option String → Act W (Result StartError String)
  dispatch_download meta (some text) =
      return (err (call_failed (sprint ("registering download job: " ∷ text ∷ []))))
  dispatch_download meta none = do id ← dispatch api hf_download_job_id meta; return (dispatched id)

  unfoldable pub start_at : String → String → String → String → Act W (Result StartError String)
  start_at repo_id revision include dest =
      if contains dest ".." || has_prefix dest "/"
      then return (err (bad_dest dest))
      else (register api (hf_download env hf_token)
          >>= dispatch_download (start_meta repo_id revision include dest))

  -- Start
  unfoldable pub start : String → String → String → String → Act W (Result StartError String)
  start repo_id revision include dest =
      let repo = trim_space repo_id in
      if not (repo_re repo)
      then return (err (bad_repo repo))
      else start_at repo revision include (if dest == "" then repo else dest)

  -- The loop of List.
  unfoldable pub describe_each : List JobStub → Act W (List Download)
  describe_each [] = return []
  describe_each (stub ∷ stubs) =
      let rest = describe_each stubs in
      (do
        meta ← job_meta api stub.id
        alloc ← latest_alloc api stub.id
        downloads ← rest
        return (with_latest alloc (with_meta meta (pending_download stub)) ∷ downloads))

  unfoldable pub list_stubs :
      Watch → Result String (List JobStub) → Act W (Result String (List Download) × Watch)
  list_stubs watch (err text) = return (err text, watch)
  list_stubs watch (ok stubs) = do
    downloads ← describe_each stubs
    return (
      ok (sort_by newest_first downloads),
      notify_transitions (sort_by newest_first downloads) watch,
    )

  -- List: the downloads, and the state of the notifications
  unfoldable pub list_downloads : Watch → Act W (Result String (List Download) × Watch)
  list_downloads watch =
      list_by_prefix api (sprint (hf_download_job_id ∷ "/" ∷ [])) >>= list_stubs watch

  -- The two streams, with a mark between them.
  unfoldable pub join_streams : String → String → String
  join_streams stdout stderr =
      if stderr == ""
      then stdout
      else if stdout == ""
      then stderr
      else sprint (stdout ∷ "\n--- stderr ---\n" ∷ stderr ∷ [])

  unfoldable pub read_streams :
      String → Result String (Option Allocation) → Act W (Result String String)
  unfolding join_streams
  read_streams id (err text) = return (err text)
  read_streams id (ok none) =
      return (err (sprint ("download " ∷ id ∷ " has no allocation yet" ∷ [])))
  read_streams id (ok (some alloc)) = do
    stdout ← tail_logs api alloc.id task_name "stdout" 4096
    stderr ← tail_logs api alloc.id task_name "stderr" 8192
    return (ok (join_streams stdout.0 stderr.0))

  -- Logs
  unfoldable pub logs : String → Act W (Result String String)
  logs id = latest_alloc api id >>= read_streams id

  -- Remove
  unfoldable pub remove : String → Act W (Option String)
  remove id =
      if not (has_prefix id (sprint (hf_download_job_id ∷ "/" ∷ [])))
      then return (some (sprint ("not a download job: " ∷ id ∷ [])))
      else stop_job api id true
