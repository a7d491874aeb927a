-- ===== src/Nomadapi/Listing.antt =====
-- internal/nomadapi/jobs.go. The live usage figures of a deployment are left out.
use ai_model_scheduler.Base.{
  has_prefix, true, false, ◌&&◌, sort_by, ok, ◌++◌, not, [], sprint, err, none, contains, ◌∷◌,
  get_text, text_leb, pos, Dict, some, Bool, ◌==◌, List, ℤ, Result, if◌then◌else◌, Option, String,
}
use ai_model_scheduler.Nomadapi.Api.{
  return, Allocation, on_ok, Act, Api, ApiJob, ApiResources, JobStub, ◌>>=◌,
}
use ai_model_scheduler.Nomadapi.Deployment.{no_deployment, Deployment}
use ai_model_scheduler.Jobspec.Job.{Job}
use ai_model_scheduler.Jobspec.Common.{
  kind_inference, kind_key, gpu_key, model_key, managed_by_value, managed_by_key, runtime_key,
  job_prefix,
}
use ai_model_scheduler.Nomadapi.Allocs.{alloc_endpoint, latest_alloc}

-- strings.TrimPrefix
unfoldable pub trim_prefix : String → String → String
trim_prefix s String.[] = s
trim_prefix String.[] (String.◌∷◌ d p) = ""
trim_prefix (String.◌∷◌ c s) (String.◌∷◌ d p) = trim_prefix s p

-- taskResources
unfoldable pub task_resources : ApiJob → Option ApiResources
task_resources job = elim job.groups [
  | [] ↦ none
  | group ∷ _ ↦ elim group [ [] ↦ none | res ∷ _ ↦ res ]
]

unfoldable pub is_managed : ApiJob → Bool
is_managed job =
    get_text managed_by_key job.meta == managed_by_value
    && get_text kind_key job.meta == kind_inference

-- The vendor, also from the values that the key once had.
unfoldable pub vendor_of : String → String
vendor_of gpu = if gpu == "true" then "nvidia" else if gpu == "false" then "" else gpu

or_zero : Option ℤ → ℤ
or_zero none = pos 0
or_zero (some n) = n

resource : (ApiResources → Option ℤ) → Option ApiResources → ℤ
resource get none = pos 0
resource get (some res) = or_zero (get res)

unfoldable pub of_job : JobStub → ApiJob → Deployment
unfolding or_zero resource
of_job stub job = record no_deployment {
  job_id = stub.id;
  name = trim_prefix stub.id job_prefix;
  runtime = get_text runtime_key job.meta;
  model = get_text model_key job.meta;
  status = stub.status;
  gpu = vendor_of (get_text gpu_key job.meta);
  cpu_mhz = resource (λ res. res.cpu) (task_resources job);
  mem_mb = resource (λ res. res.memory_mb) (task_resources job);
}

abbrev pub name_leb : Deployment → Deployment → Bool
name_leb a b = text_leb a.name b.name

module _ {W : Type 0} (api : Api W) where
  -- The deployment with its allocation, where one was found.
  unfoldable pub with_alloc : Deployment → Result String (Option Allocation) → Deployment
  with_alloc d (err _) = d
  with_alloc d (ok none) = d
  with_alloc d (ok (some alloc)) =
      let (endpoint, port) = alloc_endpoint api alloc in
      record d {
        alloc_id = alloc.id;
        alloc_status = alloc.client_status;
        healthy = alloc.client_status == "running";
        endpoint = endpoint;
        port = port;
      }

  -- A job of the listing, before the `rest`: one that is gone or not this application's is passed over.
  unfoldable pub list_found :
      JobStub → Act W (List Deployment) → Result String ApiJob → Act W (List Deployment)
  list_found stub rest (err _) = rest
  list_found stub rest (ok job) = if not (is_managed job) then rest else (do
    alloc ← latest_alloc api stub.id
    deps ← rest
    return (with_alloc (of_job stub job) alloc ∷ deps))

  -- The loop of ListManaged.
  unfoldable pub list_each : List JobStub → Act W (List Deployment)
  list_each [] = return []
  list_each (stub ∷ stubs) =
      let rest = list_each stubs in
      if has_prefix stub.id job_prefix
      then (api.job_info stub.id >>= list_found stub rest)
      else rest

  unfoldable pub list_listed :
      Result String (List JobStub) → Act W (Result String (List Deployment))
  list_listed (err text) = return (err (sprint ("listing jobs: " ∷ text ∷ [])))
  list_listed (ok stubs) = do deps ← list_each stubs; return (ok (sort_by name_leb deps))

  -- ListManaged
  unfoldable pub list_managed : Act W (Result String (List Deployment))
  list_managed = api.list_jobs "" >>= list_listed

  -- ListByPrefix
  unfoldable pub list_by_prefix : String → Act W (Result String (List JobStub))
  list_by_prefix prefix = do
    listed ← api.list_jobs prefix
    on_ok listed
        (λ text. return (err (sprint ("listing jobs with prefix " ∷ prefix ∷ ": " ∷ text ∷ []))))
        λ stubs. return (ok stubs)

  -- JobMeta
  unfoldable pub job_meta : String → Act W (Result String (Dict String))
  job_meta job_id = do
    info ← api.job_info job_id
    on_ok info (λ text. return (err (sprint ("fetching job " ∷ job_id ∷ ": " ∷ text ∷ []))))
        λ job. return (ok job.meta)

  wrapped : List String → Option String → Option String
  wrapped before none = none
  wrapped before (some text) = some (sprint (before ++ text ∷ []))

  -- Register
  unfoldable pub register : Job → Act W (Option String)
  unfolding wrapped
  register job = do e ← api.register job; return (wrapped ("registering job: " ∷ []) e)

  -- Stop
  unfoldable pub stop_job : String → Bool → Act W (Option String)
  unfolding wrapped
  stop_job job_id purge = do
    e ← api.deregister job_id purge
    return (wrapped ("stopping job " ∷ job_id ∷ ": " ∷ []) e)

  -- JobExists
  unfoldable pub job_exists : String → Act W (Result String Bool)
  job_exists job_id = do
    info ← api.job_info job_id
    on_ok info (λ text. return (if contains text "404" then ok false else err text))
        λ _. return (ok true)
