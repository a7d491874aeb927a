-- ===== src/Nomadapi/Managed.antt =====
-- What ListManaged of internal/nomadapi/jobs.go answers.
use text.Mathlib.TextLemmas.{nil-append, cons-append}
use text.Mathlib.TextEquality.{Char-path}
use mathlib.Core.Path.{ap₂}
use Prim.Native.String.{String, ◌++◌}
use ai_model_scheduler.Base.{
  arith, eq_iff, ◌≢◌, insert_by, sort_by, false, ◌⊎◌, get_text, ◌∙◌, eqb_iff, &&-true, sym,
  sort_by-All, inr, inl, Bool-cases, Option, All, ok, err, ◌==◌, List, ◌≡◌, String, has_prefix,
  Result, refl, [], ◌∷◌, none, some, true,
}
use ai_model_scheduler.Nomadapi.Api.{Allocation, Act, ApiJob, JobStub, return, Api, ◌>>=◌}
use ai_model_scheduler.Nomadapi.Deployment.{Deployment}
use ai_model_scheduler.Nomadapi.Listing.{
  list_listed, list_found, is_managed, name_leb, of_job, list_each, trim_prefix, list_managed,
  with_alloc,
}
use ai_model_scheduler.Jobspec.Common.{
  kind_inference, kind_key, managed_by_value, model_key, runtime_key, managed_by_key, job_prefix,
}

trim_prefix_lem : (s p : String) → has_prefix s p ≡ true → s ≡ p ++ trim_prefix s p
unfolding has_prefix trim_prefix
trim_prefix_lem String.[] String.[] h = sym (nil-append _)
trim_prefix_lem (String.◌∷◌ c s) String.[] h = sym (nil-append _)
trim_prefix_lem String.[] (String.◌∷◌ d p) h = cc
trim_prefix_lem (String.◌∷◌ c s) (String.◌∷◌ d p) h =
    let (head, tail) = (&&-true _ _).0 h in
    ap₂ String.◌∷◌ (Char-path c d ((eqb_iff _ _).0 head)) (trim_prefix_lem s p tail)
    ∙ sym (cons-append _ _ _)

-- Nomad answered, when it was asked for the deployment's job, with a job that this application manages
-- and that serves a model; the runtime and the model are those of its meta, the name is the job's id
-- less the prefix, and the deployment is healthy exactly if its allocation runs.
pub record IsManaged {W : Type 0} (api : Api W) (d : Deployment) : Type 0 where
  asked_at : W
  job : ApiJob
  answered : (api.job_info d.job_id asked_at).0 ≡ ok job
  managed_by : get_text managed_by_key job.meta ≡ managed_by_value
  kind : get_text kind_key job.meta ≡ kind_inference
  runtime : d.runtime ≡ get_text runtime_key job.meta
  model : d.model ≡ get_text model_key job.meta
  named : d.job_id ≡ job_prefix ++ d.name
  healthy : d.healthy ≡ d.alloc_status == "running"

-- A deployment of the list is of the job.
unfoldable pub Lists : String → List Deployment → Type 0
Lists id [] = ⊥
Lists id (d ∷ deps) = (d.job_id ≡ id) ⊎ Lists id deps

-- The job of the listing is on the list; or its id lacks the prefix, or Nomad's answer when it was asked
-- for it was an error or a job that is not managed or serves no model.
unfoldable pub IsShown : {W : Type 0} → Api W → List Deployment → JobStub → Type 0
IsShown {W = W} api deps stub =
    (has_prefix stub.id job_prefix ≡ false)
    ⊎ Lists stub.id deps
    ⊎ ((w : W) × (text : String) × ((api.job_info stub.id w).0 ≡ err text))
    ⊎ ((w : W) × (job : ApiJob) × ((api.job_info stub.id w).0 ≡ ok job)
        × ((get_text managed_by_key job.meta ≢ managed_by_value)
            ⊎ (get_text kind_key job.meta ≢ kind_inference)))

-- Of Nomad's listing of the jobs, and the deployments: an error if that is one; else each deployment is
-- managed, and each job of the listing is shown.
unfoldable pub AreManaged :
    {W : Type 0} → Api W → Result String (List JobStub) → Result String (List Deployment) → Type 0
AreManaged api (err _) (err _) = Unit {0}
AreManaged api (err _) (ok deps) = ⊥
AreManaged api (ok stubs) (err _) = ⊥
AreManaged api (ok stubs) (ok deps) = All (IsManaged api) deps × All (IsShown api deps) stubs

insert_by-Lists :
    (id : String) (a : Deployment) (deps : List Deployment)
    → Lists id (a ∷ deps)
    → Lists id (insert_by name_leb a deps)
unfolding insert_by Lists
insert_by-Lists id a [] h = h
insert_by-Lists id a (d ∷ deps) h = elim (Bool-cases (name_leb a d)) [
  | inl e ↦ rw e h
  | inr e ↦ rw e (elim h [
    | inl same ↦ inr (insert_by-Lists id a deps (inl same))
    | inr (inl first) ↦ inl first
    | inr (inr rest) ↦ inr (insert_by-Lists id a deps (inr rest))
  ])
]

sort_by-Lists :
    (id : String) (deps : List Deployment) → Lists id deps → Lists id (sort_by name_leb deps)
unfolding sort_by Lists
sort_by-Lists id [] h = h
sort_by-Lists id (d ∷ deps) (inl same) = insert_by-Lists id d (sort_by name_leb deps) (inl same)
sort_by-Lists id (d ∷ deps) (inr rest) =
    insert_by-Lists id d (sort_by name_leb deps) (inr (sort_by-Lists id deps rest))

module _ {W : Type 0} (api : Api W) where
  IsShown-map :
      (old new : List Deployment)
      → ((id : String) → Lists id old → Lists id new)
      → (stub : JobStub) → IsShown api old stub
      → IsShown api new stub
  unfolding IsShown
  IsShown-map old new f stub (inl other) = inl other
  IsShown-map old new f stub (inr (inl listed)) = inr (inl (f stub.id listed))
  IsShown-map old new f stub (inr (inr passed)) = inr (inr passed)

  All-IsShown :
      (old new : List Deployment) (stubs : List JobStub)
      → ((id : String) → Lists id old → Lists id new)
      → All (IsShown api old) stubs
      → All (IsShown api new) stubs
  All-IsShown old new [] f h = tt
  All-IsShown old new (stub ∷ stubs) f (h, hs) =
      (IsShown-map old new f stub h, All-IsShown old new stubs f hs)

  meta_of :
      (job : ApiJob)
      → is_managed job ≡ true
      → (get_text managed_by_key job.meta ≡ managed_by_value)
        × (get_text kind_key job.meta ≡ kind_inference)
  unfolding is_managed
  meta_of job m =
      let (managed, serves) = (&&-true _ _).0 m in ((eq_iff _ _).0 managed, (eq_iff _ _).0 serves)

  with_alloc-IsManaged :
      (stub : JobStub) (job : ApiJob) (w : W) (alloc : Result String (Option Allocation))
      → (api.job_info stub.id w).0 ≡ ok job
      → is_managed job ≡ true
      → has_prefix stub.id job_prefix ≡ true
      → IsManaged api (with_alloc api (of_job stub job) alloc)
        × ((with_alloc api (of_job stub job) alloc).job_id ≡ stub.id)
  unfolding with_alloc of_job
  with_alloc-IsManaged stub job w alloc e m h = go alloc
    where
      with_meta :
          (d : Deployment)
          → d.job_id ≡ stub.id
          → d.runtime ≡ get_text runtime_key job.meta
          → d.model ≡ get_text model_key job.meta
          → d.name ≡ trim_prefix stub.id job_prefix
          → d.healthy ≡ d.alloc_status == "running"
          → IsManaged api d × (d.job_id ≡ stub.id)
      with_meta d id runtime model name healthy = (
        record {
          asked_at = w;
          job = job;
          answered = rw id e;
          managed_by = (meta_of job m).0;
          kind = (meta_of job m).1;
          runtime = runtime;
          model = model;
          named = rw (id, name) (trim_prefix_lem stub.id job_prefix h);
          healthy = healthy;
        },
        id,
      )

      go :
          (found : Result String (Option Allocation))
          → IsManaged api (with_alloc api (of_job stub job) found)
            × ((with_alloc api (of_job stub job) found).job_id ≡ stub.id)
      go (err _) = with_meta _ refl refl refl refl refl
      go (ok none) = with_meta _ refl refl refl refl refl
      go (ok (some alloc)) = with_meta _ refl refl refl refl refl

  -- What a listing becomes, before it is sorted.
  AreListed : List JobStub → List Deployment → Type 0
  AreListed stubs deps = All (IsManaged api) deps × All (IsShown api deps) stubs

  unmanaged :
      (job : ApiJob)
      → is_managed job ≡ false
      → (get_text managed_by_key job.meta ≢ managed_by_value)
        ⊎ (get_text kind_key job.meta ≢ kind_inference)
  unfolding is_managed
  unmanaged job h = elim (Bool-cases (get_text managed_by_key job.meta == managed_by_value)) [
    | inl e ↦ inr λ k. let same = (eq_iff _ _).1 k in ground (arith, h, e, same)
    | inr e ↦ inl λ k. let same = (eq_iff _ _).1 k in cc
  ]

  AreListed-nil : AreListed [] []
  unfolding AreListed
  AreListed-nil = (tt, tt)

  AreListed-passed :
      (stub : JobStub) (stubs : List JobStub) (deps : List Deployment)
      → has_prefix stub.id job_prefix ≡ false
      → AreListed stubs deps
      → AreListed (stub ∷ stubs) deps
  unfolding AreListed IsShown
  AreListed-passed stub stubs deps e (managed, shown) = (managed, (inl e, shown))

  AreListed-shown :
      (stub : JobStub) (stubs : List JobStub) (d : Deployment) (deps : List Deployment)
      → IsManaged api d × (d.job_id ≡ stub.id)
      → AreListed stubs deps
      → AreListed (stub ∷ stubs) (d ∷ deps)
  unfolding AreListed IsShown Lists
  AreListed-shown stub stubs d deps (found, same) (managed, shown) = (
    (found, managed),
    (inr (inl (inl same)), All-IsShown deps (d ∷ deps) stubs (λ id listed. inr listed) shown),
  )

  AreListed-failed :
      (stub : JobStub) (stubs : List JobStub) (deps : List Deployment) (w : W) (text : String)
      → (api.job_info stub.id w).0 ≡ err text
      → AreListed stubs deps
      → AreListed (stub ∷ stubs) deps
  unfolding AreListed IsShown
  AreListed-failed stub stubs deps w text e (managed, shown) =
      (managed, (inr (inr (inl (w, text, e))), shown))

  AreListed-other :
      (stub : JobStub) (stubs : List JobStub) (deps : List Deployment) (w : W) (job : ApiJob)
      → (api.job_info stub.id w).0 ≡ ok job
      → is_managed job ≡ false
      → AreListed stubs deps
      → AreListed (stub ∷ stubs) deps
  unfolding AreListed IsShown
  AreListed-other stub stubs deps w job e m (managed, shown) =
      (managed, (inr (inr (inr (w, job, e, unmanaged job m))), shown))

  list_found-AreListed :
      (stub : JobStub) (stubs : List JobStub) (rest : Act W (List Deployment)) (asked : W)
      (info : Result String ApiJob)
      → (api.job_info stub.id asked).0 ≡ info
      → has_prefix stub.id job_prefix ≡ true
      → ((w : W) → AreListed stubs (rest w).0)
      → (w : W) → AreListed (stub ∷ stubs) (list_found api stub rest info w).0
  unfolding list_found return ◌>>=◌
  list_found-AreListed stub stubs rest asked (err text) e h k w =
      AreListed-failed stub stubs _ asked text e (k w)
  list_found-AreListed stub stubs rest asked (ok job) e h k w = elim (Bool-cases (is_managed job)) [
    | inl m ↦
        rw m (AreListed-shown stub stubs _ _ (with_alloc-IsManaged stub job asked _ e m h) (k _))
    | inr m ↦ rw m (AreListed-other stub stubs _ asked job e m (k w))
  ]

  list_each-AreListed : (stubs : List JobStub) (w : W) → AreListed stubs (list_each api stubs w).0
  unfolding list_each return ◌>>=◌
  list_each-AreListed [] w = AreListed-nil
  list_each-AreListed (stub ∷ stubs) w = elim (Bool-cases (has_prefix stub.id job_prefix)) [
    | inl e ↦ rw e (
        list_found-AreListed stub stubs (list_each api stubs) w _ refl e (list_each-AreListed stubs)
          _)
    | inr e ↦ rw e (AreListed-passed stub stubs _ e (list_each-AreListed stubs w))
  ]

  list_listed-AreManaged :
      (listed : Result String (List JobStub)) (w : W)
      → AreManaged api listed (list_listed api listed w).0
  unfolding list_listed return ◌>>=◌ AreManaged AreListed
  list_listed-AreManaged (err _) w = tt
  list_listed-AreManaged (ok stubs) w =
      let deps = (list_each api stubs w).0 in
      let (managed, shown) = list_each-AreListed stubs w in
      (
        sort_by-All name_leb (IsManaged api) deps managed,
        All-IsShown deps _ stubs (λ id. sort_by-Lists id deps) shown,
      )

  -- Where Nomad lists its jobs, `list_managed` answers deployments: each is of a job that, when Nomad
  -- was asked for it, was managed by this application and served a model, with that job's runtime and
  -- model, under its id less "model-", healthy exactly if its allocation's status is "running"; and
  -- each listed job is among them, unless its id lacks the prefix, or Nomad answered an error for it or
  -- a job that is not managed or serves no model. Where Nomad's listing fails, so does `list_managed`.
  pub list_managed-AreManaged :
      (w : W) → AreManaged api (api.list_jobs "" w).0 (list_managed api w).0
  unfolding list_managed ◌>>=◌
  list_managed-AreManaged w = list_listed-AreManaged _ _
