-- ===== src/Lib.antt =====
-- A model of ai-model-scheduler, a web application that deploys language-model servers on a Nomad
-- cluster and benchmarks them, with theorems about it.
--
-- The program's parts and their files:
--   * internal/jobspec turns deployment parameters into Nomad jobs. Jobspec/Params has Params and
--     Params.Validate, Jobspec/Common baseJob with its constants, Jobspec/Runtimes the builders for
--     llama.cpp, vLLM and Ollama and Build, Jobspec/BenchJobs the batch jobs of a benchmark,
--     Jobspec/Job the fields of the jobs that are set, Jobspec/Helpers and Scripts the helper jobs of
--     helpers.go. Validity, Built and Arguments are about them.
--   * internal/nomadapi is the program's view of Nomad: Nomadapi/Api has what it calls of the Nomad
--     API, Deployment one entry of the listing, Allocs allocs.go, Listing jobs.go, Logs logs.go,
--     Dispatch dispatch.go, Stats stats.go, Health the health of client.go, and Lines the reading of
--     JSON lines that the catalog and the hardware service share. Managed, Latest, Plain and Waiting
--     are about them.
--   * internal/deploy checks a request against the list, chooses a port and registers the job:
--     Deploy/Service, with the texts of its errors in Messages. Ports and Registers are about it.
--   * internal/bench runs suites of configurations. Bench/Config and Bench/Eval have types.go up to
--     Normalize, with Suites and Normal about them; Bench/Run has the records of a run. runner.go is
--     Bench/Cluster (the interface Cluster, the clock, the store and the context), Polling (waitBatch,
--     waitHealthy), Staging (stageDataset, with Parts about it), Output and Watch (results.go and
--     watchEval), Stopping (stopOthers, restore), Configs (runConfig), Execute (execute, Recover) and
--     Control (Start, Cancel, ActiveID). Session puts Control over the store: the runner with the
--     goroutines that execute its runs as a step relation, and Sole is about it. Opening has NewStore
--     and the curated tasks.
--     Keeps and Leads have the rules for invariants and for what follows an action; Outage,
--     Unstopped, Covered, Running, Told, Restores and Relaunch are about what a run leaves stopped,
--     Outcomes, Endings, Interrupted and Recovered about the statuses; Reading, Clock and Deadlines about the end
--     of the polling loops. Table and Grid are BuildTable and the CSV export of results.go, with Cells, Best
--     and Winner about them. Disk, Store and Datasets are store.go, with Stored about it, and Adapter
--     is cluster.go: the cluster that the runner calls, made of Nomadapi and Deploy. Known is about
--     the parameters that this cluster has on record for a deployment.
--   * internal/catalog caches the index of the models: Catalog/Cache has the cache with its rescans as
--     a step relation, Scan one rescan. Flights and Progress are about the cache, and Spec has what its
--     callers see of it, with the theorem that relates the two.
--   * internal/downloads: Downloads/Service, with Transitions about its notifications.
--   * internal/hardware: Hardware/Service, with Fresh about its cache and its samples.
--   * internal/server: Server/Pages has the numbers and texts of the pages and the environment lines of
--     the deploy form, with Units about them. Auth has the middleware and Router the routes; Replies
--     has what the handlers answer. The handlers are in Deployments (api_deployments.go, with
--     Conflicts about it), DeployForm (ui_pages.go), Downloads (api_downloads.go), Models
--     (api_models.go, with Selection about it), Gpus (api_hardware.go, api_stats.go, api_health.go),
--     and for api_bench.go in Api (the store's API), Forms (a configuration's form, with Removal about
--     it), Suites (the pages of suites and datasets) and Runs (starting, cancelling, exporting and
--     showing runs, with RunForm and Defaults for their form). Protection, Busy and Steps are about the
--     handlers and the runner.
--   * internal/config loads the settings from the defaults, a file and the environment: Settings, which
--     also gives the environment of the builders. Its positive port range is what Deploy/Ports needs.
--   * Base has what all share: tests, lists, integers, text, maps, paths, results. Samples has
--     concrete inputs.
--
-- Whatever is outside the repository is a parameter: the Nomad client and the runner's host answer
-- each call by a function of a state that they may change as they like, so the answers may depend on
-- all that happened before. The runner's actions keep a log of the calls that change something, for
-- the statements alone. Floating-point numbers, JSON, gzip with base64, SHA-256 and the text of a
-- duration are parameters too.
--
-- Integers of the program are ℤ; a product that can exceed 64 bits (a timeout in nanoseconds) is
-- wrapped. Times are nanoseconds. The polling loops take fuel, one unit for a round: the statements hold
-- for every fuel, a loop that has none left counts as a failure, and under a clock that each wait
-- advances (Bench/Clock, Nomadapi/Waiting) a fuel beyond the time that is left is enough. The loops over
-- lists of ports and parts take as many rounds as there are items, which is enough for them; humanBytes
-- takes 64, and ends after at most six.
--
-- Not modelled: the templates and the wiring of the server, the live usage figures in the listing of
-- deployments, the YAML of a suite's page, and all logging. The locks of the store and the services are
-- not modelled: each of their operations is one step. The runner's sections under its lock are the
-- steps of Bench/Session, where what `execute` does between them is left open; Bench/Execute has what it
-- does, from the run that Start gave. The catalog's rescans are taken apart into the sections under
-- its mutex. What the handlers of the models are answered by the catalog is an argument, since a caller
-- waits there between two sections.

pub mod Base
pub mod Jobspec
pub mod Nomadapi
pub mod Deploy
pub mod Bench
pub mod Settings
pub mod Samples
pub mod Downloads
pub mod Catalog
pub mod Hardware
pub mod Server
