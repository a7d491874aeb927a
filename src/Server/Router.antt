-- ===== src/Server/Router.antt =====
-- internal/server/router.go: the routes of Handler.
use ai_model_scheduler.Base.{refl, not, ◌&&◌, true, ◌==◌, ◌≡◌, Bool, any, String, List, [], ◌∷◌}

-- The handlers, by their names.
pub data HandlerName : Type 0 where
  api_health api_list_deployments api_create_deployment api_get_deployment api_delete_deployment :
      HandlerName
  api_deployment_logs api_node_stats api_alloc_stats api_gpu_stats api_list_gpus : HandlerName
  api_refresh_gpus api_list_models api_refresh_models api_list_downloads api_start_download :
      HandlerName
  api_download_logs api_delete_download api_list_suites api_create_suite api_get_suite : HandlerName
  api_delete_suite api_list_runs api_start_run api_get_run api_delete_run : HandlerName
  api_cancel_run api_export_run api_list_datasets api_upload_dataset api_delete_dataset :
      HandlerName
  ui_dashboard ui_deploy_page ui_deploy_submit ui_deployment_detail ui_stop_deployment : HandlerName
  ui_models ui_refresh_models ui_downloads ui_start_download ui_remove_download : HandlerName
  ui_rescan_gpus ui_benchmarks ui_create_suite ui_suite_page ui_delete_suite : HandlerName
  ui_add_config ui_remove_config ui_upload_dataset ui_delete_dataset ui_start_run : HandlerName
  ui_run_page ui_cancel_run ui_delete_run partial_run partial_runs : HandlerName
  partial_health partial_deployments partial_node_stats partial_logs partial_models : HandlerName
  partial_model_select partial_downloads partial_download_logs partial_gpus : HandlerName

pub record Route : Type 0 where
  pub method : String
  pub path_pattern : String
  pub handler_name : HandlerName

abbrev route : String → String → HandlerName → Route
route m p h = record { method = m; path_pattern = p; handler_name = h }

-- The calls of mux.HandleFunc, in their order.
abbrev pub routes : List Route
routes =
    route "GET" "/api/v1/health" api_health
    ∷ route "GET" "/api/v1/deployments" api_list_deployments
    ∷ route "POST" "/api/v1/deployments" api_create_deployment
    ∷ route "GET" "/api/v1/deployments/{name}" api_get_deployment
    ∷ route "DELETE" "/api/v1/deployments/{name}" api_delete_deployment
    ∷ route "GET" "/api/v1/deployments/{name}/logs" api_deployment_logs
    ∷ route "GET" "/api/v1/stats/node" api_node_stats
    ∷ route "GET" "/api/v1/stats/allocations/{id}" api_alloc_stats
    ∷ route "GET" "/api/v1/stats/gpus" api_gpu_stats
    ∷ route "GET" "/api/v1/hardware/gpus" api_list_gpus
    ∷ route "POST" "/api/v1/hardware/refresh" api_refresh_gpus
    ∷ route "GET" "/api/v1/models" api_list_models
    ∷ route "POST" "/api/v1/models/refresh" api_refresh_models
    ∷ route "GET" "/api/v1/downloads" api_list_downloads
    ∷ route "POST" "/api/v1/downloads" api_start_download
    ∷ route "GET" "/api/v1/downloads/logs/{id...}" api_download_logs
    ∷ route "DELETE" "/api/v1/downloads/{id...}" api_delete_download
    ∷ route "GET" "/api/v1/benchmarks/suites" api_list_suites
    ∷ route "POST" "/api/v1/benchmarks/suites" api_create_suite
    ∷ route "GET" "/api/v1/benchmarks/suites/{id}" api_get_suite
    ∷ route "DELETE" "/api/v1/benchmarks/suites/{id}" api_delete_suite
    ∷ route "GET" "/api/v1/benchmarks/runs" api_list_runs
    ∷ route "POST" "/api/v1/benchmarks/runs" api_start_run
    ∷ route "GET" "/api/v1/benchmarks/runs/{id}" api_get_run
    ∷ route "DELETE" "/api/v1/benchmarks/runs/{id}" api_delete_run
    ∷ route "POST" "/api/v1/benchmarks/runs/{id}/cancel" api_cancel_run
    ∷ route "GET" "/api/v1/benchmarks/runs/{id}/export/{format}" api_export_run
    ∷ route "GET" "/api/v1/benchmarks/datasets" api_list_datasets
    ∷ route "POST" "/api/v1/benchmarks/datasets" api_upload_dataset
    ∷ route "DELETE" "/api/v1/benchmarks/datasets/{id}" api_delete_dataset
    ∷ route "GET" "/{$}" ui_dashboard
    ∷ route "GET" "/deploy" ui_deploy_page
    ∷ route "POST" "/deploy" ui_deploy_submit
    ∷ route "GET" "/deployments/{name}" ui_deployment_detail
    ∷ route "DELETE" "/deployments/{name}" ui_stop_deployment
    ∷ route "GET" "/models" ui_models
    ∷ route "POST" "/models/refresh" ui_refresh_models
    ∷ route "GET" "/downloads" ui_downloads
    ∷ route "POST" "/downloads" ui_start_download
    ∷ route "DELETE" "/downloads/{id...}" ui_remove_download
    ∷ route "POST" "/hardware/refresh" ui_rescan_gpus
    ∷ route "GET" "/benchmarks" ui_benchmarks
    ∷ route "POST" "/benchmarks/suites" ui_create_suite
    ∷ route "GET" "/benchmarks/suites/{id}" ui_suite_page
    ∷ route "DELETE" "/benchmarks/suites/{id}" ui_delete_suite
    ∷ route "POST" "/benchmarks/suites/{id}/configs" ui_add_config
    ∷ route "DELETE" "/benchmarks/suites/{id}/configs/{idx}" ui_remove_config
    ∷ route "POST" "/benchmarks/datasets" ui_upload_dataset
    ∷ route "DELETE" "/benchmarks/datasets/{id}" ui_delete_dataset
    ∷ route "POST" "/benchmarks/runs" ui_start_run
    ∷ route "GET" "/benchmarks/runs/{id}" ui_run_page
    ∷ route "POST" "/benchmarks/runs/{id}/cancel" ui_cancel_run
    ∷ route "DELETE" "/benchmarks/runs/{id}" ui_delete_run
    ∷ route "GET" "/partials/bench-run" partial_run
    ∷ route "GET" "/partials/bench-runs" partial_runs
    ∷ route "GET" "/partials/health" partial_health
    ∷ route "GET" "/partials/deployments" partial_deployments
    ∷ route "GET" "/partials/node-stats" partial_node_stats
    ∷ route "GET" "/partials/logs" partial_logs
    ∷ route "GET" "/partials/models" partial_models
    ∷ route "GET" "/partials/model-select" partial_model_select
    ∷ route "GET" "/partials/downloads" partial_downloads
    ∷ route "GET" "/partials/download-logs" partial_download_logs
    ∷ route "GET" "/partials/gpus" partial_gpus
    ∷ []

is_same_route : Route → Route → Bool
is_same_route a b = a.method == b.method && a.path_pattern == b.path_pattern

are_distinct : List Route → Bool
unfolding is_same_route
are_distinct [] = true
are_distinct (r ∷ rest) = not (any (is_same_route r) rest) && are_distinct rest

-- No route is registered twice, which would make the server panic at its start.
routes-distinct : are_distinct routes ≡ true
unfolding are_distinct any
routes-distinct = refl
