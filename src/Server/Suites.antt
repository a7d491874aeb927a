-- ===== src/Server/Suites.antt =====
-- internal/server/api_bench.go and internal/bench/yaml.go: suites and datasets. The values of a form,
-- its files and the decoding of YAML are arguments.
use ai_model_scheduler.Base.{
  ◌==◌, ok, err, trim_space, contains, if◌then◌else◌, sprint, ℕ, Option, String, List, Result, [],
  ◌∷◌, none, some,
}
use ai_model_scheduler.Nomadapi.Api.{Act, ◌>>=◌, return}
use ai_model_scheduler.Bench.Disk.{failed, bad_suite, StoreError, Disk}
use ai_model_scheduler.Bench.Config.{validate_suite, Config, SuiteError, Suite}
use ai_model_scheduler.Bench.Datasets.{
  list_datasets, delete_dataset, save_dataset, DecodeRow, Dataset,
}
use ai_model_scheduler.Server.Forms.{store_failed, FormError}
use ai_model_scheduler.Bench.Store.{list_suites, delete_suite, save_suite, Codec}

-- The answers for the pages of the benchmarks: benchRedirectError and http.Error with the error.
pub data Page (E A : Type 0) : Type 0 where
  shown : A → Page E A
  no_content : Page E A
  redirect : String → Page E A
  redirect_error : String → E → Page E A
  http_error : ℕ → E → Page E A

-- benchRedirectError: the location, from the error's text; url.QueryEscape is an argument
unfoldable pub error_location : (String → String) → String → String → String
error_location escape to text =
    sprint (to ∷ (if contains to "?" then "&" else "?") ∷ "error=" ∷ escape text ∷ [])

unfoldable pub validated : Suite → Option SuiteError → Result StoreError Suite
validated suite none = ok suite
validated suite (some e) = err (bad_suite e)

unfoldable pub validate_decoded : Result String Suite → Result StoreError Suite
unfolding validated
validate_decoded (err text) = err (failed (sprint ("parsing suite yaml: " ∷ text ∷ [])))
validate_decoded (ok suite) = validated suite (validate_suite suite)

-- ParseSuiteYAML
unfoldable pub parse_suite_yaml : (String → Result String Suite) → String → Result StoreError Suite
unfolding validate_decoded
parse_suite_yaml decode_yaml data' = validate_decoded (decode_yaml data')

unfoldable pub unmarshalled : Result String Suite → Result StoreError Suite
unmarshalled (err text) = err (failed text)
unmarshalled (ok suite) = ok suite

-- The suite of apiCreateSuite: YAML where the content type says so, else JSON.
unfoldable pub body_suite :
    (String → Result String Suite)
    → (String → Result String Suite)
    → String
    → String
    → Result StoreError Suite
unfolding parse_suite_yaml unmarshalled
body_suite decode_yaml decode_json content_type body =
    if contains content_type "yaml"
    then parse_suite_yaml decode_yaml body
    else unmarshalled (decode_json body)

unfoldable pub as_form : {A : Type 0} → Result StoreError A → Result FormError A
as_form (err e) = err (store_failed e)
as_form (ok a) = ok a

unfoldable pub suite_of_config : String → Result FormError Config → Result FormError Suite
suite_of_config name (err e) = err e
suite_of_config name (ok cfg) =
    ok (record { id = ""; name = name; configs = cfg ∷ []; created_at = 0; updated_at = 0 })

-- The suite of uiCreateSuite: of the file, where the form has one that was read or not, else of the
-- form's fields.
unfoldable pub form_suite :
    (String → Result String Suite)
    → Option (Result String String)
    → String
    → Result FormError Config
    → Result FormError Suite
unfolding parse_suite_yaml as_form suite_of_config
form_suite decode_yaml none name cfg = suite_of_config name cfg
form_suite decode_yaml (some (err text)) name cfg = err (store_failed (failed text))
form_suite decode_yaml (some (ok body)) name cfg = as_form (parse_suite_yaml decode_yaml body)

-- What uiUploadDataset calls the dataset.
unfoldable pub dataset_name : String → String → String
dataset_name name filename = if trim_space name == "" then filename else trim_space name

-- benchmarksPageData
pub record BenchmarksData : Type 0 where
  pub suites : List Suite
  pub datasets : List Dataset
  pub error : String

unfoldable pub list_or_none : {A : Type 0} → Result StoreError (List A) → List A
list_or_none (err _) = []
list_or_none (ok list) = list

unfoldable pub no_content_or : {A : Type 0} → Option StoreError → Page StoreError A
no_content_or none = no_content
no_content_or (some e) = http_error 400 e

module _ {W : Type 0} (disk : Disk W) (dir : String) (suites : Codec Suite)
    (datasets : Codec Dataset) (decode_row : DecodeRow) where
  -- uiBenchmarks, with the value "error" of the query
  unfoldable pub ui_benchmarks : String → Act W BenchmarksData
  unfolding list_or_none
  ui_benchmarks text = do
    found ← list_suites disk dir suites
    sets ← list_datasets disk dir datasets decode_row
    return (record { suites = list_or_none found; datasets = list_or_none sets; error = text })

  unfoldable pub created_page : Option StoreError × Suite → Page FormError Suite
  created_page (some e, suite) = redirect_error "/benchmarks" (store_failed e)
  created_page (none, suite) = redirect (sprint ("/benchmarks/suites/" ∷ suite.id ∷ []))

  -- uiCreateSuite
  unfoldable pub ui_create_suite : Result FormError Suite → Act W (Page FormError Suite)
  ui_create_suite (err e) = return (redirect_error "/benchmarks" e)
  ui_create_suite (ok suite) = do
    saved ← save_suite disk dir suites (record suite { id = "" })
    return (created_page saved)

  -- uiDeleteSuite
  unfoldable pub ui_delete_suite : String → Act W (Page StoreError Suite)
  unfolding no_content_or
  ui_delete_suite id = do e ← delete_suite disk dir id; return (no_content_or e)

  unfoldable pub uploaded_page : Result StoreError Dataset → Page StoreError Dataset
  uploaded_page (err e) = redirect_error "/benchmarks" e
  uploaded_page (ok ds) = redirect "/benchmarks"

  -- uiUploadDataset: the form's file with its name, as it was read, or none
  unfoldable pub ui_upload_dataset :
      String → Option (String × Result String String) → Act W (Page StoreError Dataset)
  unfolding dataset_name
  ui_upload_dataset name none = return (redirect_error "/benchmarks" (failed "choose a JSONL file"))
  ui_upload_dataset name (some (filename, err text)) =
      return (redirect_error "/benchmarks" (failed text))
  ui_upload_dataset name (some (filename, ok body)) = do
    saved ← save_dataset disk dir datasets decode_row (dataset_name name filename) body
    return (uploaded_page saved)

  -- uiDeleteDataset
  unfoldable pub ui_delete_dataset : String → Act W (Page StoreError Dataset)
  unfolding no_content_or
  ui_delete_dataset id = do
    e ← delete_dataset disk dir datasets decode_row id
    return (no_content_or e)
