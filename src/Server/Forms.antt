-- ===== src/Server/Forms.antt =====
-- internal/server/api_bench.go: the form of a configuration, and the changes of a suite's list of them.
-- The value of a form's field and the number of a text (strconv.Atoi, its error left out) are arguments.
use ai_model_scheduler.Base.{
  eqb, length, leb, if◌then◌else◌, pos, ◌++◌, negsuc, ok, err, trim_space, Dict, Result, ℤ, List,
  Option, String, ℕ, [], ◌∷◌, none, some, zero, suc,
}
use ai_model_scheduler.Nomadapi.Api.{return, Act, ◌>>=◌}
use ai_model_scheduler.Bench.Disk.{StoreError, Disk}
use ai_model_scheduler.Bench.Config.{validate_config, ConfigError, Suite, Config}
use ai_model_scheduler.Bench.Store.{get_suite, save_suite, Codec}
use ai_model_scheduler.Server.Pages.{parse_env_lines}

-- What a form handler answers beside the page: why it refused.
pub data FormError : Type 0 where
  bad_env_line : String → FormError
  bad_form : ConfigError → FormError
  store_failed : StoreError → FormError
  no_such_config : FormError
  last_config : FormError

unfoldable pub check_form : Config → Option ConfigError → Result FormError Config
check_form cfg none = ok cfg
check_form cfg (some e) = err (bad_form e)

module _ (form_value : String → String) (atoi : String → ℤ) where
  -- formInt
  unfoldable pub form_int : String → ℤ
  form_int key = atoi (form_value key)

  unfoldable pub form_config : Dict String → Config
  unfolding form_int
  form_config env = record {
    label = trim_space (form_value "label");
    runtime = form_value "runtime";
    model = trim_space (form_value "model");
    gpu = form_value "gpu";
    ctx_size = form_int "ctx_size";
    threads = form_int "threads";
    gpu_layers = form_int "gpu_layers";
    env = env;
    extra_args = trim_space (form_value "extra_args");
    cpu_mhz = form_int "cpu_mhz";
    mem_mb = form_int "mem_mb";
  }

  unfoldable pub with_form_env : Result String (Dict String) → Result FormError Config
  with_form_env (err line) = err (bad_env_line line)
  with_form_env (ok env) = check_form (form_config env) (validate_config (form_config env))

  -- configFromForm
  unfoldable pub config_from_form : Result FormError Config
  config_from_form = with_form_env (parse_env_lines (form_value "env"))

-- append(suite.Configs[:idx], suite.Configs[idx+1:]...)
unfoldable pub remove_index : ℕ → List Config → List Config
remove_index i [] = []
remove_index zero (c ∷ cs) = cs
remove_index (suc i) (c ∷ cs) = c ∷ remove_index i cs

unfoldable pub without_config : ℕ → Suite → Suite
without_config i suite = record suite { configs = remove_index i suite.configs }

-- The checks of uiRemoveConfig on the index, which is `none` where it is no number.
unfoldable pub check_index : Option ℤ → List Config → Result FormError ℕ
check_index none cs = err no_such_config
check_index (some (negsuc i)) cs = err no_such_config
check_index (some (pos i)) cs =
    if leb (length cs) i
    then err no_such_config
    else if eqb (length cs) 1
    then err last_config
    else ok i

module _ {W : Type 0} (disk : Disk W) (dir : String) (codec : Codec Suite) where
  unfoldable pub saved_error : Option StoreError × Suite → Option FormError
  saved_error (none, suite) = none
  saved_error (some e, suite) = some (store_failed e)

  unfoldable pub save_form : Suite → Act W (Option FormError)
  save_form suite = do saved ← save_suite disk dir codec suite; return (saved_error saved)

  unfoldable pub add_found :
      Result FormError Config → Result StoreError Suite → Act W (Option FormError)
  add_found cfg (err e) = return (some (store_failed e))
  add_found (err e) (ok suite) = return (some e)
  add_found (ok cfg) (ok suite) = save_form (record suite { configs = suite.configs ++ (cfg ∷ []) })

  -- uiAddConfig, with the configuration of the form
  unfoldable pub add_config : String → Result FormError Config → Act W (Option FormError)
  add_config id cfg = get_suite disk dir codec id >>= add_found cfg

  unfoldable pub remove_checked : Suite → Result FormError ℕ → Act W (Option FormError)
  remove_checked suite (err e) = return (some e)
  remove_checked suite (ok i) = save_form (without_config i suite)

  unfoldable pub remove_found : Option ℤ → Result StoreError Suite → Act W (Option FormError)
  remove_found idx (err e) = return (some (store_failed e))
  remove_found idx (ok suite) = remove_checked suite (check_index idx suite.configs)

  -- uiRemoveConfig
  unfoldable pub remove_config : String → Option ℤ → Act W (Option FormError)
  remove_config id idx = get_suite disk dir codec id >>= remove_found idx
