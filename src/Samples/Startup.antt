-- ===== src/Samples/Startup.antt =====
-- Settings from an environment that sets only the driver.
use ai_model_scheduler.Settings.{check_settings}
use ai_model_scheduler.Settings.{dur_var}
use ai_model_scheduler.Settings.{image_vars}
use ai_model_scheduler.Settings.{int_var}
use ai_model_scheduler.Settings.{env_vars}
use ai_model_scheduler.Settings.{str_var}
use ai_model_scheduler.Base.{err, pos, some, none, ◌==◌, ok, ◌≡◌, if◌then◌else◌, refl}
use ai_model_scheduler.Settings.{load-IsUsable, defaults, Sources, load, IsUsable}

abbrev pub sources : Sources
sources = record {
  getenv = λ key. if key == "NOMAD_DRIVER" then "docker" else "";
  atoi = λ text. none;
  parse_duration = λ text. some (pos 2700000000000);
  read_file = λ path. err "no such file";
  unmarshal = λ text c. ok c;
}

load-sources : load sources ≡ ok (record defaults { driver = "docker" })
unfolding load check_settings env_vars str_var int_var dur_var image_vars
load-sources = refl

load-IsUsable_example : IsUsable (record defaults { driver = "docker" })
load-IsUsable_example = load-IsUsable sources (record defaults { driver = "docker" }) load-sources
