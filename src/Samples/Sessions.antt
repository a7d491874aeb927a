-- ===== src/Samples/Sessions.antt =====
-- A runner that has started a run.
use ai_model_scheduler.Base.{
  insert, lookup, all_chars, path_join, String, Dict, ◌≡◌, refl, [], ◌∷◌, false,
}
use ai_model_scheduler.Samples.Stores.{disk, codec, suites, datasets, decode_row}
use ai_model_scheduler.Samples.Benchmarks.{suite, run}
use ai_model_scheduler.Bench.Session.{
  saved_run, run_store, launch, starts, started, opened, stepped, Reachable, IsSole, Session,
}
use ai_model_scheduler.Server.Api.{api_delete_run}
use ai_model_scheduler.Bench.Sole.{Reachable-IsSole}
use ai_model_scheduler.Bench.Control.{pending_results, adopt, new_run, begin, active_id}
use ai_model_scheduler.Server.Protection.{api_delete_run-executing}
use ai_model_scheduler.Bench.Store.{save_run}
use ai_model_scheduler.Nomadapi.Api.{◌>>=◌, return}
use ai_model_scheduler.Bench.Store.{
  path, write_json, write_at, id_re, name_run, write_encoded, atomic_write, rename_written,
  as_failed,
}

abbrev pub opened_runner : Session (Dict String)
opened_runner = record {
  control = record { active = ""; cancelling = false };
  executing = [];
  files = [];
}

abbrev pub busy_runner : Session (Dict String)
busy_runner = started 0 disk "data" suites codec datasets decode_row suite run.eval opened_runner

pub busy_runner-Reachable : Reachable 0 disk "data" suites codec datasets decode_row busy_runner
busy_runner-Reachable = stepped (opened []) (starts opened_runner suite run.eval)

Reachable-IsSole_example : IsSole busy_runner
Reachable-IsSole_example =
    Reachable-IsSole 0 disk "data" suites codec datasets decode_row busy_runner
      busy_runner-Reachable

pub busy : busy_runner.executing ≡ "20250101-000000-abc123" ∷ []
unfolding started launch begin run_store saved_run save_run ◌>>=◌ return write_json write_at path
    id_re name_run new_run write_encoded atomic_write rename_written path_join all_chars adopt
    as_failed pending_results lookup insert
busy = refl

api_delete_run-executing_example :
    ((api_delete_run disk "data" suites codec datasets decode_row
        (active_id busy_runner.control)
        "20250101-000000-abc123"
        busy_runner.files).0.0
      ≡ 409)
    × ((api_delete_run disk "data" suites codec datasets decode_row
          (active_id busy_runner.control)
          "20250101-000000-abc123"
          busy_runner.files).1
        ≡ busy_runner.files)
api_delete_run-executing_example =
    api_delete_run-executing 0 disk "data" suites codec datasets decode_row busy_runner
      "20250101-000000-abc123" [] [] busy_runner-Reachable busy
