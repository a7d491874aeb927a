-- ===== src/Samples/Stores.antt =====
-- A disk in memory, with the store's records on it.
use ai_model_scheduler.Bench.Store.{remove}
use ai_model_scheduler.Bench.Store.{delete_run}
use ai_model_scheduler.Bench.Store.{unless_missing}
use ai_model_scheduler.Server.Api.{respond_id}
use ai_model_scheduler.Bench.Store.{remove_at}
use ai_model_scheduler.Bench.Store.{path}
use ai_model_scheduler.Bench.Store.{write_at}
use ai_model_scheduler.Bench.Store.{rename_written}
use ai_model_scheduler.Bench.Store.{write_encoded}
use ai_model_scheduler.Bench.Store.{id_re}
use ai_model_scheduler.Bench.Store.{atomic_write}
use ai_model_scheduler.Nomadapi.Api.{return}
use ai_model_scheduler.Bench.Store.{write_json}
use ai_model_scheduler.Nomadapi.Api.{◌>>=◌}
use ai_model_scheduler.Bench.Store.{name_run}
use ai_model_scheduler.Base.{path_join}
use ai_model_scheduler.Base.{
  length, split, inr, inl, All, ℕ, ◌↔◌, Bool-cases, ◌==◌, err, insert, ◌≡◌, ok, if◌then◌else◌,
  lookup-insert_self, Option, Dict, String, lookup, refl, [], ◌∷◌, none, some, true,
}
use ai_model_scheduler.Bench.Store.{save_run, Codec, get_run}
use ai_model_scheduler.Bench.Datasets.{
  Dataset, count_jsonl_rows_iff, rows_of, IsRow, count_jsonl_rows, DecodeRow,
}
use ai_model_scheduler.Bench.Disk.{of_file, IsDisk, Disk}
use ai_model_scheduler.Bench.Run.{Run}
use ai_model_scheduler.Samples.Benchmarks.{suite, run}
use ai_model_scheduler.Bench.Stored.{get_run-save_run}
use ai_model_scheduler.Server.Api.{api_get_run-api_delete_run, api_get_run, api_delete_run}
use ai_model_scheduler.Bench.Config.{Suite}

unfoldable pub without : String → Dict String → Dict String
without p [] = []
without p ((q, data') ∷ files) =
    let rest = without p files in if q == p then rest else (q, data') ∷ rest

lookup-without : (p : String) (files : Dict String) → lookup p (without p files) ≡ none
unfolding lookup without
lookup-without p [] = refl
lookup-without p ((q, data') ∷ files) = elim (Bool-cases (q == p)) [
  | inl e ↦ rw e (lookup-without p files)
  | inr e ↦ rw (e, e) (lookup-without p files)
]

abbrev pub moved : String → Option String → Dict String → Option String × Dict String
moved new none files = (some "no such file", files)
moved new (some data') files = (none, insert new data' files)

moved_lem :
    (new : String) (data' : Option String) (files : Dict String)
    → (moved new data' files).0 ≡ none
    → lookup new (moved new data' files).1 ≡ data'
moved_lem new none files h = cc
moved_lem new (some data') files h = lookup-insert_self new data' files

abbrev pub disk : Disk (Dict String)
disk = record {
  write_file = λ p data' files. (none, insert p data' files);
  rename = λ old new files. moved new (lookup old files) files;
  read_file = λ p files. (of_file (lookup p files), files);
  remove = λ p files. (none, without p files);
  read_dir = λ p files. (ok [], files);
  now = λ files. (0, files);
  new_id = λ files. ("20250101-000000-abc123", files);
}

disk-IsDisk : IsDisk disk
disk-IsDisk = record {
  file = λ files p. lookup p files;
  read = λ p files. refl;
  written = λ p data' files h. lookup-insert_self p data' files;
  renamed = λ old new files h. moved_lem new (lookup old files) files h;
  removed = λ p files h. lookup-without p files;
}

abbrev pub codec : Codec (Run ℕ)
codec = record { encode = λ run. ok "run"; decode = λ text. ok run }

abbrev after_save : Dict String
after_save = (save_run disk "data" codec run []).1

codec_reads : (data' : String) → codec.encode run ≡ ok data' → codec.decode data' ≡ ok run
codec_reads data' h = refl

run_saved : save_run disk "data" codec run [] ≡ ((none, run), after_save)
unfolding save_run ◌>>=◌ return write_json name_run write_at path id_re write_encoded atomic_write
    rename_written lookup insert path_join
run_saved = refl

get_run-save_run_example : get_run disk "data" codec run.id after_save ≡ (ok run, after_save)
get_run-save_run_example =
    get_run-save_run disk "data" disk-IsDisk codec run run [] after_save codec_reads run_saved

abbrev pub decode_row : DecodeRow
decode_row text = ok (true, text == "{}")

count_jsonl_rows_iff_example : (count_jsonl_rows decode_row "{}\n\n{}\n" ≡ ok 2) ↔ (
    All (IsRow decode_row) (rows_of decode_row (split 10 "{}\n\n{}\n"))
    × (length (rows_of decode_row (split 10 "{}\n\n{}\n")) ≡ 2))
count_jsonl_rows_iff_example = count_jsonl_rows_iff decode_row "{}\n\n{}\n" 2

abbrev pub suites : Codec Suite
suites = record { encode = λ s. ok "suite"; decode = λ text. ok suite }

abbrev pub datasets : Codec Dataset
datasets = record { encode = λ ds. ok "dataset"; decode = λ text. err "not a dataset" }

deleted : (api_delete_run disk "data" suites codec datasets decode_row "other" run.id []).0.0 ≡ 200
unfolding api_delete_run ◌>>=◌ return respond_id delete_run remove remove_at path id_re
    unless_missing
deleted = refl

api_get_run-api_delete_run_example :
    (api_get_run disk "data" suites codec datasets decode_row run.id
      (api_delete_run disk "data" suites codec datasets decode_row "other" run.id []).1).0.0
    ≡ 404
api_get_run-api_delete_run_example =
    api_get_run-api_delete_run disk "data" suites codec datasets decode_row disk-IsDisk "other"
      run.id [] deleted
