-- ===== src/Bench/Store.antt =====
-- internal/bench/store.go: the store. The mutex is left out: an operation is one step.
use Prim.Native.String.{len, String, ◌++◌}
use ai_model_scheduler.Base.{
  len, text_leb, leb, ◌&&◌, sort_by, code, ◌==◌, ok, ℕ, err, if◌then◌else◌, path_join, all_chars,
  Option, Bool, List, String, Result, [], ◌∷◌, none, some, false,
}
use ai_model_scheduler.Nomadapi.Api.{return, Act, ◌>>=◌}
use ai_model_scheduler.Bench.Disk.{invalid_id, bad_suite, missing, failed, StoreError, Disk}
use ai_model_scheduler.Jobspec.Params.{is_lower_alnum, is_name_char}
use ai_model_scheduler.Bench.Run.{Run}
use ai_model_scheduler.Bench.Config.{validate_suite, SuiteError, Suite}

-- idRe, ^[a-z0-9][a-z0-9-]{0,63}$
unfoldable pub id_re : String → Bool
unfolding is_name_char all_chars
id_re String.[] = false
id_re (String.◌∷◌ c s) = is_lower_alnum (code c) && leb (len s) 63 && all_chars is_name_char s

-- json.MarshalIndent and json.Unmarshal at one type.
pub record Codec (A : Type 0) : Type 0 where
  pub encode : A → Result String String
  pub decode : String → Result String A

-- strings.HasSuffix, and strings.TrimSuffix where it holds
unfoldable pub strip_suffix : String → String → Option String
strip_suffix suffix String.[] = if "" == suffix then some "" else none
strip_suffix suffix (String.◌∷◌ c s) = elim (strip_suffix suffix s) [
  | some t ↦ some (String.◌∷◌ c t)
  | none ↦ if String.◌∷◌ c s == suffix then some "" else none
]

-- The names of the files that hold records.
unfoldable pub record_names : List (String × Bool) → List String
unfolding strip_suffix
record_names [] = []
record_names ((name, is_dir) ∷ entries) =
    let rest = record_names entries in
    if is_dir then rest else elim (strip_suffix ".json" name) [ none ↦ rest | some id ↦ id ∷ rest ]

module _ {W : Type 0} (disk : Disk W) (dir : String) where
  unfoldable pub path : String → String → String → Result StoreError String
  path kind id ext =
      if id_re id then ok (path_join (dir ∷ kind ∷ (id ++ ext) ∷ [])) else err (invalid_id id)

  unfoldable pub as_failed : Option String → Option StoreError
  as_failed none = none
  as_failed (some text) = some (failed text)

  -- The rest of atomicWrite, after the temporary file is written.
  unfoldable pub rename_written : String → Option String → Act W (Option StoreError)
  unfolding as_failed
  rename_written p (some text) = return (some (failed text))
  rename_written p none = do e ← disk.rename (p ++ ".tmp") p; return (as_failed e)

  unfoldable pub atomic_write : String → String → Act W (Option StoreError)
  atomic_write p data' = disk.write_file (p ++ ".tmp") data' >>= rename_written p

  unfoldable pub write_encoded : String → Result String String → Act W (Option StoreError)
  write_encoded p (err text) = return (some (failed text))
  write_encoded p (ok data') = atomic_write p data'

  unfoldable pub write_at :
      Result StoreError String → Result String String → Act W (Option StoreError)
  write_at (err e) encoded = return (some e)
  write_at (ok p) encoded = write_encoded p encoded

  -- writeJSON
  unfoldable pub write_json :
      {A : Type 0} → Codec A → String → String → A → Act W (Option StoreError)
  write_json codec kind id v = write_at (path kind id ".json") (codec.encode v)

  unfoldable pub decoded : {A : Type 0} → Result String A → Result StoreError A
  decoded (err text) = err (failed text)
  decoded (ok a) = ok a

  unfoldable pub decode_read :
      {A : Type 0} → Codec A → Result StoreError String → Result StoreError A
  decode_read codec (err e) = err e
  decode_read codec (ok data') = decoded (codec.decode data')

  unfoldable pub read_at :
      {A : Type 0} → Codec A → Result StoreError String → Act W (Result StoreError A)
  read_at codec (err e) = return (err e)
  read_at codec (ok p) = do got ← disk.read_file p; return (decode_read codec got)

  -- readJSON
  unfoldable pub read_json : {A : Type 0} → Codec A → String → String → Act W (Result StoreError A)
  read_json codec kind id = read_at codec (path kind id ".json")

  -- A file that is gone already counts as removed.
  unfoldable pub unless_missing : Option StoreError → Option StoreError
  unless_missing none = none
  unless_missing (some missing) = none
  unless_missing (some e) = some e

  unfoldable pub remove_at : Result StoreError String → Act W (Option StoreError)
  remove_at (err e) = return (some e)
  remove_at (ok p) = do e ← disk.remove p; return (unless_missing e)

  -- remove
  unfoldable pub remove : String → String → String → Act W (Option StoreError)
  remove kind id ext = remove_at (path kind id ext)

  unfoldable pub sorted_ids : Result String (List (String × Bool)) → Result StoreError (List String)
  sorted_ids (err text) = err (failed text)
  sorted_ids (ok entries) = ok (sort_by (λ a b. text_leb b a) (record_names entries))

  -- ids
  unfoldable pub ids : String → Act W (Result StoreError (List String))
  ids kind = do entries ← disk.read_dir (path_join (dir ∷ kind ∷ [])); return (sorted_ids entries)

  unfoldable pub keep_read : {A : Type 0} → Result StoreError A → List A → List A
  keep_read (err _) rest = rest
  keep_read (ok a) rest = a ∷ rest

  -- The records that can be read, in the order of their identifiers.
  unfoldable pub read_each : {A : Type 0} → Codec A → String → List String → Act W (List A)
  read_each codec kind [] = return []
  read_each codec kind (id ∷ more) =
      let next = read_each codec kind more in
      (do got ← read_json codec kind id; rest ← next; return (keep_read got rest))

  unfoldable pub list_ids :
      {A : Type 0}
      → Codec A
      → String
      → Result StoreError (List String)
      → Act W (Result StoreError (List A))
  list_ids codec kind (err e) = return (err e)
  list_ids codec kind (ok found) = do records ← read_each codec kind found; return (ok records)

  unfoldable pub list_json : {A : Type 0} → Codec A → String → Act W (Result StoreError (List A))
  list_json codec kind = ids kind >>= list_ids codec kind

  module _ (codec : Codec Suite) where
    -- The identifier and the creation time of a suite that has none yet.
    unfoldable pub stamp_suite : ℕ → Suite → Act W Suite
    stamp_suite now suite =
        if suite.id == ""
        then (do
          id ← disk.new_id
          return (record suite { id = id; created_at = now; updated_at = now }))
        else return (record suite { updated_at = now })

    unfoldable pub save_valid_suite : Option SuiteError → Suite → Act W (Option StoreError × Suite)
    save_valid_suite (some e) suite = return (some (bad_suite e), suite)
    save_valid_suite none suite = do
      now ← disk.now
      stamped ← stamp_suite now suite
      e ← write_json codec "suites" stamped.id stamped
      return (e, stamped)

    -- SaveSuite: the error, and the suite as it was changed
    unfoldable pub save_suite : Suite → Act W (Option StoreError × Suite)
    save_suite suite = save_valid_suite (validate_suite suite) suite

    -- GetSuite
    unfoldable pub get_suite : String → Act W (Result StoreError Suite)
    get_suite id = read_json codec "suites" id

    -- ListSuites
    unfoldable pub list_suites : Act W (Result StoreError (List Suite))
    list_suites = list_json codec "suites"

  -- DeleteSuite
  unfoldable pub delete_suite : String → Act W (Option StoreError)
  delete_suite id = remove "suites" id ".json"

  module _ {F : Type 0} (codec : Codec (Run F)) where
    unfoldable pub name_run : Run F → Act W (Run F)
    name_run run =
        if run.id == "" then (do id ← disk.new_id; return (record run { id = id })) else return run

    -- SaveRun: the error, and the run as it was changed
    unfoldable pub save_run : Run F → Act W (Option StoreError × Run F)
    save_run run = do
      named ← name_run run
      e ← write_json codec "runs" named.id named
      return (e, named)

    -- GetRun
    unfoldable pub get_run : String → Act W (Result StoreError (Run F))
    get_run id = read_json codec "runs" id

    -- ListRuns
    unfoldable pub list_runs : Act W (Result StoreError (List (Run F)))
    list_runs = list_json codec "runs"

  -- DeleteRun
  unfoldable pub delete_run : String → Act W (Option StoreError)
  delete_run id = remove "runs" id ".json"
