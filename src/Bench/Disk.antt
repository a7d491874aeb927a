-- ===== src/Bench/Disk.antt =====
-- The files that internal/bench/store.go keeps its records in, and what it relies on of them. Errors
-- of the operating system are texts; a missing file is told apart.
use ai_model_scheduler.Base.{Bool, ok, err, ◌⊎◌, List, ℕ, Result, ◌≡◌, String, Option, none, some}
use ai_model_scheduler.Bench.Config.{SuiteError}
use Prim.Native.String.{String}

-- The errors of the store's operations; `missing` is ErrNotFound.
pub data StoreError : Type 0 where
  missing : StoreError
  invalid_id : String → StoreError
  bad_suite : SuiteError → StoreError
  name_required : StoreError
  too_large : ℕ → StoreError
  bad_row : ℕ → String → StoreError
  no_rows : StoreError
  failed : String → StoreError

-- os.WriteFile, os.Rename, os.ReadFile, os.Remove and os.ReadDir (each entry with IsDir) on a state;
-- then time.Now and the identifiers of newID.
pub record Disk (W : Type 0) : Type 0 where
  pub write_file : String → String → W → Option String × W
  pub rename : String → String → W → Option String × W
  pub read_file : String → W → Result StoreError String × W
  pub remove : String → W → Option StoreError × W
  pub read_dir : String → W → Result String (List (String × Bool)) × W
  pub now : W → ℕ × W
  pub new_id : W → String × W

-- The content of a file that is there.
abbrev pub of_file : Option String → Result StoreError String
of_file none = err missing
of_file (some data') = ok data'

-- A disk whose reads do not fail, and whose writes and removals have their effect where they report
-- no error.
pub record IsDisk {W : Type 0} (disk : Disk W) : Type 0 where
  pub file : W → String → Option String
  pub read : (p : String) (w : W) → disk.read_file p w ≡ (of_file (file w p), w)
  pub written :
      (p data' : String) (w : W)
      → (disk.write_file p data' w).0 ≡ none
      → file (disk.write_file p data' w).1 p ≡ some data'
  pub renamed :
      (old new : String) (w : W)
      → (disk.rename old new w).0 ≡ none
      → file (disk.rename old new w).1 new ≡ file w old
  pub removed :
      (p : String) (w : W)
      → ((disk.remove p w).0 ≡ none) ⊎ ((disk.remove p w).0 ≡ some missing)
      → file (disk.remove p w).1 p ≡ none
