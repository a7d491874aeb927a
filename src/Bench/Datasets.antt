-- ===== src/Bench/Datasets.antt =====
-- internal/bench/store.go: the datasets. The decoding of a row answers whether `prompt` and
-- `expected` are strings.
use ai_model_scheduler.Base.{
  ◌∙◌, len, ltb, ap, inr, inl, Bool-cases, not, length, arith, sprint, All, ◌==◌, ◌↔◌, split,
  trim_space, err, ok, Bool, ◌≡◌, if◌then◌else◌, Result, ℕ, String, List, Option, refl, [], ◌∷◌,
  none, some, zero, suc, true, false,
}
use ai_model_scheduler.Nomadapi.Api.{return, Act, ◌>>=◌}
use ai_model_scheduler.Bench.Disk.{too_large, name_required, no_rows, Disk, bad_row, StoreError}
use ai_model_scheduler.Bench.Store.{
  atomic_write, write_json, read_json, path, remove, list_json, Codec,
}

-- Dataset
pub record Dataset : Type 0 where
  pub id : String
  pub name : String
  pub rows : ℕ
  pub size_bytes : ℕ
  pub created_at : ℕ

-- MaxDatasetBytes, 10 << 20
abbrev pub max_dataset_bytes : ℕ
max_dataset_bytes = 10485760

-- json.Unmarshal of a row, and the type assertions on its fields.
abbrev pub DecodeRow : Type 0
DecodeRow = String → Result String (Bool × Bool)

module _ (decode_row : DecodeRow) where
  -- The error of the row on a line.
  unfoldable pub row_error : ℕ → Result String (Bool × Bool) → Option StoreError
  row_error line (err text) = some (bad_row line (sprint ("not valid JSON: " ∷ text ∷ [])))
  row_error line (ok (prompt, expected)) =
      if not prompt
      then some (bad_row line "\"prompt\" must be a string")
      else if not expected
      then some (bad_row line "\"expected\" must be a string")
      else none

  -- What a row makes of the count of the rows after it.
  unfoldable pub count_row : Option StoreError → Result StoreError ℕ → Result StoreError ℕ
  count_row (some e) rest = err e
  count_row none (err e) = err e
  count_row none (ok n) = ok (suc n)

  unfoldable pub count_lines : ℕ → List String → Result StoreError ℕ
  unfolding row_error count_row
  count_lines line [] = ok 0
  count_lines line (l ∷ ls) =
      let rest = count_lines (suc line) ls in
      if trim_space l == ""
      then rest
      else count_row (row_error line (decode_row (trim_space l))) rest

  -- countJSONLRows. The scanner's buffer holds any upload, so that it does not fail; the `\r` that it
  -- takes off a line's end, and the empty line after the last newline, are blank.
  unfoldable pub count_jsonl_rows : String → Result StoreError ℕ
  unfolding count_lines
  count_jsonl_rows content = count_lines 1 (split 10 content)

  -- The rows of a content: its lines that are not blank, trimmed.
  abbrev pub rows_of : List String → List String
  rows_of [] = []
  rows_of (l ∷ ls) =
      let rest = rows_of ls in if trim_space l == "" then rest else trim_space l ∷ rest

  -- A row that decodes, with both fields strings.
  abbrev pub IsRow : String → Type 0
  IsRow text = decode_row text ≡ ok (true, true)

  row_error_iff :
      (line : ℕ) (r : Result String (Bool × Bool))
      → (row_error line r ≡ none) ↔ (r ≡ ok (true, true))
  unfolding row_error
  row_error_iff line (err text) = ground arith
  row_error_iff line (ok (true, true)) = (λ _. refl, λ _. refl)
  row_error_iff line (ok (true, false)) = ground arith
  row_error_iff line (ok (false, expected)) = ground arith

  count_row_iff :
      {P Q : Type 0} (m n : ℕ) (e : Option StoreError) (r : Result StoreError ℕ)
      → ((e ≡ none) ↔ P)
      → ((k : ℕ) → (r ≡ ok k) ↔ (Q × (m ≡ k)))
      → (count_row e r ≡ ok n) ↔ ((P × Q) × (suc m ≡ n))
  unfolding count_row
  count_row_iff m n (some e) r p q = (λ h. cc, λ h. let off : some e ≡ none = p.1 h.0.0 in cc)
  count_row_iff m n none (err e) p q = (
    λ h. cc,
    λ h. let off : ◌≡◌ {A = Result StoreError ℕ} (err e) (ok m) = (q m).1 (h.0.1, refl) in cc,
  )
  count_row_iff m n none (ok k) p q = (
    λ h.
        let found = (q k).0 refl in
        let same : suc k ≡ n = cc in ((p.0 refl, found.0), ap suc found.1 ∙ same),
    λ h.
        let same : ◌≡◌ {A = Result StoreError ℕ} (ok k) (ok m) = (q m).1 (h.0.1, refl) in
        let counted : suc m ≡ n = h.1 in cc,
  )

  count_lines_iff :
      (line n : ℕ) (ls : List String)
      → (count_lines line ls ≡ ok n) ↔ (All IsRow (rows_of ls) × (length (rows_of ls) ≡ n))
  unfolding count_lines
  count_lines_iff line n [] = (λ h. (tt, cc), λ h. ap ok h.1)
  count_lines_iff line n (l ∷ ls) = elim (Bool-cases (trim_space l == "")) [
    | inl e ↦ rw e (count_lines_iff (suc line) n ls)
    | inr e ↦ rw e (
        count_row_iff _ n _ _ (row_error_iff line (decode_row (trim_space l)))
          λ k. count_lines_iff (suc line) k ls)
  ]

  -- `count_jsonl_rows` answers a number exactly if every line that is not blank decodes to strings
  -- for `prompt` and `expected`, and it is the number of those lines.
  pub count_jsonl_rows_iff :
      (content : String) (n : ℕ)
      → (count_jsonl_rows content ≡ ok n)
        ↔ (All IsRow (rows_of (split 10 content)) × (length (rows_of (split 10 content)) ≡ n))
  unfolding count_jsonl_rows
  count_jsonl_rows_iff content n = count_lines_iff 1 n (split 10 content)

module _ {W : Type 0} (disk : Disk W) (dir : String) (codec : Codec Dataset)
    (decode_row : DecodeRow) where
  or_empty : Result StoreError String → String
  or_empty (ok p) = p
  or_empty (err _) = ""

  unfoldable pub answer_saved : Dataset → Option StoreError → Result StoreError Dataset
  answer_saved ds none = ok ds
  answer_saved ds (some e) = err e

  unfoldable pub save_meta : Dataset → Option StoreError → Act W (Result StoreError Dataset)
  save_meta ds (some e) = return (err e)
  save_meta ds none = do
    e ← write_json disk dir codec "datasets" ds.id ds
    return (answer_saved ds e)

  -- The rest of SaveDataset, after the rows are counted.
  unfoldable pub save_counted :
      String → String → Result StoreError ℕ → Act W (Result StoreError Dataset)
  unfolding or_empty
  save_counted name content (err e) = return (err e)
  save_counted name content (ok zero) = return (err no_rows)
  save_counted name content (ok (suc n)) = do
    id ← disk.new_id
    now ← disk.now
    e ← atomic_write disk dir (or_empty (path disk dir "datasets" id ".jsonl")) content
    save_meta
        (record { id = id; name = name; rows = suc n; size_bytes = len content; created_at = now })
        e

  -- SaveDataset
  unfoldable pub save_dataset : String → String → Act W (Result StoreError Dataset)
  save_dataset name content =
      if trim_space name == ""
      then return (err name_required)
      else if ltb max_dataset_bytes (len content)
      then return (err (too_large (len content)))
      else save_counted (trim_space name) content (count_jsonl_rows decode_row content)

  -- GetDataset
  unfoldable pub get_dataset : String → Act W (Result StoreError Dataset)
  get_dataset id = read_json disk dir codec "datasets" id

  unfoldable pub read_content : Result StoreError String → Act W (Result StoreError String)
  read_content (err e) = return (err e)
  read_content (ok p) = disk.read_file p

  -- ReadDataset
  unfoldable pub read_dataset : String → Act W (Result StoreError String)
  read_dataset id = read_content (path disk dir "datasets" id ".jsonl")

  -- ListDatasets
  unfoldable pub list_datasets : Act W (Result StoreError (List Dataset))
  list_datasets = list_json disk dir codec "datasets"

  unfoldable pub delete_meta : String → Option StoreError → Act W (Option StoreError)
  delete_meta id (some e) = return (some e)
  delete_meta id none = remove disk dir "datasets" id ".json"

  -- DeleteDataset
  unfoldable pub delete_dataset : String → Act W (Option StoreError)
  delete_dataset id = remove disk dir "datasets" id ".jsonl" >>= delete_meta id
