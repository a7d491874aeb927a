-- ===== src/Server/Models.antt =====
-- internal/server/api_models.go. What the catalog answers (internal/catalog/catalog.go) is an argument:
-- the waits of its rescans lie between the steps of the handlers.
use ai_model_scheduler.Base.{
  not, ◌&&◌, sprint, ◌==◌, text_leb, ok, err, Bool, if◌then◌else◌, sort_by, ℕ, List, Option, Result,
  String, [], ◌∷◌, none, some, false,
}
use ai_model_scheduler.Catalog.Cache.{Entry}
use ai_model_scheduler.Server.Replies.{Reply}

-- modelsResponse
pub record ModelsResponse : Type 0 where
  pub models : List Entry
  pub fetched_at : ℕ

-- modelsPartialData; no time is its zero time
pub record ModelsData : Type 0 where
  pub models : List Entry
  pub fetched_at : Option ℕ
  pub error : String
  pub refreshing : Bool

-- modelSelectData
pub record ModelSelect : Type 0 where
  pub gguf : List Entry
  pub hf_dirs : List Entry
  pub error : String

-- apiListModels, with the answer of Entries
unfoldable pub api_list_models : Result String (List Entry × ℕ) → Reply String ModelsResponse
api_list_models (err text) = (502, err (sprint ("listing models: " ∷ text ∷ [])))
api_list_models (ok (entries, fetched)) =
    (200, ok (record { models = entries; fetched_at = fetched }))

-- apiRefreshModels, with the error of Refresh and the answer of Entries after it
unfoldable pub api_refresh_models :
    Option String → Result String (List Entry × ℕ) → Reply String ModelsResponse
api_refresh_models (some text) answer = (502, err (sprint ("refreshing models: " ∷ text ∷ [])))
api_refresh_models none answer = api_list_models answer

-- The error of partialModels.
unfoldable pub shown_error : String → Bool → Option String → String
shown_error text refreshing none = text
shown_error text refreshing (some last) =
    if text == "" && not refreshing
    then sprint ("last rescan failed, showing cached results: " ∷ last ∷ [])
    else text

-- partialModels, with the answers of Entries and Status
unfoldable pub partial_models : Result String (List Entry × ℕ) → Bool × Option String → ModelsData
unfolding shown_error
partial_models (err text) (refreshing, last) = record {
  models = [];
  fetched_at = none;
  error = shown_error text refreshing last;
  refreshing = refreshing;
}
partial_models (ok (entries, fetched)) (refreshing, last) = record {
  models = entries;
  fetched_at = some fetched;
  error = shown_error "" refreshing last;
  refreshing = refreshing;
}

-- uiRefreshModels
unfoldable pub ui_refresh_models :
    Option String → Result String (List Entry × ℕ) → Bool × Option String → ModelsData
ui_refresh_models (some text) answer status = record {
  models = [];
  fetched_at = none;
  error = text;
  refreshing = false;
}
ui_refresh_models none answer status = partial_models answer status

-- What partialModelSelect shows entries of, and its error: with ?refresh what the cache has after a
-- Refresh, else the answer of Entries.
unfoldable pub select_refreshed : Option String → List Entry → List Entry × String
select_refreshed (some text) cached = ([], text)
select_refreshed none cached = (cached, "")

unfoldable pub select_entries : Result String (List Entry) → List Entry × String
select_entries (err text) = ([], text)
select_entries (ok entries) = (entries, "")

unfoldable pub by_path : Entry → Entry → Bool
by_path a b = text_leb a.path b.path

unfoldable pub gguf_of : List Entry → List Entry
gguf_of [] = []
gguf_of (e ∷ entries) = let rest = gguf_of entries in if e.kind == "gguf" then e ∷ rest else rest

unfoldable pub dirs_of : List Entry → List Entry
dirs_of [] = []
dirs_of (e ∷ entries) = let rest = dirs_of entries in if e.kind == "gguf" then rest else e ∷ rest

-- partialModelSelect
unfoldable pub partial_model_select : List Entry × String → ModelSelect
unfolding gguf_of dirs_of by_path
partial_model_select (entries, text) = record {
  gguf = sort_by by_path (gguf_of entries);
  hf_dirs = sort_by by_path (dirs_of entries);
  error = text;
}
