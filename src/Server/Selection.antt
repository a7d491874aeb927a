-- ===== src/Server/Selection.antt =====
-- The drop-downs of partialModelSelect in internal/server/api_models.go.
use mathlib.Core.List.Perm
use mathlib.Core.List.{Perm, perm_middle}
use ai_model_scheduler.Base.{
  text_leb_total, sort_by-IsSorted, inr, sort_by-All, sort_by-Perm, inl, Bool-cases, String, ◌≡◌,
  IsSorted, ◌==◌, All, ◌++◌, List, [], ◌∷◌, true, false,
}
use ai_model_scheduler.Server.Models.{ModelSelect, by_path, dirs_of, gguf_of, partial_model_select}
use ai_model_scheduler.Catalog.Cache.{Entry}

abbrev IsGguf : Entry → Type 0
IsGguf e = (e.kind == "gguf") ≡ true

abbrev IsDir : Entry → Type 0
IsDir e = (e.kind == "gguf") ≡ false

-- The two lists share the entries out by their kind, each in the order of the paths.
pub record IsSelection (entries : List Entry) (select : ModelSelect) : Type 0 where
  pub complete : Perm (select.gguf ++ select.hf_dirs) entries
  pub ggufs : All IsGguf select.gguf
  pub dirs : All IsDir select.hf_dirs
  pub sorted_ggufs : IsSorted by_path select.gguf
  pub sorted_dirs : IsSorted by_path select.hf_dirs

gguf_of-All : (entries : List Entry) → All IsGguf (gguf_of entries)
unfolding gguf_of
gguf_of-All [] = tt
gguf_of-All (e ∷ entries) = elim (Bool-cases (e.kind == "gguf")) [
  | inl h ↦ rw h (h, gguf_of-All entries)
  | inr h ↦ rw h (gguf_of-All entries)
]

dirs_of-All : (entries : List Entry) → All IsDir (dirs_of entries)
unfolding dirs_of
dirs_of-All [] = tt
dirs_of-All (e ∷ entries) = elim (Bool-cases (e.kind == "gguf")) [
  | inl h ↦ rw h (dirs_of-All entries)
  | inr h ↦ rw h (h, dirs_of-All entries)
]

gguf_of-append-dirs_of : (entries : List Entry) → Perm (gguf_of entries ++ dirs_of entries) entries
unfolding gguf_of dirs_of
gguf_of-append-dirs_of [] = Perm.rfl
gguf_of-append-dirs_of (e ∷ entries) =
    let kept = Perm.cons e (gguf_of-append-dirs_of entries) in
    elim (Bool-cases (e.kind == "gguf")) [
      | inl h ↦ rw h kept
      | inr h ↦ rw h (Perm.trans (perm_middle (gguf_of entries) (dirs_of entries)) kept)
    ]

-- The two drop-downs have each entry of the catalog just once, the GGUF files in the one and all
-- other models in the other, and both stand in the order of the paths.
pub partial_model_select-IsSelection :
    (entries : List Entry) (text : String)
    → IsSelection entries (partial_model_select (entries, text))
unfolding partial_model_select by_path
partial_model_select-IsSelection entries text = record {
  complete =
      Perm.trans
        (Perm.append (sort_by-Perm by_path (gguf_of entries))
          (sort_by-Perm by_path (dirs_of entries)))
        (gguf_of-append-dirs_of entries);
  ggufs = sort_by-All by_path IsGguf (gguf_of entries) (gguf_of-All entries);
  dirs = sort_by-All by_path IsDir (dirs_of entries) (dirs_of-All entries);
  sorted_ggufs = sort_by-IsSorted by_path (λ a b. text_leb_total a.path b.path) (gguf_of entries);
  sorted_dirs = sort_by-IsSorted by_path (λ a b. text_leb_total a.path b.path) (dirs_of entries);
}
