-- ===== src/Bench/Stored.antt =====
-- What internal/bench/store.go saves is what it reads again.
use ai_model_scheduler.Base.{
  text_leb_total, sort_by-IsSorted, Bool, inr, sym, inl, ap, text_leb, ◌∙◌, ◌⊎◌, IsSorted, ok,
  Option, ◌≡◌, err, List, String, Result, refl, none, some,
}
use ai_model_scheduler.Nomadapi.Api.{return, ◌>>=◌}
use Prim.Native.String.{String, ◌++◌}
use ai_model_scheduler.Bench.Disk.{missing, IsDisk, StoreError, Disk}
use ai_model_scheduler.Bench.Store.{
  record_names, ids, sorted_ids, name_run, remove, path, decoded, decode_read, write_json, get_run,
  write_encoded, remove_at, Codec, delete_run, as_failed, atomic_write, save_run, write_at,
  read_json, rename_written, unless_missing, read_at,
}
use ai_model_scheduler.Bench.Run.{Run}

module _ {W : Type 0} (disk : Disk W) (dir : String) (healthy : IsDisk disk) where
  as_failed-none : (e : Option String) → as_failed disk dir e ≡ none → e ≡ none
  unfolding as_failed
  as_failed-none none h = refl
  as_failed-none (some text) h = cc

  rename_written-file :
      (p data' : String) (e : Option String) (w : W)
      → (e ≡ none → healthy.file w (p ++ ".tmp") ≡ some data')
      → (rename_written disk dir p e w).0 ≡ none
      → healthy.file (rename_written disk dir p e w).1 p ≡ some data'
  unfolding rename_written return ◌>>=◌
  rename_written-file p data' (some text) w k h = cc
  rename_written-file p data' none w k h = healthy.renamed _ _ _ (as_failed-none _ h) ∙ k refl

  atomic_write-file :
      (p data' : String) (w : W)
      → (atomic_write disk dir p data' w).0 ≡ none
      → healthy.file (atomic_write disk dir p data' w).1 p ≡ some data'
  unfolding atomic_write ◌>>=◌
  atomic_write-file p data' w h =
      rename_written-file p data' _ _ (healthy.written (p ++ ".tmp") data' w) h

  read_at_file :
      {A : Type 0} (codec : Codec A) (p data' : String) (v : A) (w : W)
      → healthy.file w p ≡ some data'
      → codec.decode data' ≡ ok v
      → read_at disk dir codec (ok p) w ≡ (ok v, w)
  unfolding read_at decode_read decoded return ◌>>=◌
  read_at_file codec p data' v w there decodes = rw (healthy.read p w, there, decodes) refl

  read_at-write_at :
      {A : Type 0} (codec : Codec A) (p : Result StoreError String) (v : A)
      (encoded : Result String String) (w : W)
      → ((data' : String) → encoded ≡ ok data' → codec.decode data' ≡ ok v)
      → (write_at disk dir p encoded w).0 ≡ none
      → read_at disk dir codec p (write_at disk dir p encoded w).1
        ≡ (ok v, (write_at disk dir p encoded w).1)
  unfolding write_at write_encoded return
  read_at-write_at codec (err e) v encoded w decodes h = cc
  read_at-write_at codec (ok p) v (err text) w decodes h = cc
  read_at-write_at codec (ok p) v (ok data') w decodes h =
      read_at_file codec p data' v _ (atomic_write-file p data' w h) (decodes data' refl)

  read_json-write_json :
      {A : Type 0} (codec : Codec A) (kind id : String) (v : A) (w : W)
      → ((data' : String) → codec.encode v ≡ ok data' → codec.decode data' ≡ ok v)
      → (write_json disk dir codec kind id v w).0 ≡ none
      → read_json disk dir codec kind id (write_json disk dir codec kind id v w).1
        ≡ (ok v, (write_json disk dir codec kind id v w).1)
  unfolding read_json write_json
  read_json-write_json codec kind id v w decodes h =
      read_at-write_at codec (path disk dir kind id ".json") v (codec.encode v) w decodes h

  -- A run that `save_run` stores without an error is the one that `get_run` then loads by its
  -- identifier. The disk's reads do not fail, and what the codec writes of the run it reads back.
  pub get_run-save_run :
      {F : Type 0} (codec : Codec (Run F)) (run saved : Run F) (w w' : W)
      → ((data' : String) → codec.encode saved ≡ ok data' → codec.decode data' ≡ ok saved)
      → save_run disk dir codec run w ≡ ((none, saved), w')
      → get_run disk dir codec saved.id w' ≡ (ok saved, w')
  unfolding save_run get_run return ◌>>=◌
  get_run-save_run codec run saved w w' decodes h =
      let named = name_run disk dir codec run w in
      let e : (write_json disk dir codec "runs" named.0.id named.0 named.1).0 ≡ none =
        ap (λ r. r.0.0) h in
      let same : named.0 ≡ saved = ap (λ r. r.0.1) h in
      let after : (write_json disk dir codec "runs" named.0.id named.0 named.1).1 ≡ w' =
        ap (λ r. r.1) h in
      rw (sym same, sym after)
        (read_json-write_json codec "runs" named.0.id named.0 named.1 (rw same decodes) e)

  unless_missing_lem :
      (e : Option StoreError) → unless_missing disk dir e ≡ none → (e ≡ none) ⊎ (e ≡ some missing)
  unfolding unless_missing
  unless_missing_lem none h = inl refl
  unless_missing_lem (some missing) h = inr refl
  unless_missing_lem (some _) h = cc

  remove_at-file :
      {A : Type 0} (codec : Codec A) (p : Result StoreError String) (w : W)
      → (remove_at disk dir p w).0 ≡ none
      → read_at disk dir codec p (remove_at disk dir p w).1
        ≡ (err missing, (remove_at disk dir p w).1)
  unfolding remove_at read_at decode_read return ◌>>=◌
  remove_at-file codec (err e) w h = cc
  remove_at-file codec (ok p) w h =
      rw (healthy.read p _, healthy.removed p w (unless_missing_lem _ h)) refl

  -- After a deletion that reports no error, the run is not found.
  pub get_run-delete_run :
      {F : Type 0} (codec : Codec (Run F)) (id : String) (w : W)
      → (delete_run disk dir id w).0 ≡ none
      → (get_run disk dir codec id (delete_run disk dir id w).1).0 ≡ err missing
  unfolding delete_run get_run read_json remove
  get_run-delete_run codec id w h = ap (λ r. r.0) (remove_at-file codec _ w h)

-- The identifiers stand newest first: none is before a greater one.
abbrev pub AreNewestFirst : Result StoreError (List String) → Type 0
AreNewestFirst (err _) = Unit
AreNewestFirst (ok found) = IsSorted (λ a b. text_leb b a) found

module _ {W : Type 0} (disk : Disk W) (dir : String) where
  sorted_ids-AreNewestFirst :
      (entries : Result String (List (String × Bool)))
      → AreNewestFirst (sorted_ids disk dir entries)
  unfolding sorted_ids
  sorted_ids-AreNewestFirst (err _) = tt
  sorted_ids-AreNewestFirst (ok entries) =
      sort_by-IsSorted (λ a b. text_leb b a) (λ a b. text_leb_total b a) (record_names entries)

  -- The identifiers that the store lists stand newest first: an identifier begins with the time that
  -- it was made at, and none of the list is before a greater one.
  pub ids-AreNewestFirst : (kind : String) (w : W) → AreNewestFirst (ids disk dir kind w).0
  unfolding ids return ◌>>=◌
  ids-AreNewestFirst kind w = sorted_ids-AreNewestFirst _
