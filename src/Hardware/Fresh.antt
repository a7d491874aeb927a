-- ===== src/Hardware/Fresh.antt =====
-- What internal/hardware answers from its cache, and which sample it takes.
use ai_model_scheduler.Base.{
  ◌⊎◌, ok, inl, err, Bool-cases, split, inr, ap, Result, All, ◌++◌, ◌≡◌, contains, if◌then◌else◌,
  List, ℕ, Option, String, refl, [], ◌∷◌, none, some,
}
use ai_model_scheduler.Nomadapi.Api.{return, Api, ◌>>=◌}
use ai_model_scheduler.Bench.Run.{Floats}
use ai_model_scheduler.Jobspec.Job.{Env}
use ai_model_scheduler.Nomadapi.Lines.{decode_line}
use ai_model_scheduler.Hardware.Service.{
  probe_ttl, is_fresh, latest_sample, Service, last_sample, entries, answer_entries, GpuUse, Gpu,
}

module _ {F W : Type 0} (floats : Floats F) (api : Api W) (time : W → ℕ × W) (env : Env)
    (decode : String → Option Gpu) (decode_sample : String → Option (List (GpuUse F)))
    (fuel : ℕ) where
  -- A list of GPUs that was cached before, or that the cache now has.
  unfoldable pub IsServed : List Gpu → Result String (List Gpu) × Service → Type 0
  IsServed before (err _, s) = ⊥
  IsServed before (ok gpus, s) = (gpus ≡ before) ⊎ (gpus ≡ s.gpus)

  answer_entries-IsServed :
      (t : ℕ) (gpus : List Gpu) (outcome : Option String × Service)
      → IsServed gpus
          (answer_entries floats api time env decode decode_sample fuel (some t) gpus outcome)
  unfolding answer_entries IsServed
  answer_entries-IsServed t gpus (none, s) = inr refl
  answer_entries-IsServed t gpus (some text, s) = inl refl

  -- Once the GPUs were fetched, `entries` answers without an error, also when the probe fails: with
  -- the GPUs that the cache had, or with those that a probe just stored.
  pub entries-IsServed :
      (s : Service) (t : ℕ) (w : W)
      → s.fetched ≡ some t
      → IsServed s.gpus (entries floats api time env decode decode_sample fuel s w).0
  unfolding entries return ◌>>=◌ IsServed
  entries-IsServed s t w h = elim (Bool-cases (is_fresh s.fetched (time w).0 probe_ttl)) [
    | inl e ↦ rw e (inl refl)
    | inr e ↦ rw (e, h) (answer_entries-IsServed t s.gpus _)
  ]

module _ {A : Type 0} (decode : String → Option A) where
  -- The sample of one line.
  abbrev pub sample_of : String → Option A
  sample_of line = if contains line "\"gpus\"" then decode_line decode line else none

  -- The last line that has a sample.
  pub record IsLast (lines : List String) (a : A) : Type 0 where
    pub before : List String
    pub line : String
    pub after : List String
    pub split : lines ≡ before ++ line ∷ after
    pub sampled : sample_of line ≡ some a
    pub none_later : All (λ l. sample_of l ≡ none) after

  -- A line more in front.
  IsLast-cons : (l : String) (lines : List String) (a : A) → IsLast lines a → IsLast (l ∷ lines) a
  IsLast-cons l lines a h = record {
    before = l ∷ h.before;
    line = h.line;
    after = h.after;
    split = ap (λ ls. l ∷ ls) h.split;
    sampled = h.sampled;
    none_later = h.none_later;
  }

  -- No line has a sample, and there is none; or it is the one of the last line that has one.
  abbrev pub IsLatest : List String → Option A → Type 0
  IsLatest lines none = All (λ l. sample_of l ≡ none) lines
  IsLatest lines (some a) = IsLast lines a

  last_sample_cons :
      (l : String) (lines : List String) (later here : Option A)
      → sample_of l ≡ here
      → IsLatest lines later
      → IsLatest (l ∷ lines) (elim later [ some a ↦ some a | none ↦ here ])
  last_sample_cons l lines (some a) here e h = IsLast-cons l lines a h
  last_sample_cons l lines none none e h = (e, h)
  last_sample_cons l lines none (some a) e h = record {
    before = [];
    line = l;
    after = lines;
    split = refl;
    sampled = e;
    none_later = h;
  }

  last_sample-IsLatest : (lines : List String) → IsLatest lines (last_sample decode lines)
  unfolding last_sample
  last_sample-IsLatest [] = tt
  last_sample-IsLatest (l ∷ lines) =
      last_sample_cons l lines (last_sample decode lines) (sample_of l) refl
        (last_sample-IsLatest lines)

  -- `latest_sample` takes the sample of the last line of the log's tail that has one, and none exactly
  -- if no line has one.
  pub latest_sample-IsLatest :
      (tail : String) → IsLatest (split 10 tail) (latest_sample decode tail)
  unfolding latest_sample
  latest_sample-IsLatest tail = last_sample-IsLatest (split 10 tail)
