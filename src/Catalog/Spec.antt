-- ===== src/Catalog/Spec.antt =====
-- internal/catalog/catalog.go as its callers see it: a cache that one refresh at a time renews. The
-- goroutines and the numbers of the flights are gone.
use ai_model_scheduler.Base.{
  ◌⊎◌, inr, inl, ◌-◌, leb, Bool-cases, ap, ◌∙◌, ◌≤◌, arith, ◌++◌, ◌≡◌, String, Option, ℕ, List,
  refl, [], ◌∷◌, none, some,
}
use ai_model_scheduler.Catalog.Cache.{
  closed, worked, failed, finished, refreshed, replaced, asked, Step, Work, start_locked,
  end_flight, refresh, store_entries, start_from, scan_at, entries_from, entries, Reachable, stored,
  scanning, Entry, Scan, closing, Stage, System,
}
use ai_model_scheduler.Catalog.Flights.{
  Reachable-IsSingle, in_flight_le, count_open-append, is_open, IsSingle, count_open,
}

-- No refresh runs, one runs, or one has renewed the cache and is about to end.
pub data Phase : Type 0 where
  idle refreshing renewed : Phase

pub record Cache : Type 0 where
  pub content : List Entry
  pub filled_at : Option ℕ
  pub phase : Phase
  pub error : Option String

-- A refresh begins where none runs; it renews the cache and then ends without an error, or it leaves
-- the cache as it was and ends with an error.
pub data Move : Cache → Cache → Type 0 where
  begins : (c : Cache) → Move (record c { phase = idle }) (record c { phase = refreshing })
  renews :
      (c : Cache) (found : List Entry) (now : ℕ)
      → Move
          (record c { phase = refreshing })
          (record c { content = found; filled_at = some now; phase = renewed })
  succeeds :
      (c : Cache) → Move (record c { phase = renewed }) (record c { phase = idle; error = none })
  fails :
      (c : Cache) (text : String)
      → Move (record c { phase = refreshing }) (record c { phase = idle; error = some text })

-- At most one move.
abbrev pub MovesTo : Cache → Cache → Type 0
MovesTo c d = (d ≡ c) ⊎ Move c d

abbrev phase_with : Stage → Phase → Phase
phase_with scanning rest = refreshing
phase_with stored rest = renewed
phase_with (closing _) rest = rest

-- The phase is that of the goroutine that has not ended its rescan.
abbrev pub phase_of : List Scan → Phase
phase_of [] = idle
phase_of (scan ∷ scans) = phase_with scan.stage (phase_of scans)

abbrev pub view : System → Cache
view s = record {
  content = s.catalog.entries;
  filled_at = s.catalog.fetched;
  phase = phase_of s.scans;
  error = s.catalog.last_err;
}

phase_with_ended : (stage : Stage) (rest : Phase) → is_open stage ≡ 0 → phase_with stage rest ≡ rest
phase_with_ended scanning rest h = let off : ⊥ = omega (arith, h) in absurd off
phase_with_ended stored rest h = let off : ⊥ = omega (arith, h) in absurd off
phase_with_ended (closing e) rest h = refl

phase_of_idle : (scans : List Scan) → count_open scans ≡ 0 → phase_of scans ≡ idle
phase_of_idle [] h = refl
phase_of_idle (scan ∷ scans) h =
    phase_with_ended scan.stage (phase_of scans) (omega (arith, h))
    ∙ phase_of_idle scans (omega (arith, h))

phase_of_skips :
    (before after : List Scan) → count_open before ≡ 0 → phase_of (before ++ after) ≡ phase_of after
phase_of_skips [] after h = refl
phase_of_skips (scan ∷ before) after h =
    phase_with_ended scan.stage (phase_of (before ++ after)) (omega (arith, h))
    ∙ phase_of_skips before after (omega (arith, h))

-- Where one rescan runs at most, the phase is that of any goroutine that runs one.
phase_of_at :
    (before : List Scan) (scan : Scan) (after : List Scan)
    → count_open (before ++ scan ∷ after) ≤ 1
    → is_open scan.stage ≡ 1
    → phase_of (before ++ scan ∷ after) ≡ phase_with scan.stage idle
phase_of_at before scan after single runs =
    let counts = count_open-append before (scan ∷ after) in
    phase_of_skips before (scan ∷ after) (omega (arith, counts, single, runs))
    ∙ ap (phase_with scan.stage) (phase_of_idle after (omega (arith, counts, single, runs)))

-- Where no other rescan runs, a goroutine that ended its own leaves the catalog idle.
phase_of_after :
    (flight : ℕ) (old : Stage) (e : Option String) (before after : List Scan)
    → count_open (before ++ scan_at flight old ∷ after) ≤ 1
    → is_open old ≡ 1
    → phase_of (before ++ scan_at flight (closing e) ∷ after) ≡ idle
phase_of_after flight old e before after single runs =
    let counts = count_open-append before (scan_at flight old ∷ after) in
    let closings = count_open-append before (scan_at flight (closing e) ∷ after) in
    phase_of_idle (before ++ scan_at flight (closing e) ∷ after)
      (omega (arith, counts, closings, single, runs))

phase_of_closed :
    (flight : ℕ) (e : Option String) (before after : List Scan)
    → phase_of (before ++ scan_at flight (closing e) ∷ after) ≡ phase_of (before ++ after)
phase_of_closed flight e [] after = refl
phase_of_closed flight e (scan ∷ before) after =
    ap (phase_with scan.stage) (phase_of_closed flight e before after)

start_from-MovesTo :
    (inflight : Option ℕ) (now : ℕ) (s : System)
    → s.catalog.inflight ≡ inflight
    → IsSingle s
    → MovesTo (view s) (view (start_from inflight now s).1)
unfolding start_from
start_from-MovesTo (some flight) now s e h = inl refl
start_from-MovesTo none now s e h =
    let none_open : count_open s.scans ≡ 0 = rw e at h.single in
    rw (phase_of_idle s.scans none_open) (inr (begins (view s)))

entries_from-MovesTo :
    (fetched : Option ℕ) (ttl now : ℕ) (s : System)
    → IsSingle s
    → MovesTo (view s) (view (entries_from fetched ttl now s).1)
unfolding entries_from start_locked
entries_from-MovesTo none ttl now s h = inl refl
entries_from-MovesTo (some fetched) ttl now s h =
    elim (Bool-cases (leb ttl (now - s.catalog.last_attempt))) [
      | inl e ↦ rw e (start_from-MovesTo s.catalog.inflight now s refl h)
      | inr e ↦ rw e (inl refl)
    ]

count_open_le : {s : System} → IsSingle s → count_open s.scans ≤ 1
count_open_le {s} h = omega (arith, h.single, in_flight_le s.catalog.inflight)

Work-MovesTo : {s t : System} → Work s t → IsSingle s → MovesTo (view s) (view t)
unfolding store_entries end_flight
Work-MovesTo (replaced s now flight found before after) h =
    let single = count_open_le h in
    let old = phase_of_at before (scan_at flight scanning) after single refl in
    let counts = count_open-append before (scan_at flight scanning ∷ after) in
    let counts' = count_open-append before (scan_at flight stored ∷ after) in
    let new =
      phase_of_at before (scan_at flight stored) after (omega (arith, single, counts, counts'))
        refl in
    rw (old, new) (inr (renews (view s) found now))
Work-MovesTo (finished s flight before after) h =
    let single = count_open_le h in
    let old = phase_of_at before (scan_at flight stored) after single refl in
    let new = phase_of_after flight stored none before after single refl in
    rw (old, new) (inr (succeeds (view s)))
Work-MovesTo (failed s flight text before after) h =
    let single = count_open_le h in
    let old = phase_of_at before (scan_at flight scanning) after single refl in
    let new = phase_of_after flight scanning (some text) before after single refl in
    rw (old, new) (inr (fails (view s) text))
Work-MovesTo (closed s flight e before after) h =
    inl (rw (phase_of_closed flight e before after) refl)

Step-MovesTo : (ttl : ℕ) {s t : System} → Step ttl s t → IsSingle s → MovesTo (view s) (view t)
unfolding entries refresh start_locked
Step-MovesTo ttl (asked s now) h = entries_from-MovesTo s.catalog.fetched ttl now s h
Step-MovesTo ttl (refreshed s now) h = start_from-MovesTo s.catalog.inflight now s refl h
Step-MovesTo ttl (worked w) h = Work-MovesTo w h

-- Whatever its callers and its goroutines do, in whatever order, each step of the catalog is for those
-- who see only the cache no change or one move of the specification: a refresh begins where none runs,
-- renews the cache and then ends without an error, or leaves the cache and ends with one.
pub Reachable-MovesTo :
    (ttl : ℕ) (s t : System) → Reachable ttl s → Step ttl s t → MovesTo (view s) (view t)
Reachable-MovesTo ttl s t r step = Step-MovesTo ttl step (Reachable-IsSingle ttl r)
