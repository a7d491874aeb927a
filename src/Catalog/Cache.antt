-- ===== src/Catalog/Cache.antt =====
-- internal/catalog/catalog.go: the cache and its rescans. Each section under the mutex is one step;
-- times are numbers, and the rescans are numbered in the order of their starts.
use ai_model_scheduler.Base.{
  ◌-◌, leb, ◌++◌, ℤ, if◌then◌else◌, Option, String, Bool, ℕ, List, [], ◌∷◌, none, some, suc, true,
  false,
}

-- Entry
pub record Entry : Type 0 where
  pub path : String
  pub kind : String
  pub size_bytes : ℤ

-- Catalog; no `fetched` is its zero time, and `inflight` names the flight
pub record Catalog : Type 0 where
  pub entries : List Entry
  pub fetched : Option ℕ
  pub inflight : Option ℕ
  pub last_attempt : ℕ
  pub last_err : Option String

-- The goroutine of a flight: it scans, it has stored what it found, or it has cleared `inflight` and
-- is about to close the flight with its error.
pub data Stage : Type 0 where
  scanning : Stage
  stored : Stage
  closing : Option String → Stage

pub record Scan : Type 0 where
  pub flight : ℕ
  pub stage : Stage

-- The catalog with its goroutines, how many flights there were, and the closed ones with their errors.
pub record System : Type 0 where
  pub catalog : Catalog
  pub scans : List Scan
  pub started : ℕ
  pub closed : List (ℕ × Option String)

-- startLocked: the flight, a new one at that time if there is none
unfoldable pub start_from : Option ℕ → ℕ → System → ℕ × System
start_from (some flight) now sys = (flight, sys)
start_from none now sys = (
  sys.started,
  record sys {
    catalog = record sys.catalog { inflight = some sys.started; last_attempt = now };
    scans = record { flight = sys.started; stage = scanning } ∷ sys.scans;
    started = suc sys.started;
  },
)

unfoldable pub start_locked : ℕ → System → ℕ × System
unfolding start_from
start_locked now sys = start_from sys.catalog.inflight now sys

-- Cached
unfoldable pub cached : System → List Entry × Option ℕ
cached sys = (sys.catalog.entries, sys.catalog.fetched)

-- Status
unfoldable pub status : System → Bool × Option String
status sys = (elim sys.catalog.inflight [ none ↦ false | some _ ↦ true ], sys.catalog.last_err)

-- The section of Entries: what the cache has, if it was filled. The times are of one clock, which
-- does not run backwards.
unfoldable pub entries_from : Option ℕ → ℕ → ℕ → System → Option (List Entry × ℕ) × System
unfolding start_locked
entries_from none ttl now sys = (none, sys)
entries_from (some fetched) ttl now sys = (
  some (sys.catalog.entries, fetched),
  if leb ttl (now - sys.catalog.last_attempt) then (start_locked now sys).1 else sys,
)

unfoldable pub entries : ℕ → ℕ → System → Option (List Entry × ℕ) × System
unfolding entries_from
entries ttl now sys = entries_from sys.catalog.fetched ttl now sys

-- The section of Refresh; the caller then waits for the flight.
unfoldable pub refresh : ℕ → System → ℕ × System
unfolding start_locked
refresh now sys = start_locked now sys

-- The section of scan that replaces the cache.
unfoldable pub store_entries : List Entry → ℕ → System → System
store_entries found now sys = record sys {
  catalog = record sys.catalog { entries = found; fetched = some now };
}

-- The section at the end of a rescan.
unfoldable pub end_flight : Option String → System → System
end_flight e sys = record sys { catalog = record sys.catalog { inflight = none; last_err = e } }

abbrev pub scan_at : ℕ → Stage → Scan
scan_at flight stage = record { flight = flight; stage = stage }

-- A goroutine, which stands between the others, goes on. A rescan that stored its entries ends without
-- an error; one that did not ends with one.
pub data Work : System → System → Type 0 where
  replaced :
      (s : System) (now flight : ℕ) (found : List Entry) (before after : List Scan)
      → Work
          (record s { scans = before ++ scan_at flight scanning ∷ after })
          (store_entries found now (record s { scans = before ++ scan_at flight stored ∷ after }))
  finished :
      (s : System) (flight : ℕ) (before after : List Scan)
      → Work
          (record s { scans = before ++ scan_at flight stored ∷ after })
          (end_flight none (record s { scans = before ++ scan_at flight (closing none) ∷ after }))
  failed :
      (s : System) (flight : ℕ) (text : String) (before after : List Scan)
      → Work
          (record s { scans = before ++ scan_at flight scanning ∷ after })
          (end_flight
            (some text)
            (record s { scans = before ++ scan_at flight (closing (some text)) ∷ after }))
  closed :
      (s : System) (flight : ℕ) (e : Option String) (before after : List Scan)
      → Work
          (record s { scans = before ++ scan_at flight (closing e) ∷ after })
          (record s { scans = before ++ after; closed = (flight, e) ∷ s.closed })

-- What may happen to the catalog: callers enter, and the goroutines go on.
pub data Step (ttl : ℕ) : System → System → Type 0 where
  asked : (s : System) (now : ℕ) → Step ttl s (entries ttl now s).1
  refreshed : (s : System) (now : ℕ) → Step ttl s (refresh now s).1
  worked : {s t : System} → Work s t → Step ttl s t

-- New
abbrev pub initial : System
initial = record {
  catalog = record {
    entries = [];
    fetched = none;
    inflight = none;
    last_attempt = 0;
    last_err = none;
  };
  scans = [];
  started = 0;
  closed = [];
}

pub data Reachable (ttl : ℕ) : System → Type 0 where
  begun : Reachable ttl initial
  stepped : {s t : System} → Reachable ttl s → Step ttl s t → Reachable ttl t
