-- ===== src/Catalog/Flights.antt =====
-- internal/catalog/catalog.go: concurrent callers share one rescan.
use ai_model_scheduler.Base.{
  eqb, ltb, String, if◌then◌else◌, IsSome, ◌≤◌, inr, inl, ◌-◌, leb, arith, Bool-cases, ◌++◌, ◌+◌,
  ◌≡◌, List, Option, ℕ, refl, [], ◌∷◌, none, some,
}
use ai_model_scheduler.Catalog.Cache.{
  scan_at, closed, failed, finished, replaced, refreshed, asked, Step, Work, worked, stored,
  end_flight, begun, stepped, store_entries, scanning, Reachable, start_locked, closing, refresh,
  Scan, entries_from, entries, System, Stage, start_from,
}

-- How many goroutines have not ended their rescan.
abbrev pub is_open : Stage → ℕ
is_open scanning = 1
is_open stored = 1
is_open (closing _) = 0

abbrev pub count_open : List Scan → ℕ
count_open [] = 0
count_open (scan ∷ scans) = is_open scan.stage + count_open scans

abbrev pub in_flight : Option ℕ → ℕ
in_flight none = 0
in_flight (some _) = 1

abbrev is_same : ℕ → ℕ → ℕ
is_same n m = if eqb n m then 1 else 0

abbrev pub running_of : ℕ → List Scan → ℕ
running_of flight [] = 0
running_of flight (scan ∷ scans) = is_same flight scan.flight + running_of flight scans

abbrev pub closed_of : ℕ → List (ℕ × Option String) → ℕ
closed_of flight [] = 0
closed_of flight (c ∷ cs) = is_same flight c.0 + closed_of flight cs

-- A flight that was started has its goroutine or was closed, just once.
abbrev IsAccounted : System → Type 0
IsAccounted s =
    (flight : ℕ)
    → running_of flight s.scans + closed_of flight s.closed
      ≡ (if ltb flight s.started then 1 else 0)

-- One rescan runs if a flight is named, else none; and each flight that was started has its goroutine
-- or was closed, just once.
pub record IsSingle (s : System) : Type 0 where
  pub single : count_open s.scans ≡ in_flight s.catalog.inflight
  pub accounted : IsAccounted s

pub count_open-append : (xs ys : List Scan) → count_open (xs ++ ys) ≡ count_open xs + count_open ys
count_open-append [] ys = omega arith
count_open-append (x ∷ xs) ys = omega (arith, count_open-append xs ys)

pub in_flight_le : (o : Option ℕ) → in_flight o ≤ 1
in_flight_le none = omega arith
in_flight_le (some flight) = omega arith

count_open-at :
    (before : List Scan) (scan : Scan) (after : List Scan)
    → count_open (before ++ scan ∷ after)
      ≡ count_open before + (is_open scan.stage + count_open after)
count_open-at before scan after = count_open-append before (scan ∷ after)

running_of-append :
    (flight : ℕ) (xs ys : List Scan)
    → running_of flight (xs ++ ys) ≡ running_of flight xs + running_of flight ys
running_of-append flight [] ys = omega arith
running_of-append flight (x ∷ xs) ys = omega (arith, running_of-append flight xs ys)

start_from-IsAccounted :
    (inflight : Option ℕ) (now : ℕ) (s : System)
    → IsAccounted s
    → IsAccounted (start_from inflight now s).1
unfolding start_from
start_from-IsAccounted (some flight) now s h = h
start_from-IsAccounted none now s h = λ n. let count = h n in ground (arith, count)

entries_from-IsAccounted :
    (fetched : Option ℕ) (ttl now : ℕ) (s : System)
    → IsAccounted s
    → IsAccounted (entries_from fetched ttl now s).1
unfolding entries_from start_locked
entries_from-IsAccounted none ttl now s h = h
entries_from-IsAccounted (some fetched) ttl now s h =
    elim (Bool-cases (leb ttl (now - s.catalog.last_attempt))) [
      | inl e ↦ rw e (start_from-IsAccounted s.catalog.inflight now s h)
      | inr e ↦ rw e h
    ]

-- A goroutine that keeps its flight.
IsAccounted-kept :
    (n flight : ℕ) (old new : Stage) (before after : List Scan)
    → running_of n (before ++ scan_at flight new ∷ after)
      ≡ running_of n (before ++ scan_at flight old ∷ after)
IsAccounted-kept n flight old new before after = omega (
  arith,
  running_of-append n before (scan_at flight new ∷ after),
  running_of-append n before (scan_at flight old ∷ after),
)

Work-IsAccounted : {s t : System} → Work s t → IsAccounted s → IsAccounted t
unfolding store_entries end_flight
Work-IsAccounted (replaced s now flight found before after) h =
    λ n. rw (IsAccounted-kept n flight scanning stored before after) (h n)
Work-IsAccounted (finished s flight before after) h =
    λ n. rw (IsAccounted-kept n flight stored (closing none) before after) (h n)
Work-IsAccounted (failed s flight text before after) h =
    λ n. rw (IsAccounted-kept n flight scanning (closing (some text)) before after) (h n)
Work-IsAccounted (closed s flight e before after) h = λ n.
    let old = running_of-append n before (scan_at flight (closing e) ∷ after) in
    let new = running_of-append n before after in let count = h n in omega (arith, old, new, count)

start_from-IsSingle :
    (inflight : Option ℕ) (now : ℕ) (s : System)
    → s.catalog.inflight ≡ inflight
    → IsSingle s
    → IsSingle (start_from inflight now s).1
unfolding start_from
start_from-IsSingle (some flight) now s e h = h
start_from-IsSingle none now s e h =
    let single = rw e at h.single in
    record {
      single = omega (arith, single);
      accounted = start_from-IsAccounted none now s h.accounted;
    }

entries_from-IsSingle :
    (fetched : Option ℕ) (ttl now : ℕ) (s : System)
    → IsSingle s
    → IsSingle (entries_from fetched ttl now s).1
unfolding entries_from start_locked
entries_from-IsSingle none ttl now s h = h
entries_from-IsSingle (some fetched) ttl now s h =
    elim (Bool-cases (leb ttl (now - s.catalog.last_attempt))) [
      | inl e ↦ rw e (start_from-IsSingle s.catalog.inflight now s refl h)
      | inr e ↦ rw e h
    ]

pub Work-IsSingle : {s t : System} → Work s t → IsSingle s → IsSingle t
unfolding store_entries end_flight
Work-IsSingle (replaced s now flight found before after) h =
    let open_before = count_open-at before (scan_at flight scanning) after in
    let open_after = count_open-at before (scan_at flight stored) after in
    record {
      single = omega (arith, h.single, open_before, open_after);
      accounted = Work-IsAccounted (replaced s now flight found before after) h.accounted;
    }
Work-IsSingle (finished s flight before after) h =
    let open_before = count_open-at before (scan_at flight stored) after in
    let open_after = count_open-at before (scan_at flight (closing none)) after in
    let most = in_flight_le s.catalog.inflight in
    record {
      single = omega (arith, h.single, open_before, open_after, most);
      accounted = Work-IsAccounted (finished s flight before after) h.accounted;
    }
Work-IsSingle (failed s flight text before after) h =
    let open_before = count_open-at before (scan_at flight scanning) after in
    let open_after = count_open-at before (scan_at flight (closing (some text))) after in
    let most = in_flight_le s.catalog.inflight in
    record {
      single = omega (arith, h.single, open_before, open_after, most);
      accounted = Work-IsAccounted (failed s flight text before after) h.accounted;
    }
Work-IsSingle (closed s flight e before after) h =
    let open_before = count_open-at before (scan_at flight (closing e)) after in
    record {
      single = omega (arith, h.single, open_before, count_open-append before after);
      accounted = Work-IsAccounted (closed s flight e before after) h.accounted;
    }

Step-IsSingle : (ttl : ℕ) {s t : System} → Step ttl s t → IsSingle s → IsSingle t
unfolding entries refresh start_locked
Step-IsSingle ttl (asked s now) h = entries_from-IsSingle s.catalog.fetched ttl now s h
Step-IsSingle ttl (refreshed s now) h = start_from-IsSingle s.catalog.inflight now s refl h
Step-IsSingle ttl (worked w) h = Work-IsSingle w h

-- In every state that the catalog reaches, whatever its callers and its rescans do and in whatever
-- order, at most one rescan runs, namely if a flight is named; and each flight that was started has
-- one goroutine and is not closed, or was closed once and has none, and no other flight has either.
pub Reachable-IsSingle : (ttl : ℕ) {s : System} → Reachable ttl s → IsSingle s
Reachable-IsSingle ttl begun = record { single = refl; accounted = λ n. ground arith }
Reachable-IsSingle ttl (stepped r step) = Step-IsSingle ttl step (Reachable-IsSingle ttl r)

-- The cache was filled once.
abbrev pub IsFilled : System → Type 0
IsFilled s = IsSome s.catalog.fetched

start_from-IsFilled :
    (inflight : Option ℕ) (now : ℕ) (s : System)
    → IsFilled s
    → IsFilled (start_from inflight now s).1
unfolding start_from
start_from-IsFilled none now s h = h
start_from-IsFilled (some flight) now s h = h

entries_from-IsFilled :
    (fetched : Option ℕ) (ttl now : ℕ) (s : System)
    → IsFilled s
    → IsFilled (entries_from fetched ttl now s).1
unfolding entries_from start_locked
entries_from-IsFilled none ttl now s h = h
entries_from-IsFilled (some fetched) ttl now s h =
    elim (Bool-cases (leb ttl (now - s.catalog.last_attempt))) [
      | inl e ↦ rw e (start_from-IsFilled s.catalog.inflight now s h)
      | inr e ↦ rw e h
    ]

-- A cache that was filled stays filled, also when rescans fail: from then on no caller of `entries`
-- has to wait.
pub Step-IsFilled : (ttl : ℕ) (s t : System) → Step ttl s t → IsFilled s → IsFilled t
unfolding entries refresh start_locked store_entries end_flight
Step-IsFilled ttl _ _ (asked s now) h = entries_from-IsFilled s.catalog.fetched ttl now s h
Step-IsFilled ttl _ _ (refreshed s now) h = start_from-IsFilled s.catalog.inflight now s h
Step-IsFilled ttl _ _ (worked (replaced s now flight found before after)) h = (now, refl)
Step-IsFilled ttl _ _ (worked (finished s flight before after)) h = h
Step-IsFilled ttl _ _ (worked (failed s flight text before after)) h = h
Step-IsFilled ttl _ _ (worked (closed s flight e before after)) h = h
