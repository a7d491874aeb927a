-- ===== src/Catalog/Progress.antt =====
-- internal/catalog/catalog.go: the rescans end, given that each goroutine goes on, and with them the
-- waits of the callers.
use mathlib.Core.Path.{subst}
use ai_model_scheduler.Base.{
  sym, inr, Option, inl, ◌⊎◌, arith, ◌+◌, ◌++◌, ◌<◌, ◌≡◌, List, ℕ, refl, [], ◌∷◌, none, some, zero,
  suc,
}
use ai_model_scheduler.Catalog.Cache.{
  Reachable, closed, failed, finished, scan_at, stored, scanning, replaced, Scan, Work, end_flight,
  closing, store_entries, Stage, System,
}
use ai_model_scheduler.Catalog.Flights.{
  closed_of, Work-IsSingle, in_flight, Reachable-IsSingle, IsSingle,
}

-- How many sections a goroutine has still to go through at most.
abbrev pub steps_left : Stage → ℕ
steps_left scanning = 3
steps_left stored = 2
steps_left (closing _) = 1

abbrev pub work_left : List Scan → ℕ
work_left [] = 0
work_left (scan ∷ scans) = steps_left scan.stage + work_left scans

work_left-append : (xs ys : List Scan) → work_left (xs ++ ys) ≡ work_left xs + work_left ys
work_left-append [] ys = omega arith
work_left-append (x ∷ xs) ys = omega (arith, work_left-append xs ys)

-- The goroutines alone bring `s` to a state of `P`, in whatever order they go on, and until then there
-- is one that can go on.
pub data Eventually (P : System → Type 0) : System → Type 0 where
  here : {s : System} → P s → Eventually P s
  later : {s t : System} → Work s t → ((u : System) → Work s u → Eventually P u) → Eventually P s

-- Nothing runs, no flight is named, and each flight that was started was closed once.
pub record IsQuiet (s : System) : Type 0 where
  pub no_scans : s.scans ≡ []
  pub no_flight : s.catalog.inflight ≡ none
  pub all_closed : (flight : ℕ) → flight < s.started → closed_of flight s.closed ≡ 1

Work-decreases : {s t : System} → Work s t → work_left t.scans < work_left s.scans
unfolding store_entries end_flight
Work-decreases (replaced s now flight found before after) = omega (
  arith,
  work_left-append before (scan_at flight scanning ∷ after),
  work_left-append before (scan_at flight stored ∷ after),
)
Work-decreases (finished s flight before after) = omega (
  arith,
  work_left-append before (scan_at flight stored ∷ after),
  work_left-append before (scan_at flight (closing none) ∷ after),
)
Work-decreases (failed s flight text before after) = omega (
  arith,
  work_left-append before (scan_at flight scanning ∷ after),
  work_left-append before (scan_at flight (closing (some text)) ∷ after),
)
Work-decreases (closed s flight e before after) = omega (
  arith,
  work_left-append before (scan_at flight (closing e) ∷ after),
  work_left-append before after,
)

in_flight-none : (o : Option ℕ) → 0 ≡ in_flight o → o ≡ none
in_flight-none none h = refl
in_flight-none (some flight) h = let off : ⊥ = omega (arith, h) in absurd off

IsSingle-IsQuiet : (s : System) → s.scans ≡ [] → IsSingle s → IsQuiet s
IsSingle-IsQuiet s e h = record {
  no_scans = e;
  no_flight = in_flight-none s.catalog.inflight (rw e at h.single);
  all_closed = λ n below. let count = rw e at (h.accounted n) in ground (arith, count, below);
}

-- The first goroutine can go on.
Work-first :
    (s : System) (flight : ℕ) (stage : Stage) (after : List Scan)
    → (t : System) × Work (record s { scans = scan_at flight stage ∷ after }) t
Work-first s flight scanning after = (_, failed s flight "" [] after)
Work-first s flight stored after = (_, finished s flight [] after)
Work-first s flight (closing e) after = (_, closed s flight e [] after)

Work-some :
    (s : System) (scans : List Scan) → s.scans ≡ scans → (scans ≡ []) ⊎ ((t : System) × Work s t)
Work-some s [] e = inl refl
Work-some s (scan ∷ scans) e =
    let (t, work) = Work-first s scan.flight scan.stage scans in
    inr (t, subst (λ (l : List Scan). Work (record s { scans = l }) t) (sym e) work)

IsSingle-Eventually :
    (bound : ℕ) (s : System) → work_left s.scans < bound → IsSingle s → Eventually IsQuiet s
IsSingle-Eventually zero s below h = absurd (omega (arith, below))
IsSingle-Eventually (suc bound) s below h = elim (Work-some s s.scans refl) [
  | inl e ↦ here (IsSingle-IsQuiet s e h)
  | inr (t, work) ↦ later work (λ u w.
      let less = Work-decreases w in
      IsSingle-Eventually bound u (omega (arith, below, less)) (Work-IsSingle w h))
]

-- From every state that the catalog reaches, whatever its callers did, the goroutines of its rescans,
-- in whatever order they go on, bring it to a state where none is left, no flight is named and each
-- flight that was started was closed, just once: nobody waits for a flight forever.
pub Reachable-Eventually : (ttl : ℕ) (s : System) → Reachable ttl s → Eventually IsQuiet s
Reachable-Eventually ttl s r =
    IsSingle-Eventually (suc (work_left s.scans)) s (omega arith) (Reachable-IsSingle ttl r)
