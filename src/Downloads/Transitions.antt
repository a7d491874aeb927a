-- ===== src/Downloads/Transitions.antt =====
-- How often notifyTransitions of internal/downloads/downloads.go calls onComplete.
use ai_model_scheduler.Base.{
  ap, inr, eq_iff, inl, Bool-cases, lookup-insert, not, lookup, arith, ◌&&◌, ◌==◌, ◌+◌, ◌≡◌,
  if◌then◌else◌, ◌++◌, ℕ, List, String, Option, [], ◌∷◌, none, some, suc,
}
use ai_model_scheduler.Downloads.Service.{turned, Watch, Download, observe, notify_transitions}

-- How often the identifier stands in the list.
abbrev pub count_of : String → List String → ℕ
count_of id [] = 0
count_of id (x ∷ xs) = let rest = count_of id xs in if x == id then suc rest else rest

-- The statuses that a download shows, one after the other.
abbrev pub statuses_of : String → List Download → List String
statuses_of id [] = []
statuses_of id (d ∷ downloads) =
    let rest = statuses_of id downloads in if d.id == id then d.status ∷ rest else rest

-- How often a row of statuses turns complete; the first one does not count where nothing was known
-- before it.
abbrev pub turns : Option String → List String → ℕ
turns prev [] = 0
turns none (s ∷ statuses) = turns (some s) statuses
turns (some prev) (s ∷ statuses) =
    let rest = turns (some s) statuses in
    if s == "complete" && not (prev == "complete") then suc rest else rest

count_of-append :
    (id : String) (xs ys : List String) → count_of id (xs ++ ys) ≡ count_of id xs + count_of id ys
count_of-append id [] ys = omega arith
count_of-append id (x ∷ xs) ys = ground (arith, count_of-append id xs ys)

count_of-observe :
    (id : String) (d : Download) (watch : Watch)
    → count_of id (observe d watch).fired
      ≡ count_of id watch.fired
        + (if d.id == id then turns (lookup d.id watch.seen) (d.status ∷ []) else 0)
unfolding observe turned
count_of-observe id d watch = go (lookup d.id watch.seen)
  where
    go :
        (prev : Option String)
        → count_of id (if turned prev d.status then watch.fired ++ (d.id ∷ []) else watch.fired)
          ≡ count_of id watch.fired + (if d.id == id then turns prev (d.status ∷ []) else 0)
    go none = ground arith
    go (some prev) = ground (arith, count_of-append id watch.fired (d.id ∷ []))

turns_cons :
    (prev : Option String) (s : String) (statuses : List String)
    → turns prev (s ∷ statuses) ≡ turns prev (s ∷ []) + turns (some s) statuses
turns_cons none s statuses = omega arith
turns_cons (some prev) s statuses = ground arith

-- For each download, whatever was seen of it before: over the listings of `downloads`, onComplete is
-- called as often as the statuses that it shows turn complete.
pub notify_transitions-turns :
    (id : String) (downloads : List Download) (watch : Watch)
    → count_of id (notify_transitions downloads watch).fired
      ≡ count_of id watch.fired + turns (lookup id watch.seen) (statuses_of id downloads)
unfolding notify_transitions observe
notify_transitions-turns id [] watch = omega arith
notify_transitions-turns id (d ∷ downloads) watch =
    let later = notify_transitions-turns id downloads (observe d watch) in
    let counted = count_of-observe id d watch in
    let known = lookup-insert d.id id d.status watch.seen in
    elim (Bool-cases (d.id == id)) [
      | inl e ↦
          let same : d.id ≡ id = (eq_iff d.id id).0 e in
          let split_turns = turns_cons (lookup id watch.seen) d.status (statuses_of id downloads) in
          let moved = ap (λ k. turns (lookup k watch.seen) (d.status ∷ [])) same in
          let after = rw (known, e) at later in
          let fired = rw e at counted in rw e (omega (arith, after, fired, moved, split_turns))
      | inr e ↦
          let after = rw (known, e) at later in
          let fired = rw e at counted in rw e (omega (arith, after, fired))
    ]
