-- ===== src/Nomadapi/Latest.antt =====
-- LatestAlloc of internal/nomadapi/allocs.go takes the newest allocation.
use ai_model_scheduler.Base.{
  ◌⊎◌, ◌≡◌, ◌≤◌, inr, inl, ltb, Bool-cases, arith, All, List, refl, [], ◌∷◌, none, some,
}
use ai_model_scheduler.Nomadapi.Allocs.{latest_stub}
use ai_model_scheduler.Nomadapi.Api.{AllocStub}

-- The item stands in the list.
abbrev pub IsOneOf : AllocStub → List AllocStub → Type 0
IsOneOf s [] = ⊥
IsOneOf s (t ∷ ts) = (s ≡ t) ⊎ IsOneOf s ts

-- `latest` is one of the allocations, and no other was made after it.
abbrev pub IsNewest : AllocStub → List AllocStub → Type 0
IsNewest latest stubs = IsOneOf latest stubs × All (λ s. s.create_index ≤ latest.create_index) stubs

wider :
    (m l s : AllocStub) (stubs : List AllocStub) → IsOneOf m (l ∷ stubs) → IsOneOf m (l ∷ s ∷ stubs)
wider m l s stubs (inl p) = inl p
wider m l s stubs (inr q) = inr (inr q)

latest_stub-some-IsNewest :
    (l : AllocStub) (stubs : List AllocStub)
    → (m : AllocStub) × (latest_stub (some l) stubs ≡ some m) × IsNewest m (l ∷ stubs)
unfolding latest_stub
latest_stub-some-IsNewest l [] = (l, refl, (inl refl, (omega arith, tt)))
latest_stub-some-IsNewest l (s ∷ stubs) = elim (Bool-cases (ltb l.create_index s.create_index)) [
  | inl e ↦
      let (m, found, (among, (first, rest))) = latest_stub-some-IsNewest s stubs in
      (m, rw e found, (inr among, (ground (arith, e, first), (first, rest))))
  | inr e ↦
      let (m, found, (among, (first, rest))) = latest_stub-some-IsNewest l stubs in
      (m, rw e found, (wider m l s stubs among, (first, (ground (arith, e, first), rest))))
]

-- A job without allocations has no latest one; otherwise the latest is one of them, and none has a
-- greater create index.
pub latest_stub-IsNewest :
    (stubs : List AllocStub)
    → ((stubs ≡ []) × (latest_stub none stubs ≡ none))
      ⊎ ((m : AllocStub) × (latest_stub none stubs ≡ some m) × IsNewest m stubs)
unfolding latest_stub
latest_stub-IsNewest [] = inl (refl, refl)
latest_stub-IsNewest (s ∷ stubs) = inr (latest_stub-some-IsNewest s stubs)
