-- ===== src/Nomadapi/Waiting.antt =====
-- WaitForBatch of internal/nomadapi/dispatch.go returns once the context has ended.
use ai_model_scheduler.Base.{
  inr, inl, ◌⊎◌, sprint, Bool-cases, ok, err, IsSome, arith, ◌<◌, List, ◌≤◌, ◌≡◌, String, ℕ, Result,
  Option, refl, [], ◌∷◌, none, some, zero, suc, false,
}
use ai_model_scheduler.Nomadapi.Api.{AllocStub, Allocation, Act, return, on_ok, Api, ◌>>=◌}
use ai_model_scheduler.Nomadapi.Allocs.{latest_stub, latest_alloc, fetch_latest}
use ai_model_scheduler.Nomadapi.Dispatch.{BatchResult, wait_round, wait_for_batch}

-- How many ticks the context has left: a tick takes one, and no other call gives one back.
pub record Context {W : Type 0} (api : Api W) : Type 0 where
  pub remaining : W → ℕ
  pub tick : (w : W) → (api.tick w).0 ≡ false → remaining (api.tick w).1 < remaining w
  pub allocations : (id : String) (w : W) → remaining (api.allocations id w).1 ≤ remaining w
  pub alloc_info : (id : String) (w : W) → remaining (api.alloc_info id w).1 ≤ remaining w

module _ {W : Type 0} (api : Api W) (context : Context api) where
  fetched_remaining :
      (id : String) (info : Result String Allocation) (w : W)
      → (on_ok {A = Allocation} info
          (λ text. return (err (sprint ("fetching allocation " ∷ id ∷ ": " ∷ text ∷ []))))
          (λ alloc. return (ok (some alloc)))
          w).1
        ≡ w
  unfolding on_ok return
  fetched_remaining id (err _) w = refl
  fetched_remaining id (ok _) w = refl

  fetch_latest_remaining :
      (stub : Option AllocStub) (w : W)
      → context.remaining (fetch_latest api stub w).1 ≤ context.remaining w
  unfolding fetch_latest return ◌>>=◌ on_ok
  fetch_latest_remaining none w = omega arith
  fetch_latest_remaining (some stub) w =
      rw (fetched_remaining stub.id _ _) (context.alloc_info stub.id w)

  listed_remaining :
      (id : String) (listed : Result String (List AllocStub)) (w : W)
      → context.remaining
          (on_ok listed
            (λ text. return (err (sprint ("listing allocations for " ∷ id ∷ ": " ∷ text ∷ []))))
            (λ stubs. fetch_latest api (latest_stub none stubs))
            w).1
        ≤ context.remaining w
  unfolding on_ok return
  listed_remaining id (err _) w = omega arith
  listed_remaining id (ok stubs) w = fetch_latest_remaining _ w

  latest_alloc_remaining :
      (id : String) (w : W) → context.remaining (latest_alloc api id w).1 ≤ context.remaining w
  unfolding latest_alloc ◌>>=◌
  latest_alloc_remaining id w = omega (
    arith,
    context.allocations id w,
    listed_remaining id (api.allocations id w).0 (api.allocations id w).1,
  )

  wait_round-IsSome :
      (id : String) (next : Act W (Option (Result String BatchResult))) (res : Option BatchResult)
      (w : W)
      → ((w' : W) → context.remaining w' < context.remaining w → IsSome (next w').0)
      → IsSome (wait_round api id next res w).0
  unfolding wait_round return ◌>>=◌
  wait_round-IsSome id next (some res) w h = (_, refl)
  wait_round-IsSome id next none w h = elim (Bool-cases (api.tick w).0) [
    | inl e ↦ rw e (_, refl)
    | inr e ↦ rw e (h _ (context.tick w e))
  ]

  -- With more fuel than the context has ticks left, the wait answers: with the allocation's result,
  -- or with the error of the context.
  pub wait_for_batch-IsSome :
      (fuel : ℕ) (id : String) (w : W)
      → context.remaining w < fuel
      → IsSome (wait_for_batch api fuel id w).0
  unfolding wait_for_batch ◌>>=◌
  wait_for_batch-IsSome zero id w h = let none_left : ⊥ = omega (arith, h) in absurd none_left
  wait_for_batch-IsSome (suc fuel) id w h =
      wait_round-IsSome id (wait_for_batch api fuel id) _ _
        λ w' k. wait_for_batch-IsSome fuel id w' (omega (arith, h, k, latest_alloc_remaining id w))

-- The status of a result is one of those that end a batch.
abbrev pub IsTerminal : Option (Result String BatchResult) → Type 0
IsTerminal none = Unit
IsTerminal (some (err _)) = Unit
IsTerminal (some (ok res)) = (res.client_status ≡ "complete") ⊎ (res.client_status ≡ "failed")
