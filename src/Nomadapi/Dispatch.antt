-- ===== src/Nomadapi/Dispatch.antt =====
-- internal/nomadapi/dispatch.go.
use ai_model_scheduler.Base.{
  trim_space, not, ok, ◌||◌, if◌then◌else◌, sprint, ◌==◌, List, Dict, Bool, ℕ, err, Option, String,
  Result, [], ◌∷◌, none, some, zero, suc,
}
use ai_model_scheduler.Nomadapi.Api.{on_ok, Allocation, return, Act, Api, ◌>>=◌}
use ai_model_scheduler.Nomadapi.Allocs.{alloc_events, latest_alloc, AllocEvent}
use ai_model_scheduler.Nomadapi.Logs.{tail_logs}
use ai_model_scheduler.Jobspec.Common.{task_name}

-- BatchResult
pub record BatchResult : Type 0 where
  pub alloc_id : String
  pub client_status : String

unfoldable pub is_telling : AllocEvent → Bool
is_telling ev = ev.type == "Driver Failure" || ev.type == "Failed Validation"

-- The first telling event's message, else the last event's.
unfoldable pub telling_message : String → List AllocEvent → String
unfolding is_telling
telling_message last [] = last
telling_message last (ev ∷ events) =
    let later = telling_message ev.message events in if is_telling ev then ev.message else later

-- The status of an allocation that is over; `none` is an error, or no allocation.
unfoldable pub batch_result : Result String (Option Allocation) → Option BatchResult
batch_result (err _) = none
batch_result (ok none) = none
batch_result (ok (some alloc)) =
    if alloc.client_status == "complete" || alloc.client_status == "failed"
    then some (record { alloc_id = alloc.id; client_status = alloc.client_status })
    else none

module _ {W : Type 0} (api : Api W) where
  -- Dispatch
  unfoldable pub dispatch : String → Dict String → Act W (Result String String)
  dispatch job_id meta = do
    resp ← api.dispatch job_id meta
    on_ok resp (λ text. return (err (sprint ("dispatching " ∷ job_id ∷ ": " ∷ text ∷ []))))
        λ id. return (ok id)

  -- BatchFailureReason
  unfoldable pub batch_failure_reason : String → Act W String
  batch_failure_reason alloc_id = do
    stderr ← tail_logs api alloc_id task_name "stderr" 4096
    if not (trim_space stderr.0 == "") then return (trim_space stderr.0) else (do
      events ← alloc_events api alloc_id
      on_ok events (λ _. return "no output")
          λ evs.
            return (elim evs [ [] ↦ "no output" | ev ∷ more ↦ telling_message "" (ev ∷ more) ]))

  ctx_ended : String → W → Result String BatchResult
  ctx_ended id w = err (sprint ("waiting for " ∷ id ∷ ": " ∷ api.ctx_err w ∷ []))

  -- A round of the wait that the allocation does not end; `next` is the next round.
  unfoldable pub wait_round :
      String
      → Act W (Option (Result String BatchResult))
      → Option BatchResult
      → Act W (Option (Result String BatchResult))
  unfolding ctx_ended
  wait_round id next (some res) = return (some (ok res))
  wait_round id next none = do
    ended ← api.tick
    (if ended then (λ w. (some (ctx_ended id w), w)) else next)

  -- WaitForBatch; `none` is no fuel left
  unfoldable pub wait_for_batch : ℕ → String → Act W (Option (Result String BatchResult))
  wait_for_batch zero id = return none
  wait_for_batch (suc fuel) id =
      let next = wait_for_batch fuel id in
      (do alloc ← latest_alloc api id; wait_round id next (batch_result alloc))
