-- ===== src/Bench/Polling.antt =====
-- internal/bench/runner.go: the polling loops `waitBatch` and `waitHealthy`, on fuel. `none` means
-- that the fuel ran out.
use ai_model_scheduler.Base.{
  String, ℕ, zero, suc, ◌-◌, ◌*◌, ℤ, pos, negsuc, ltb_ℤ, Bool, not, ◌&&◌, ◌||◌, ◌⊎◌, inl, inr, List,
  [], ◌∷◌, ◌++◌, Option, none, some, length, Result, ok, err, if◌then◌else◌, ◌==◌, leb, eqb, sprint,
  contains, trim_space, ◌%◌, ◌+ℤ◌, to_int64, int64_mod, split, join,
}
use ai_model_scheduler.Nomadapi.Deployment.{Deployment}
use ai_model_scheduler.Bench.Cluster.{Cluster, Host, M, pure, ◌>>=◌, read, on_result}

-- An int64 count of nanoseconds: the result of an operation keeps its low 64 bits.
unfoldable pub wrap_ℤ : ℤ → ℤ
unfolding to_int64
wrap_ℤ (pos n) = to_int64 n
wrap_ℤ (negsuc n) = to_int64 (int64_mod - 1 - n % int64_mod)

abbrev pub nanos_per_second : ℕ
nanos_per_second = 1000000000

-- time.Duration(sec) * time.Second
unfoldable pub seconds : ℤ → ℤ
unfolding wrap_ℤ
seconds (pos n) = wrap_ℤ (pos (n * nanos_per_second))
seconds (negsuc n) = wrap_ℤ (negsuc (suc n * nanos_per_second - 1))

-- time.Now().After(deadline), the deadline being `timeout` after `start`
unfoldable pub is_after : ℕ → ℤ → ℕ → Bool
unfolding ◌+ℤ◌
is_after start timeout now = ltb_ℤ (pos start +ℤ timeout) (pos now)

-- findDeployment
unfoldable pub find_deployment : String → List Deployment → Option Deployment
find_deployment name [] = none
find_deployment name (d ∷ deps) =
    let rest = find_deployment name deps in if d.name == name then some d else rest

last_line : List String → String
last_line [] = ""
last_line (l ∷ []) = l
last_line (l ∷ m ∷ rest) = last_line (m ∷ rest)

-- firstLine: of a text with line breaks, the last line
unfoldable pub first_line : String → String
unfolding trim_space split last_line contains
first_line s =
    let t = trim_space s in if contains t "\n" then trim_space (last_line (split 10 t)) else t

unfoldable pub after_scan :
    {F W A : Type 0}
    → Result String String ⊎ Deployment
    → (Result String String → M F W A)
    → (Deployment → M F W A)
    → M F W A
after_scan (inl outcome) done go_on = done outcome
after_scan (inr last) done go_on = go_on last

module _ {F W : Type 0} (cluster : Cluster F W) (host : Host F W) where
  -- One round over the pending jobs: the first that has failed ends it, and the rest are those
  -- that are not complete yet.
  unfoldable pub poll_pending : List String → List String → M F W (Result String (List String))
  poll_pending still [] = pure (ok still)
  poll_pending still (id ∷ ids) = do
    answer ← read (cluster.batch_status id)
    on_result answer (λ _. poll_pending (still ++ id ∷ []) ids)
        λ (alloc, status).
          if status == "complete"
          then poll_pending still ids
          else if status == "failed"
          then (do
            reason ← read (cluster.failure_reason alloc)
            pure (err (sprint ("job " ∷ id ∷ " failed: " ∷ first_line reason ∷ []))))
          else poll_pending (still ++ id ∷ []) ids

  unfoldable pub late_jobs : List String → ℤ → String
  late_jobs still timeout =
      sprint
        ("jobs did not finish within " ∷ host.show_duration timeout ∷ ": " ∷ join ", " still ∷ [])

  unfoldable pub wait_batch : ℕ → ℕ → ℤ → List String → M F W (Option (Result String (Unit {0})))
  wait_batch zero start timeout pending = pure none
  wait_batch (suc fuel) start timeout pending = do
    polled ← poll_pending [] pending
    on_result polled (λ text. pure (some (err text)))
        λ still. if eqb (length still) 0 then pure (some (ok tt)) else do
          t ← read host.now
          if is_after start timeout t then pure (some (err (late_jobs still timeout))) else do
            ended ← read host.wait
            if ended then pure (some (err "cancelled")) else wait_batch fuel start timeout still

  -- The deployment's state in one listing, as `waitHealthy` goes through it: an endpoint, a failure,
  -- or the last entry of that name.
  unfoldable pub scan_listing :
      String → Deployment → List Deployment → M F W (Result String String ⊎ Deployment)
  scan_listing name last [] = pure (inr last)
  scan_listing name last (d ∷ deps) =
      if not (d.name == name)
      then scan_listing name last deps
      else if d.healthy && not (d.endpoint == "")
      then pure (inl (ok d.endpoint))
      else if d.alloc_status == "failed" || d.status == "dead"
      then (do
        reason ← (if d.alloc_id == "" then pure "" else read (cluster.failure_reason d.alloc_id))
        pure (inl (err (sprint ("deployment failed: " ∷ first_line reason ∷ [])))))
      else scan_listing name d deps

  -- misses = 0, or misses++, after a listing that succeeded
  unfoldable pub count_miss : String → List Deployment → ℕ → ℕ
  count_miss name deps misses = elim (find_deployment name deps) [ some _ ↦ 0 | none ↦ suc misses ]

  unfoldable pub removed : String → String
  removed name = sprint ("deployment " ∷ name ∷ " was removed before it became healthy" ∷ [])

  unfoldable pub late_deployment : ℤ → Deployment → String
  late_deployment timeout last = sprint (
      "deployment not healthy after "
      ∷ host.show_duration timeout
      ∷ " (last status "
      ∷ last.status
      ∷ "/"
      ∷ last.alloc_status
      ∷ ")"
      ∷ [])

  unfoldable pub wait_healthy :
      ℕ → String → ℕ → ℤ → Deployment → ℕ → M F W (Option (Result String String))
  wait_healthy zero name start timeout last misses = pure none
  wait_healthy (suc fuel) name start timeout last misses = do
    listing ← read cluster.list_managed
    let go_on = λ (last' : Deployment) (misses' : ℕ). do
      t ← read host.now
      if is_after start timeout t then pure (some (err (late_deployment timeout last'))) else do
        ended ← read host.wait
        if ended
            then pure (some (err "cancelled"))
            else wait_healthy fuel name start timeout last' misses'
    on_result listing (λ _. go_on last misses)
        λ deps.
          let misses' = count_miss name deps misses in
          if leb 2 misses' then pure (some (err (removed name))) else do
            seen ← scan_listing name last deps
            after_scan seen (λ outcome. pure (some outcome)) (λ last'. go_on last' misses')
