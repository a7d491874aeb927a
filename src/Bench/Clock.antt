-- ===== src/Bench/Clock.antt =====
-- internal/bench/runner.go: under a clock that each wait advances, the polling loops return.
use ai_model_scheduler.Bench.Cluster.{pure, M, read, State, Host, Cluster, ◌>>=◌}
use ai_model_scheduler.Base.{
  if◌then◌else◌, Bool, suc, ◌+ℤ◌, String, false, ◌+◌, arith, pos, ◌<◌, ◌≤◌, pos_part, ℤ, ◌≡◌, ℕ,
}
use ai_model_scheduler.Bench.Polling.{is_after}
use ai_model_scheduler.Bench.Reading.{Reads}
use ai_model_scheduler.Bench.Leads.{
  Leads-weaken, Leads-pure, Leads-if, Leads-fact, Leads-bind, Leads,
}
use ai_model_scheduler.Bench.Keeps.{Keeps}
use ai_model_scheduler.Bench.Run.{Run}

-- The time is part of the state: `now` tells it, no call turns it back, and a wait that the context
-- does not end lets at least one unit of it pass.
pub record Clock {F W : Type 0} (cluster : Cluster F W) (host : Host F W) : Type 0 where
  pub time : W → ℕ
  pub tells : (w : W) → time w ≤ (host.now w).0
  pub now : (w : W) → (host.now w).0 ≤ time (host.now w).1
  pub wait : (w : W) → time w ≤ time (host.wait w).1
  pub passes : (w : W) → (host.wait w).0 ≡ false → time w < time (host.wait w).1
  pub list_managed : (w : W) → time w ≤ time (cluster.list_managed w).1
  pub batch_status : (id : String) (w : W) → time w ≤ time (cluster.batch_status id w).1
  pub failure_reason : (alloc : String) (w : W) → time w ≤ time (cluster.failure_reason alloc w).1
  pub read_logs :
      (alloc : String) (all : Bool) (w : W) → time w ≤ time (cluster.read_logs alloc all w).1
  pub gpu_stats : (w : W) → time w ≤ time (cluster.gpu_stats w).1
  pub save_run : (run : Run F) (w : W) → time w ≤ time (host.save_run run w).1

-- The last moment at which the deadline has not passed.
unfoldable pub deadline : ℕ → ℤ → ℕ
deadline start timeout = pos_part (pos start +ℤ timeout)

-- A time that is not after the deadline is at most the last moment.
in_time :
    (start now : ℕ) (timeout : ℤ)
    → is_after start timeout now ≡ false
    → now ≤ deadline start timeout
unfolding is_after deadline ◌+ℤ◌
in_time start now timeout h = ground arith

module _ {F W : Type 0} (cluster : Cluster F W) (host : Host F W) (clock : Clock cluster host) where
  -- It is at least that late.
  unfoldable pub Since : ℕ → State F W → Type 0
  Since k s = k ≤ clock.time s.world

  read-Since :
      {A : Type 0} (k : ℕ) (op : W → A × W)
      → ((w : W) → clock.time w ≤ clock.time (op w).1)
      → Keeps (Since k) (read op)
  unfolding read Since
  read-Since k op later = record { at = λ s h. ground (arith, later s.world, h) }

  pub Since-Reads : (k : ℕ) → Reads (Since k) cluster host
  Since-Reads k = record {
    list_managed = read-Since k _ clock.list_managed;
    batch_status = λ id. read-Since k _ (clock.batch_status id);
    failure_reason = λ alloc. read-Since k _ (clock.failure_reason alloc);
    read_logs = λ alloc all. read-Since k _ (clock.read_logs alloc all);
    gpu_stats = read-Since k _ clock.gpu_stats;
    now = read-Since k _ λ w. ground (arith, clock.tells w, clock.now w);
    wait = read-Since k _ clock.wait;
  }

  now-Since : (k : ℕ) → Leads (Since k) (read host.now) (λ t s. Since k s × (k ≤ t))
  unfolding read Since
  now-Since k = record {
    at = λ s h. (
      ground (arith, clock.tells s.world, clock.now s.world, h),
      ground (arith, clock.tells s.world, h),
    );
  }

  wait-Since :
      (k : ℕ) → Leads (Since k) (read host.wait) (λ ended s. ended ≡ false → Since (suc k) s)
  unfolding read Since
  wait-Since k = record { at = λ s h e. ground (arith, clock.passes s.world e, h) }

  -- The fuel is enough from the moment `k` on.
  unfoldable pub Enough : ℕ → ℤ → ℕ → ℕ → Type 0
  Enough start timeout fuel k = (0 < fuel) × (deadline start timeout + 2 ≤ fuel + k)

  -- The end of a round, where one more unit of fuel was enough.
  pub poll-Leads :
      {A : Type 0} {Q : A → State F W → Type 0} (start : ℕ) (timeout : ℤ) (fuel k : ℕ) (a : ℕ → A)
      (b : A) (next : M F W A)
      → deadline start timeout + 2 ≤ suc fuel + k
      → ((t : ℕ) (s : State F W) → Q (a t) s)
      → ((s : State F W) → Q b s)
      → (Enough start timeout fuel (suc k) → Leads (Since (suc k)) next Q)
      → Leads
          (Since k)
          (read host.now >>= λ t.
            if is_after start timeout t
            then pure (a t)
            else (read host.wait >>= λ ended. if ended then pure b else next))
          Q
  unfolding Enough
  poll-Leads start timeout fuel k a b next enough qa qb go =
      Leads-bind (λ t s. Since k s × (k ≤ t)) _ _ (now-Since k)
        λ t. Leads-fact λ since.
          Leads-if (is_after start timeout t) _ _ (λ _. Leads-pure _ λ s _. qa t s)
            λ early.
              Leads-bind (λ ended s. ended ≡ false → Since (suc k) s) _ _ (wait-Since k)
                λ ended.
                  Leads-if ended _ _ (λ _. Leads-pure _ λ s _. qb s)
                    λ on.
                      Leads-weaken _ (λ s h. h on)
                        (go (ground (arith, in_time start t timeout early, since, enough)))
