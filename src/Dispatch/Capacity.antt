-- ===== src/Dispatch/Capacity.antt =====
-- crates/queue-runner/src/dispatch.rs, `scheduler_capacity`.
use circus.Common.{ℕ, ◌+◌, ◌-◌, ◌^◌, ◌≤◌, ltb, if◌then◌else◌, arith, min}
use circus.Rpc.Agent.{Heap}
use circus.Rpc.Pool.{AgentPool, total_free_slots, total_slots}

abbrev pub max_i64 : ℕ
max_i64 = 2 ^ 63 - 1

abbrev pub max_i32 : ℕ
max_i32 = 2 ^ 31 - 1

pub record SchedulerCapacity : Type 0 where
  pub fetch_limit : ℕ
  pub schedulable_capacity : ℕ

-- `i64::saturating_add` and `Ord::clamp` on numbers that are not negative.
abbrev saturating_add : ℕ → ℕ → ℕ
saturating_add a b = min (a + b) max_i64

abbrev clamp : ℕ → ℕ → ℕ → ℕ
clamp n lo hi = if ltb n lo then lo else if ltb hi n then hi else n

module _ {F : Type 0} (heap : Heap F) where
  -- `worker_count` is a `usize` that an `i64` holds, so `as i64` keeps it.
  pub scheduler_capacity : AgentPool → ℕ → SchedulerCapacity
  scheduler_capacity pool worker_count = record {
    fetch_limit = clamp (saturating_add worker_count (total_free_slots heap pool)) 10 512;
    schedulable_capacity = clamp (saturating_add worker_count (total_slots heap pool)) 1 max_i32;
  }

  -- A cycle never fetches less than 10 or more than 512 builds; the capacity that fairness is judged
  -- by is positive and fits an `i32`; and where neither bound is met, the two are the runner's own
  -- workers with the free slots, and with all slots, of the connected agents.
  scheduler_capacity_bounds :
      (pool : AgentPool) (workers : ℕ)
      → let c = scheduler_capacity pool workers in
        (10 ≤ c.fetch_limit)
        × (c.fetch_limit ≤ 512)
        × (1 ≤ c.schedulable_capacity)
        × (c.schedulable_capacity ≤ max_i32)
        × (min (workers + total_free_slots heap pool) 512 ≤ c.fetch_limit)
        × (min (workers + total_slots heap pool) max_i32 ≤ c.schedulable_capacity)
        × (c.fetch_limit ≤ 10 + workers + total_free_slots heap pool)
        × (c.schedulable_capacity ≤ 1 + workers + total_slots heap pool)
  unfolding scheduler_capacity
  scheduler_capacity_bounds pool workers = ground arith
