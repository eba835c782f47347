-- ===== src/Rpc/Pool.antt =====
-- crates/queue-runner/src/rpc/pool.rs: `AgentPool`, the registry of connected agents.
pub mod Registry
pub mod Candidates
pub mod Capacity
use circus.Common.{
  Bool, ℕ, ◌+◌, ◌-◌, ◌&&◌, List, [], ◌∷◌, map, Option, none, some, String, ltb, ◌==◌, if◌then◌else◌,
  any, retain, length, min,
}
use circus.Rpc.Agent.{Uuid, Handle, Heap, AgentSnapshot, contains, snapshot, max_u32}

-- `HashMap<Uuid, Arc<AgentMeta>>`. The map's order is not specified; the list has some order.
abbrev pub AgentPool : Type 0
AgentPool = List (Uuid × Handle)

-- `get`.
unfoldable pub get : AgentPool → Uuid → Option Handle
get [] k = none
get ((j, h) ∷ pool) k = if j == k then some h else get pool k

-- The map without a key.
unfoldable pub without : AgentPool → Uuid → AgentPool
without [] k = []
without ((j, h) ∷ pool) k = if j == k then without pool k else (j, h) ∷ without pool k

-- A map operation with its result: the new map, and the handle that it displaced.
pub record Displaced : Type 0 where
  pub pool : AgentPool
  pub old : Option Handle

unfoldable pub remove : AgentPool → Uuid → Displaced
unfolding get without
remove pool k = record { pool = without pool k; old = get pool k }

-- The folds of `u32::saturating_add`, from the left.
unfoldable pub saturating_sum : ℕ → List ℕ → ℕ
saturating_sum acc [] = acc
saturating_sum acc (n ∷ ns) = saturating_sum (min (acc + n) max_u32) ns

module _ {F : Type 0} (heap : Heap F) where
  unfoldable pub insert : AgentPool → Handle → Displaced
  unfolding get without
  insert pool h =
      let k = (heap h).machine_id in record { pool = (k, h) ∷ without pool k; old = get pool k }

  unfoldable pub remove_if_connection : AgentPool → Uuid → Uuid → Displaced
  unfolding get remove
  remove_if_connection pool machine_id connection_id = elim (get pool machine_id) [
    | none ↦ record { pool = pool; old = none }
    | some h ↦
        if (heap h).connection_id == connection_id
        then remove pool machine_id
        else record { pool = pool; old = none }
  ]

  -- Handles with a snapshot, of the agents that serve the system and have a free slot.
  unfoldable pub candidates_for : AgentPool → String → List (Handle × AgentSnapshot F)
  candidates_for pool system =
      map (λ e. (e.1, snapshot (heap e.1) (heap e.1).current_jobs))
        (retain
          (λ e.
            contains (heap e.1).systems system && ltb (heap e.1).current_jobs (heap e.1).max_jobs)
          pool)

  unfoldable pub snapshot_all : AgentPool → List (AgentSnapshot F)
  snapshot_all = map (λ e. snapshot (heap e.1) (heap e.1).current_jobs)

  -- `saturating_sub` on `u32` stops at 0, as `-` does.
  unfoldable pub total_free_slots : AgentPool → ℕ
  unfolding saturating_sum
  total_free_slots pool =
      saturating_sum 0 (map (λ e. (heap e.1).max_jobs - (heap e.1).current_jobs) pool)

  unfoldable pub total_slots : AgentPool → ℕ
  unfolding saturating_sum
  total_slots pool = saturating_sum 0 (map (λ e. (heap e.1).max_jobs) pool)

  unfoldable pub serves_system : AgentPool → String → Bool
  serves_system pool system = any (λ e. contains (heap e.1).systems system) pool

unfoldable pub len : AgentPool → ℕ
len = length
