-- ===== src/Dispatch/Select.antt =====
-- crates/queue-runner/src/dispatch.rs, `strategy_order` and `select_and_reserve_agent`. What the
-- database answers is an argument of the call (`Answers`), and so is what other tasks do to the shared
-- counters between the snapshot of the pool and the reservation (`meanwhile`).
pub mod Eligible
pub mod Ranked
pub mod Reservation
use circus.Common.{
  ℕ, ◌-◌, Bool, true, false, not, ◌&&◌, List, [], ◌∷◌, Option, none, some, String, ltb, leb,
  if◌then◌else◌, any, retain,
}
use circus.Common.Float.{Ordering, equal, Float32, compare_ℕ}
use circus.Common.Sort.{then_with, sort_by}
use circus.Models.Rows.{Build, scheduling_features}
use circus.Rpc.Agent.{
  Instant, Uuid, Handle, Heap, AgentSnapshot, try_acquire_slot, supports_features,
  contended_surplus, requires_trusted_ref,
}
use circus.Rpc.Pool.{AgentPool, candidates_for}
use circus.Dispatch.Trust.{TrustedBuildContext, candidate_allowed_for_trusted_build}

-- `circus_config::BuilderSchedulingStrategy`.
pub data BuilderSchedulingStrategy : Type 0 where
  speed_factor_only cpu_core_count_with_speed_factor dynamic : BuilderSchedulingStrategy

-- A query's answer, or its failure, which the code logs and goes on from.
pub data Answer (A : Type 0) : Type 0 where
  answered : A → Answer A
  failed : Answer A

pub record Answers : Type 0 where
  pub trusted_build_context : Build → Option TrustedBuildContext
  pub is_schedulable : Uuid → Answer Bool
  pub pending_feature_demand : String → Answer (List String)

-- The answers `Ok(false)` and `Err` drop the candidate.
abbrev pub is_yes : Answer Bool → Bool
is_yes (answered b) = b
is_yes failed = false

abbrev pub demand_or_empty : Answer (List String) → List String
demand_or_empty (answered demand) = demand
demand_or_empty failed = []

module _ (fl : Float32) where
  open fl use {Carrier, partial_cmp, mul, of_u32, at_most}

  -- The fields of `BuildContext` that the choice reads, and the time of the call.
  pub record SelectContext : Type 0 where
    pub psi_threshold : Option Carrier
    pub heartbeat_ttl : ℕ
    pub now : Instant
    pub scheduling_strategy : BuilderSchedulingStrategy

  abbrev pub Candidate : Type 0
  Candidate = Handle × AgentSnapshot Carrier

  abbrev unwrap_or_equal : Option Ordering → Ordering
  unwrap_or_equal none = equal
  unwrap_or_equal (some o) = o

  unfoldable pub strategy_order :
      BuilderSchedulingStrategy → AgentSnapshot Carrier → AgentSnapshot Carrier → Ordering
  strategy_order speed_factor_only a b = unwrap_or_equal (partial_cmp b.speed_factor a.speed_factor)
  strategy_order cpu_core_count_with_speed_factor a b =
      let av = mul (of_u32 a.cpu_count) a.speed_factor in
      let bv = mul (of_u32 b.cpu_count) b.speed_factor in unwrap_or_equal (partial_cmp bv av)
  strategy_order dynamic a b =
      let free =
        λ (s : AgentSnapshot Carrier). mul (of_u32 (s.max_jobs - s.current_jobs)) s.speed_factor in
      unwrap_or_equal (partial_cmp (free b) (free a))

  -- `Instant::now().checked_sub(ttl)`.
  unfoldable pub cutoff : SelectContext → Option Instant
  cutoff ctx = if ltb ctx.now ctx.heartbeat_ttl then none else some (ctx.now - ctx.heartbeat_ttl)

  abbrev pub is_fresh : Option Instant → Option Instant → Bool
  is_fresh (some seen) (some cut) = leb cut seen
  is_fresh _ _ = true

  -- The closure of the first `retain`: a stale heartbeat counts as unknown, and passes.
  unfoldable pub passes_pressure : SelectContext → AgentSnapshot Carrier → Bool
  unfolding cutoff
  passes_pressure ctx snap = elim ctx.psi_threshold [
    | none ↦ true
    | some t ↦
        let hb = snap.heartbeat in
        if not (is_fresh hb.last_seen (cutoff ctx))
        then true
        else at_most hb.cpu_psi_avg10 t && at_most hb.mem_psi_avg10 t && at_most hb.io_psi_avg10 t
  ]

  module _ (ctx : SelectContext) (answers : Answers) (build : Build) where
    -- The trusted-ref filter runs only if some candidate needs it.
    unfoldable pub trust_filter : List Candidate → List Candidate
    trust_filter candidates =
        if any (λ c. requires_trusted_ref c.1) candidates
        then retain
            (λ c. candidate_allowed_for_trusted_build c.1 (answers.trusted_build_context build))
            candidates
        else candidates

    -- The filters, in their order. Each early return on an empty list returns what the rest would.
    unfoldable pub eligible_agents : List Candidate → List Candidate
    eligible_agents candidates =
        let calm = retain (λ c. passes_pressure ctx c.1) candidates in
        let able = retain (λ c. supports_features c.1 (scheduling_features build)) calm in
        let trusted = trust_filter able in
        retain (λ c. is_yes (answers.is_schedulable c.1.machine_id)) trusted

  -- The closure of `sort_by`.
  unfoldable pub preference : SelectContext → Build → List String → Candidate → Candidate → Ordering
  preference ctx build demand a b =
      then_with
        (then_with
          (compare_ℕ (contended_surplus a.1 (scheduling_features build) demand)
            (contended_surplus b.1 (scheduling_features build) demand))
          (strategy_order ctx.scheduling_strategy a.1 b.1))
        (compare_ℕ a.1.machine_id b.1.machine_id)

  pub record Reserved : Type 0 where
    pub chosen : Candidate
    pub heap : Heap Carrier

  -- `find_map(|(meta, snap)| meta.try_acquire_slot()…)`: the first agent that still has a slot.
  unfoldable pub reserve_first : Heap Carrier → List Candidate → Option Reserved
  reserve_first heap [] = none
  reserve_first heap (c ∷ cs) = elim (try_acquire_slot c.0 heap) [
    | some taken ↦ some (record { chosen = c; heap = taken })
    | none ↦ reserve_first heap cs
  ]

  unfoldable pub select_and_reserve_agent :
      SelectContext
      → Answers
      → (Heap Carrier → Heap Carrier)
      → Heap Carrier
      → AgentPool
      → Build
      → String
      → Option Reserved
  select_and_reserve_agent ctx answers meanwhile heap pool build system =
      let eligible = eligible_agents ctx answers build (candidates_for heap pool system) in
      let demand = demand_or_empty (answers.pending_feature_demand system) in
      reserve_first (meanwhile heap) (sort_by (preference ctx build demand) eligible)
