-- ===== src/Dispatch/Select/Reservation.antt =====
-- crates/queue-runner/src/dispatch.rs: what `select_and_reserve_agent` promises.
use circus.Common.{ℕ, ◌≤◌, ◌<◌, ◌≡◌, ◌≢◌, Option, some, none, String, List, arith, In}
use circus.Common.Float.{greater, Float32}
use circus.Common.Sort.{sort_by, sort_by-In, In-sort_by, sort_by-Ascending}
use circus.Models.Rows.{Build, scheduling_features}
use circus.Rpc.Agent.{Heap, try_acquire_slot, contended_surplus}
use circus.Rpc.Pool.{AgentPool, candidates_for}
use circus.Rpc.Pool.Candidates.{IsCandidate, candidates_for-IsCandidate, IsCandidate-candidates_for}
use circus.Dispatch.Select.{
  Answers, SelectContext, Candidate, Reserved, preference, demand_or_empty, eligible_agents,
  select_and_reserve_agent,
}
use circus.Dispatch.Select.Eligible.{
  IsEligible, eligible_agents-IsEligible, IsEligible-eligible_agents,
}
use circus.Dispatch.Select.Ranked.{
  try_acquire_slot-eq-none, try_acquire_slot-ne-none, reserve_first-eq-some, reserve_first-eq-none,
  reserve_first-least,
}

module _ (fl : Float32) (ctx : SelectContext fl) (answers : Answers)
    (meanwhile : Heap fl.Carrier → Heap fl.Carrier) (heap : Heap fl.Carrier) (pool : AgentPool)
    (build : Build) (system : String) where
  abbrev outcome : Option (Reserved fl)
  outcome = select_and_reserve_agent fl ctx answers meanwhile heap pool build system

  abbrev surplus : Candidate fl → ℕ
  surplus c =
      contended_surplus c.1 (scheduling_features build)
        (demand_or_empty (answers.pending_feature_demand system))

  abbrev demand : List String
  demand = demand_or_empty (answers.pending_feature_demand system)

  preference-greater :
      (a b : Candidate fl) → preference fl ctx build demand a b ≡ greater → surplus b ≤ surplus a
  unfolding preference
  preference-greater a b e = ground arith

  preference-ne-greater :
      (a b : Candidate fl) → preference fl ctx build demand a b ≢ greater → surplus a ≤ surplus b
  unfolding preference
  preference-ne-greater a b n = ground arith

  ranked :
      (c : Candidate fl)
      → IsCandidate heap pool system c
      → IsEligible fl ctx answers build c
      → In c (
          sort_by
            (preference fl ctx build demand)
            (eligible_agents fl ctx answers build (candidates_for heap pool system)))
  ranked c is fit = In-sort_by _ c _ (
      IsEligible-eligible_agents fl ctx answers build c _
        (IsCandidate-candidates_for heap pool system c is) fit)

  -- A reserved agent was in the pool with the system and a free slot when the pool was read, it passes
  -- every filter (pressure, features, trusted ref, back-off), and the reservation is a slot that it
  -- still had after what the other tasks did meanwhile.
  pub reserved-IsEligible :
      (r : Reserved fl)
      → outcome ≡ some r
      → IsCandidate heap pool system r.chosen
        × IsEligible fl ctx answers build r.chosen
        × (try_acquire_slot r.chosen.0 (meanwhile heap) ≡ some r.heap)
  unfolding select_and_reserve_agent
  reserved-IsEligible r e =
      let (m, slot) = reserve_first-eq-some fl (meanwhile heap) _ r e in
      let (c, fit) =
        eligible_agents-IsEligible fl ctx answers build r.chosen _ (sort_by-In _ r.chosen _ m) in
      (candidates_for-IsCandidate heap pool system r.chosen c, fit, slot)

  -- No agent is passed over: if the call returns `None`, then every candidate that passes the filters
  -- has no slot left when the reservation is tried.
  pub none_reserved_only_if_full :
      (c : Candidate fl)
      → outcome ≡ none
      → IsCandidate heap pool system c
      → IsEligible fl ctx answers build c
      → (meanwhile heap c.0).max_jobs ≤ (meanwhile heap c.0).current_jobs
  unfolding select_and_reserve_agent
  none_reserved_only_if_full c e is fit =
      try_acquire_slot-eq-none (meanwhile heap) c.0
        (reserve_first-eq-none fl (meanwhile heap) _ c e (ranked c is fit))

  -- The reserved agent wastes the fewest features that queued work demands, among all candidates that
  -- pass the filters and still have a slot, whatever the strategy and the floats are.
  pub reserved_has_least_surplus :
      (r : Reserved fl) (c : Candidate fl)
      → outcome ≡ some r
      → IsCandidate heap pool system c
      → IsEligible fl ctx answers build c
      → (meanwhile heap c.0).current_jobs < (meanwhile heap c.0).max_jobs
      → surplus r.chosen ≤ surplus c
  unfolding select_and_reserve_agent
  reserved_has_least_surplus r c e is fit free =
      reserve_first-least fl (meanwhile heap) surplus _ c r
        (sort_by-Ascending surplus _ preference-greater preference-ne-greater _) e (ranked c is fit)
        (try_acquire_slot-ne-none (meanwhile heap) c.0 free)
