-- ===== src/RunnerLoop/Body.antt =====
-- crates/queue-runner/src/runner_loop.rs: the last stages, which need the venues, the body of the
-- loop over the pending builds, and a cycle.
use circus.Common.{
  ℕ, ◌+◌, Bool, true, false, not, ◌&&◌, ◌||◌, List, [], ◌∷◌, ◌++◌, Option, none, some, String, ltb,
  if◌then◌else◌, any,
}
use circus.Models.BuildStatus.{unsupported_system}
use circus.Models.JobsetState.{JobsetState, one_at_a_time}
use circus.Models.Rows.{Build, Evaluation, Jobset, scheduling_features}
use circus.Rpc.Agent.{AgentSnapshot, contains, supports_features}
use circus.Dispatch.Caps.{RunnerCaps, RemoteBuilder, supports, supports_required_features}
use circus.Dispatch.Select.{Answer, answered, failed}
use circus.RunnerLoop.{Effect, dispatch, LoopAnswers, FodCache, ◌or_else◌}
use circus.RunnerLoop.Stages.{
  is_interval_rebuild, mark_build_done, aggregate_stage, dedup_stage, fod_output, fod_stage,
  failed_paths_stage, dependency_stage,
}

pub record LoopConfig (F : Type 0) : Type 0 where
  pub failed_paths_cache : Bool
  pub unsupported_timeout : Option ℕ
  pub runner_caps : RunnerCaps
  -- `agent_pool().snapshot_all()`.
  pub agents : List (AgentSnapshot F)

abbrev is_one_at_a_time : JobsetState → Bool
is_one_at_a_time one_at_a_time = true
is_one_at_a_time _ = false

module _ {F : Type 0} (cfg : LoopConfig F) (a : LoopAnswers) (build : Build) where
  unfoldable pub has_builder : List RemoteBuilder → Bool
  has_builder builders =
      any
        (λ b.
          supports_required_features (scheduling_features build) b.supported_features
            b.mandatory_features)
        builders

  unfoldable pub has_agent : String → Bool
  has_agent system =
      any
        (λ agent.
          contains agent.systems system && supports_features agent (scheduling_features build))
        cfg.agents

  -- A build that no venue can take waits, and after the timeout it is ended as unsupported.
  unfoldable pub wait_or_end : ℕ → Bool → Option (List Effect)
  wait_or_end timeout elsewhere =
      if not elsewhere && not (supports cfg.runner_caps build.system (scheduling_features build))
      then (if ltb (build.created_at + timeout) a.now
          then some (
              mark_build_done a build.id unsupported_system none none
                (some "No builder available for system/features") [])
          else some [])
      else none

  abbrev elsewhere_for : ℕ → String → Answer (List RemoteBuilder) → Option (List Effect)
  elsewhere_for timeout system (answered builders) =
      wait_or_end timeout (has_builder builders || has_agent system)
  elsewhere_for timeout system failed = some []

  -- A build without a system can only run on the runner host.
  abbrev system_venues : ℕ → Option String → Option (List Effect)
  system_venues timeout (some system) = elsewhere_for timeout system (a.builders_for system)
  system_venues timeout none = wait_or_end timeout false

  unfoldable pub unsupported_stage : Option (List Effect)
  unsupported_stage = elim cfg.unsupported_timeout [
    | none ↦ none
    | some timeout ↦ system_venues timeout build.system
  ]

  abbrev jobset_free : Answer Jobset → Bool
  jobset_free failed = false
  jobset_free (answered jobset) =
      if is_one_at_a_time jobset.state
      then elim (a.has_running_builds jobset.id) [ answered running ↦ not running | failed ↦ false ]
      else true

  abbrev evaluation_free : Answer Evaluation → Bool
  evaluation_free failed = false
  evaluation_free (answered eval) = jobset_free (a.jobset eval.jobset_id)

  -- A failed query leaves the build pending too.
  unfoldable pub one_at_a_time_stage : Option (List Effect)
  one_at_a_time_stage = if evaluation_free (a.evaluation build.evaluation_id) then none else some []

  pub record Processed : Type 0 where
    pub effects : List Effect
    pub cache : FodCache

  -- The body of `for build in builds`.
  unfoldable pub process_build : FodCache → Processed
  process_build cache =
      let interval_rebuild = is_interval_rebuild a build in
      let dedup = dedup_stage a build interval_rebuild in
      let queried = fod_output a build interval_rebuild cache in
      let reached =
        if build.is_aggregate then false else elim dedup [ none ↦ true | some e ↦ false ] in
      record {
        effects =
            if build.is_aggregate
            then aggregate_stage a build
            else dedup
              or_else fod_stage a build queried.output
              or_else failed_paths_stage a build cfg.failed_paths_cache interval_rebuild
              or_else dependency_stage a build
              or_else unsupported_stage
              or_else one_at_a_time_stage
              or_else (dispatch build.id ∷ []);
        cache = if reached then queried.cache else cache;
      }

-- A pending build with what is answered while the loop's body runs on it: the answers of one build
-- can depend on what was done for the builds before it.
pub record Pending : Type 0 where
  pub build : Build
  pub answers : LoopAnswers

module _ {F : Type 0} (cfg : LoopConfig F) where
  -- The builds of a cycle, one after the other, with the cache of the cycle.
  unfoldable pub process_builds : FodCache → List Pending → List Effect
  process_builds cache [] = []
  process_builds cache (p ∷ pending) =
      let done = process_build cfg p.answers p.build cache in
      done.effects ++ process_builds done.cache pending

  pub data CycleResult : Type 0 where
    continued : List Effect → CycleResult
    fetch_failed : CycleResult

  -- `strict_errors` ends the loop if the pending builds cannot be fetched; else the cycle is empty.
  unfoldable pub run_cycle : Bool → Answer (List Pending) → CycleResult
  run_cycle strict_errors (answered pending) = continued (process_builds [] pending)
  run_cycle strict_errors failed = if strict_errors then fetch_failed else continued []
