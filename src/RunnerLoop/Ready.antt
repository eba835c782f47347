-- ===== src/RunnerLoop/Ready.antt =====
-- crates/queue-runner/src/runner_loop.rs: which pending builds are given to the worker pool. Each
-- stage is described on its own terms, and a build is dispatched if it passes all of them.
use circus.Common.{
  ◌≡◌, ◌≢◌, ◌↔◌, ◌⊎◌, Bool, true, false, List, [], ◌∷◌, Option, none, some, String, arith,
}
use circus.Models.JobsetState.{one_at_a_time}
use circus.Models.Rows.{Build, Evaluation, Jobset, scheduling_features}
use circus.Dispatch.Caps.{RemoteBuilder, supports}
use circus.Dispatch.Select.{answered, failed}
use circus.RunnerLoop.{dispatch, LoopAnswers, FodCache}
use circus.RunnerLoop.Stages.{
  is_interval_rebuild, mark_build_done, aggregate_stage, dedup_stage, fod_output, fod_stage,
  failed_paths_stage, dependency_stage,
}
use circus.RunnerLoop.Body.{
  LoopConfig, has_builder, has_agent, wait_or_end, unsupported_stage, one_at_a_time_stage,
  process_build,
}

module _ (a : LoopAnswers) (build : Build) where
  -- The database names no completed build of the derivation but this one.
  pub IsUnbuilt : Type 0
  IsUnbuilt =
      let found = a.completed_by_drv_path build.drv_path in
      (found ≡ failed)
      ⊎ (found ≡ answered none)
      ⊎ ((existing : Build) × (found ≡ answered (some existing)) × (existing.id ≡ build.id))

  dedup_passes :
      (interval_rebuild : Bool)
      → (dedup_stage a build interval_rebuild ≡ none) ↔ ((interval_rebuild ≡ true) ⊎ IsUnbuilt)
  unfolding dedup_stage IsUnbuilt
  dedup_passes interval_rebuild = ground arith

  -- An output that is known is not yet in the store.
  pub IsMissing : Option String → Type 0
  IsMissing output =
      (output ≡ none) ⊎ ((path : String) × (output ≡ some path) × (a.is_valid_path path ≡ false))

  fod_passes :
      (output : Option String)
      → (fod_stage a build output ≡ none) ↔ ((build.is_fod ≡ false) ⊎ IsMissing output)
  unfolding fod_stage IsMissing
  fod_passes output = ground arith

  failed_paths_passes :
      (failed_paths_cache interval_rebuild : Bool)
      → (failed_paths_stage a build failed_paths_cache interval_rebuild ≡ none) ↔ (
          (interval_rebuild ≡ true)
          ⊎ (failed_paths_cache ≡ false)
          ⊎ (a.is_cached_failure build.drv_path ≢ answered true))
  unfolding failed_paths_stage
  failed_paths_passes failed_paths_cache interval_rebuild = ground arith

  dependency_passes :
      (dependency_stage a build ≡ none) ↔ (a.all_deps_completed build.id ≡ answered true)
  unfolding dependency_stage
  dependency_passes = ground arith

module _ {F : Type 0} (cfg : LoopConfig F) (a : LoopAnswers) (build : Build) where
  -- The jobset of the build is known, and if it builds one at a time, nothing of it is running.
  pub IsFree : Type 0
  IsFree =
      (eval : Evaluation) × (jobset : Jobset) × (a.evaluation build.evaluation_id ≡ answered eval)
      × (a.jobset eval.jobset_id ≡ answered jobset)
      × ((jobset.state ≢ one_at_a_time) ⊎ (a.has_running_builds jobset.id ≡ answered false))

  one_at_a_time_passes : (one_at_a_time_stage cfg a build ≡ none) ↔ IsFree
  unfolding one_at_a_time_stage IsFree
  one_at_a_time_passes = ground arith

  -- Some venue can take the build: the runner's host, or, if the build names a system, an SSH builder
  -- or an agent for it. If the builders cannot be read, there is none.
  pub HasVenue : Type 0
  HasVenue =
      ((build.system ≡ none) × (supports cfg.runner_caps none (scheduling_features build) ≡ true))
      ⊎ ((system : String) × (builders : List RemoteBuilder) × (build.system ≡ some system)
          × (a.builders_for system ≡ answered builders)
          × ((has_builder cfg a build builders ≡ true)
              ⊎ (has_agent cfg a build system ≡ true)
              ⊎ (supports cfg.runner_caps (some system) (scheduling_features build) ≡ true)))

  unsupported_passes :
      (unsupported_stage cfg a build ≡ none) ↔ ((cfg.unsupported_timeout ≡ none) ⊎ HasVenue)
  unfolding unsupported_stage HasVenue wait_or_end
  unsupported_passes = ground arith

  -- A build that the loop gives to the worker pool: no aggregate; its derivation neither built, nor
  -- in the store, nor known to fail (none of which an interval rebuild asks for); its dependencies
  -- completed; a venue for it, where the loop looks for one; and its jobset free.
  pub IsReady : FodCache → Type 0
  IsReady cache =
      let interval_rebuild = is_interval_rebuild a build in
      (build.is_aggregate ≡ false)
      × ((interval_rebuild ≡ true) ⊎ IsUnbuilt a build)
      × ((build.is_fod ≡ false)
          ⊎ IsMissing a build (fod_output a build interval_rebuild cache).output)
      × ((interval_rebuild ≡ true)
          ⊎ (cfg.failed_paths_cache ≡ false)
          ⊎ (a.is_cached_failure build.drv_path ≢ answered true))
      × (a.all_deps_completed build.id ≡ answered true)
      × ((cfg.unsupported_timeout ≡ none) ⊎ HasVenue)
      × IsFree

  -- No stage that ends the body dispatches.
  ended :
      (interval_rebuild : Bool) (output : Option String)
      → (dedup_stage a build interval_rebuild ≢ some (dispatch build.id ∷ []))
        × (fod_stage a build output ≢ some (dispatch build.id ∷ []))
        × (failed_paths_stage a build cfg.failed_paths_cache interval_rebuild
            ≢ some (dispatch build.id ∷ []))
        × (dependency_stage a build ≢ some (dispatch build.id ∷ []))
        × (unsupported_stage cfg a build ≢ some (dispatch build.id ∷ []))
        × (one_at_a_time_stage cfg a build ≢ some (dispatch build.id ∷ []))
  unfolding dedup_stage fod_stage failed_paths_stage dependency_stage unsupported_stage
      one_at_a_time_stage wait_or_end mark_build_done
  ended interval_rebuild output = ground arith

  aggregate_ends : aggregate_stage a build ≢ dispatch build.id ∷ []
  unfolding aggregate_stage mark_build_done
  aggregate_ends = ground arith

  -- The loop gives a build to the worker pool, and does nothing else with it, exactly when the build
  -- is ready: it is no aggregate; it is an interval rebuild, or nothing is known that would end it at
  -- once (another completed build of its derivation, a valid fixed output, a cached failure); all its
  -- dependencies completed; a venue can take it, or no timeout is set for those that have none; and
  -- its jobset is known and free.
  pub dispatched_iff_IsReady :
      (cache : FodCache)
      → ((process_build cfg a build cache).effects ≡ dispatch build.id ∷ []) ↔ IsReady cache
  unfolding process_build IsReady
  dispatched_iff_IsReady cache =
      let interval_rebuild = is_interval_rebuild a build in
      let output = (fod_output a build interval_rebuild cache).output in
      ground (
        arith,
        aggregate_ends,
        ended interval_rebuild output,
        dedup_passes a build interval_rebuild,
        fod_passes a build output,
        failed_paths_passes a build cfg.failed_paths_cache interval_rebuild,
        dependency_passes a build,
        unsupported_passes,
        one_at_a_time_passes,
      )
