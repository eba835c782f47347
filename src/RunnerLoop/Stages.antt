-- ===== src/RunnerLoop/Stages.antt =====
-- crates/queue-runner/src/runner_loop.rs: the stages of the loop's body. A stage that ends in
-- `continue` returns its effects; `none` passes the build on to the next stage.
use circus.Common.{
  Bool, true, false, not, ◌&&◌, List, [], ◌∷◌, Option, none, some, String, ◌==◌, if◌then◌else◌,
}
use circus.Models.BuildStatus.{BuildStatus, succeeded, cached_failure}
use circus.Models.EvaluationTriggerKind.{EvaluationTriggerKind, interval}
use circus.Models.Rows.{Build}
use circus.Rpc.Agent.{Uuid}
use circus.Dispatch.Select.{Answer, answered, failed}
use circus.RunnerLoop.{
  Effect, start, complete, notify_finished, publish, LoopAnswers, is_true, FodCache, lookup,
}

abbrev is_interval : EvaluationTriggerKind → Bool
is_interval interval = true
is_interval _ = false

-- helpers.rs: a build whose evaluation cannot be read counts as no interval rebuild.
unfoldable pub is_interval_rebuild : LoopAnswers → Build → Bool
is_interval_rebuild a build = elim (a.trigger_evaluation build.evaluation_id) [
  | answered eval ↦ is_interval eval.trigger_kind
  | failed ↦ false
]

-- `mark_build_done`: the effects, to which a caller adds what it does on success.
unfoldable pub mark_build_done :
    LoopAnswers
    → Uuid
    → BuildStatus
    → Option String
    → Option String
    → Option String
    → List Effect
    → List Effect
mark_build_done a id status log output message on_success =
    start id ∷ complete id status log output message ∷ (if a.completes id then on_success else [])

module _ (a : LoopAnswers) (build : Build) where
  -- Every arm of an aggregate build's `match` continues.
  unfoldable pub aggregate_stage : List Effect
  aggregate_stage = elim (a.all_deps_completed build.id) [
    | answered done ↦
        if done
        then mark_build_done a build.id succeeded none none none
            (if a.notifiable build.id then notify_finished build.id ∷ [] else [])
        else []
    | failed ↦ []
  ]

  abbrev reuse : Option Build → Option (List Effect)
  reuse none = none
  reuse (some existing) =
      if existing.id == build.id
      then none
      else some (
          mark_build_done a build.id succeeded existing.log_path existing.build_output_path none
            (publish build.id (a.output_paths existing) ∷ []))

  abbrev reuse_answer : Answer (Option Build) → Option (List Effect)
  reuse_answer (answered found) = reuse found
  reuse_answer failed = none

  -- The result of another build of the same derivation is reused.
  unfoldable pub dedup_stage : Bool → Option (List Effect)
  dedup_stage interval_rebuild =
      if interval_rebuild then none else reuse_answer (a.completed_by_drv_path build.drv_path)

  pub record Queried : Type 0 where
    pub output : Option String
    pub cache : FodCache

  -- The expected output of a fixed-output derivation, queried once for each derivation of a cycle.
  unfoldable pub fod_output : Bool → FodCache → Queried
  fod_output interval_rebuild cache =
      if build.is_fod && not interval_rebuild
      then elim (lookup cache build.drv_path) [
        | some cached ↦ record { output = cached; cache = cache }
        | none ↦
            let v = a.query_drv_output build.drv_path in
            record { output = v; cache = (build.drv_path, v) ∷ cache }
      ]
      else record { output = none; cache = cache }

  -- A fixed output that is already valid in the store is not built again.
  unfoldable pub fod_stage : Option String → Option (List Effect)
  fod_stage none = none
  fod_stage (some output) =
      if build.is_fod && a.is_valid_path output
      then some (
          mark_build_done a build.id succeeded none (some output) none
            (publish build.id (output ∷ []) ∷ []))
      else none

  unfoldable pub failed_paths_stage : Bool → Bool → Option (List Effect)
  failed_paths_stage failed_paths_cache interval_rebuild =
      if not interval_rebuild && failed_paths_cache && is_true (a.is_cached_failure build.drv_path)
      then some (
          mark_build_done a build.id cached_failure none none
            (some "Build skipped: derivation is in failed paths cache") [])
      else none

  -- `Ok(false)` and `Err` both leave the build pending.
  unfoldable pub dependency_stage : Option (List Effect)
  dependency_stage = if is_true (a.all_deps_completed build.id) then none else some []
