-- ===== src/RunnerLoop.antt =====
-- crates/queue-runner/src/runner_loop.rs: what the main loop does with each pending build of a cycle.
-- The answers of the database and of the nix commands are arguments (`LoopAnswers`); what the loop
-- does is the list of its effects, in order.
pub mod Stages
pub mod Body
pub mod Ready
pub mod Outcomes
pub mod OutputCache
pub mod Cycle
use circus.Common.{
  ℕ, ◌+◌, Bool, true, false, not, ◌&&◌, ◌||◌, List, [], ◌∷◌, ◌++◌, Option, none, some, String,
  str_eq, ◌==◌, ltb, if◌then◌else◌,
}
use circus.Models.BuildStatus.{BuildStatus}
use circus.Models.EvaluationTriggerKind.{EvaluationTriggerKind, source_change, manual, interval}
use circus.Models.Rows.{Build, Evaluation, Jobset}
use circus.Rpc.Agent.{Uuid}
use circus.Dispatch.Caps.{RemoteBuilder}
use circus.Dispatch.Select.{Answer, answered, failed}

pub data Effect : Type 0 where
  -- `repo::builds::start`, whose failure is only logged.
  start : Uuid → Effect
  -- `repo::builds::complete`: status, log path, output path, message.
  complete : Uuid → BuildStatus → Option String → Option String → Option String → Effect
  -- `circus_notification::dispatch_build_finished`.
  notify_finished : Uuid → Effect
  -- `spawn_succeeded_output_closure_publication`.
  publish : Uuid → List String → Effect
  -- `worker_pool.dispatch`.
  dispatch : Uuid → Effect

pub record LoopAnswers : Type 0 where
  -- The read of `is_interval_rebuild`, and the later one for the one-at-a-time check.
  pub trigger_evaluation : Uuid → Answer Evaluation
  pub evaluation : Uuid → Answer Evaluation
  pub jobset : Uuid → Answer Jobset
  pub has_running_builds : Uuid → Answer Bool
  pub all_deps_completed : Uuid → Answer Bool
  pub completed_by_drv_path : String → Answer (Option Build)
  pub is_cached_failure : String → Answer Bool
  pub builders_for : String → Answer (List RemoteBuilder)
  -- Whether `complete` succeeds.
  pub completes : Uuid → Bool
  -- Whether the completed build, its evaluation, jobset and project can be read back.
  pub notifiable : Uuid → Bool
  -- `completed_build_output_paths`.
  pub output_paths : Build → List String
  -- `nix-store --query --outputs`, and `nix-store --check-validity`.
  pub query_drv_output : String → Option String
  pub is_valid_path : String → Bool
  pub now : ℕ

-- `matches!(…, Ok(true))`.
abbrev pub is_true : Answer Bool → Bool
is_true (answered b) = b
is_true failed = false

-- The map of a cycle from derivations to their queried outputs.
abbrev pub FodCache : Type 0
FodCache = List (String × Option String)

unfoldable pub lookup : FodCache → String → Option (Option String)
lookup [] k = none
lookup ((j, v) ∷ cache) k = if str_eq j k then some v else lookup cache k

-- A stage's `continue`, or the stages after it.
infixr 20 ◌or_else◌
abbrev pub ◌or_else◌ : Option (List Effect) → List Effect → List Effect
none or_else rest = rest
some effects or_else rest = effects
