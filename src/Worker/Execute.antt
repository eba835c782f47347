-- ===== src/Worker/Execute.antt =====
-- crates/queue-runner/src/worker.rs, `try_remote_build` and `run_on_runner`, and dispatch.rs,
-- `run_on_agent`: where a claimed build is executed, and with what result.
pub mod Builders
use circus.Common.{
  Bool, true, false, not, ◌&&◌, ◌||◌, List, [], ◌∷◌, ◌++◌, Option, none, some, String, Result, ok,
  err, if◌then◌else◌,
}
use circus.Common.Int.{ℤ, pos, negsuc}
use circus.Common.Float.{Float32}
use circus.Models.Rows.{Build, scheduling_features}
use circus.Rpc.Agent.{AgentSnapshot}
use circus.Dispatch.Caps.{RemoteBuilder, supports, supports_required_features}
use circus.Dispatch.Select.{Answer, answered, failed}
use circus.Dispatch.Venue.{
  VenueContext, under_pressure, is_none, ExecutionReservation, agent, runner,
}
use circus.Worker.{
  BuildResult, DispatchResult, succeeded_with, failed_with, timed_out, was_aborted, oom_killed_with,
  disconnected, Effect, touch_session, set_agent, set_builder, record_success, record_failure,
  RunAnswers,
}

-- The closure `result` of `run_on_agent`.
abbrev agent_result : Bool → Bool → ℤ → String → List String → BuildResult
agent_result upload success code stderr outputs = record {
  success = success;
  exit_code = some code;
  stdout = "";
  stderr = stderr;
  output_paths = outputs;
  cache_upload_handled = upload;
}

abbrev or_empty : Option String → String
or_empty none = ""
or_empty (some s) = s

unfoldable pub result_of_reply : Bool → List String → DispatchResult → Option BuildResult
result_of_reply upload outputs (succeeded_with message) =
    some (agent_result upload true (pos 0) (or_empty message) outputs)
result_of_reply upload outputs (failed_with message) =
    some (agent_result upload false (pos 1) message [])
result_of_reply upload outputs timed_out =
    some (agent_result upload false (pos 124) "build timed out" [])
result_of_reply upload outputs was_aborted =
    some (agent_result upload false (pos 130) "build aborted" [])
result_of_reply upload outputs (oom_killed_with message) =
    some (agent_result upload false (negsuc 8) message [])
result_of_reply upload outputs disconnected = none

pub record Executed (A : Type 0) : Type 0 where
  pub outcome : A
  pub effects : List Effect

-- A command that the agent's task drops without an answer counts as a disconnection.
abbrev reply_result : RunAnswers → Option BuildResult
reply_result a = elim a.agent_reply [
  | none ↦ none
  | some reply ↦ result_of_reply a.presigned_upload a.drv_outputs reply
]

unfoldable pub run_on_agent :
    {F : Type 0} → RunAnswers → AgentSnapshot F → Build → Executed (Option BuildResult)
unfolding result_of_reply
run_on_agent a snap build =
    if a.agent_takes
    then record {
      outcome = reply_result a;
      effects = touch_session snap.machine_id ∷ set_agent build.id snap.machine_id ∷ [];
    }
    else record { outcome = none; effects = [] }

-- What became of a venue: the build ran, no venue could take it, or the run itself failed.
pub data Outcome : Type 0 where
  ran : BuildResult → Outcome
  no_venue : Outcome
  broke : String → Outcome

module _ {D : Type 0} (ctx : VenueContext D) (a : RunAnswers) (build : Build) where
  -- The three `continue`s of the loop over the builders.
  unfoldable pub is_skipped : RemoteBuilder → Bool
  is_skipped b =
      (ctx.require_host_key && is_none b.public_host_key)
      || not (
          supports_required_features (scheduling_features build) b.supported_features
            b.mandatory_features)
      || under_pressure ctx b

  abbrev tried :
      RemoteBuilder
      → Result String BuildResult
      → Executed (Option BuildResult)
      → Executed (Option BuildResult)
  tried b (ok r) rest = record {
    outcome = some r;
    effects = set_builder build.id b.id ∷ record_success b.id ∷ [];
  }
  tried b (err e) rest = record {
    outcome = rest.outcome;
    effects = set_builder build.id b.id ∷ record_failure b.id ∷ rest.effects;
  }

  unfoldable pub try_builders : List RemoteBuilder → Executed (Option BuildResult)
  unfolding is_skipped
  try_builders [] = record { outcome = none; effects = [] }
  try_builders (b ∷ builders) =
      let rest = try_builders builders in
      if is_skipped b then rest else tried b (a.remote_run b) rest

  abbrev try_answered : Answer (List RemoteBuilder) → Executed (Option BuildResult)
  try_answered (answered builders) = try_builders builders
  try_answered failed = record { outcome = none; effects = [] }

  -- Without a system there is no builder to ask for.
  unfoldable pub try_remote_build : Executed (Option BuildResult)
  unfolding try_builders
  try_remote_build = elim build.system [
    | none ↦ record { outcome = none; effects = [] }
    | some system ↦ try_answered (ctx.builders_for system)
  ]

  abbrev local_outcome : Result String BuildResult → Outcome
  local_outcome (ok r) = ran r
  local_outcome (err e) = broke e

  unfoldable pub run_on_runner : Executed Outcome
  unfolding try_remote_build
  run_on_runner = elim try_remote_build.outcome [
    | some r ↦ record { outcome = ran r; effects = try_remote_build.effects }
    | none ↦ record {
      outcome =
          if supports ctx.runner_caps build.system (scheduling_features build)
          then local_outcome a.local_run
          else no_venue;
      effects = try_remote_build.effects;
    }
  ]

  -- After an agent that gave no result, the runner is tried if a worker's permit is free.
  unfoldable pub execute : (fl : Float32) → ExecutionReservation fl → Executed Outcome
  unfolding run_on_agent run_on_runner
  execute fl (agent reserved) =
      let first = run_on_agent a reserved.chosen.1 build in
      elim first.outcome [
        | some r ↦ record { outcome = ran r; effects = first.effects }
        | none ↦
            if a.permit_free
            then record {
              outcome = run_on_runner.outcome;
              effects = first.effects ++ run_on_runner.effects;
            }
            else record { outcome = no_venue; effects = first.effects }
      ]
  execute fl runner = run_on_runner
