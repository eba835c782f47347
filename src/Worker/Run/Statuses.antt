-- ===== src/Worker/Run/Statuses.antt =====
-- crates/queue-runner/src/dispatch.rs and worker.rs: the status that the answer of an agent leads to, and
-- the metrics of a build that has just succeeded.
use circus.Common.{
  In-append_iff, ◌≡◌, Bool, false, List, [], ◌∷◌, ◌++◌, some, String, arith, In, if◌then◌else◌,
}
use circus.Common.Int.{ℤ}
use circus.Models.BuildStatus.{BuildStatus, pending, failed, oom_killed, from_exit_code}
use circus.Models.Rows.{Build}
use circus.Rpc.Agent.{Uuid}
use circus.Builds.Valid.{IsTimed, pending_times}
use circus.Worker.{
  BuildResult, DispatchResult, succeeded_with, failed_with, timed_out, was_aborted, oom_killed_with,
  disconnected, save_duration, check_alert, RunAnswers,
}
use circus.Worker.Execute.{result_of_reply}
use circus.Worker.Record.{failure_status, collect_metrics_and_alert, size_metric}

-- The statuses that the agent's answers end a build with.
abbrev pub status_of_reply : DispatchResult → BuildStatus
status_of_reply (oom_killed_with message) = oom_killed
status_of_reply _ = failed

-- A build that fails on an agent ends as killed for want of memory if the agent says so, and as failed
-- in every other case: an agent's timeout and an agent's abort are not told apart from a failure.
pub agent_failure_status :
    (a : RunAnswers) (build : Build) (upload : Bool) (outputs : List String)
    (reply : DispatchResult) (r : BuildResult)
    → result_of_reply upload outputs reply ≡ some r
    → r.success ≡ false
    → failure_status a build r ≡ status_of_reply reply
unfolding result_of_reply failure_status from_exit_code
agent_failure_status a build upload outputs (succeeded_with m) r e n = ground arith
agent_failure_status a build upload outputs (failed_with m) r e n = ground arith
agent_failure_status a build upload outputs timed_out r e n = ground arith
agent_failure_status a build upload outputs was_aborted r e n = ground arith
agent_failure_status a build upload outputs (oom_killed_with m) r e n = ground arith
agent_failure_status a build upload outputs disconnected r e n = ground arith

no_size_duration :
    (a : RunAnswers) (build : Build) (paths : List String) (id : Uuid) (seconds : ℤ)
    → ¬ In (save_duration id seconds) (size_metric a build paths)
no_size_duration a build [] id seconds h = h
no_size_duration a build (path ∷ paths) id seconds h =
    ground (arith, no_size_duration a build paths id seconds)

no_alert_duration :
    (b : Bool) (i id : Uuid) (seconds : ℤ)
    → ¬ In (save_duration id seconds) (if b then check_alert i ∷ [] else [])
no_alert_duration b i id seconds h = ground arith

-- No duration is saved for a build that was dispatched as a pending row whose times agree with its
-- status: the times read are those of that row, which has neither.
collect_metrics-no_duration :
    (a : RunAnswers) (build : Build) (paths : List String) (id : Uuid) (seconds : ℤ)
    → IsTimed build
    → build.status ≡ pending
    → ¬ In (save_duration id seconds) (collect_metrics_and_alert a build paths)
unfolding collect_metrics_and_alert
collect_metrics-no_duration a build paths id seconds timed e h =
    let none_yet = pending_times build timed e in
    let no_alert = no_alert_duration a.alerts_enabled build.id id seconds in
    let rest : In (save_duration id seconds) (
        size_metric a build paths ++ (if a.alerts_enabled then check_alert build.id ∷ [] else [])) =
      ground (arith, none_yet, h) in
    ground (
      arith,
      (In-append_iff (save_duration id seconds) (size_metric a build paths) _).0 rest,
      no_size_duration a build paths id seconds,
      no_alert,
    )
