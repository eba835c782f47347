-- ===== src/Rpc/ResultSink/First.antt =====
-- crates/queue-runner/src/rpc/result_sink.rs: the first report of an agent counts.
use circus.Common.{
  Bool, subst, ◌∙◌, ◌≡◌, refl, true, false, List, [], ◌∷◌, Option, some, String, arith, err,
}
use circus.Models.BuildStatus.{BuildStatus, failed, oom_killed}
use circus.Models.Rows.{Build}
use circus.Worker.{BuildResult, RunAnswers}
use circus.Worker.Execute.{result_of_reply}
use circus.Worker.Record.{failure_status}
use circus.Worker.Run.Statuses.{status_of_reply, agent_failure_status}
use circus.Rpc.ResultSink.{
  Report, BuildOutcome, oom_killed_there, result_error_message, kind_of, result_of_kind, Sink, new,
  report, reports, dispatch_one,
}

silent : (calls : List Report) (s : Sink) → s.waiting ≡ false → reports calls s ≡ s
unfolding reports report
silent [] s h = refl
silent (r ∷ rs) s h = ground (arith, h, silent rs s h)

-- What an agent reports first is the result of the dispatch, and whatever it reports later is refused
-- and changes neither the result nor the record of the agent.
pub first_report_counts :
    (r later : Report) (calls : List Report)
    → (dispatch_one true (r ∷ calls) ≡ result_of_kind (kind_of r))
      × (reports (r ∷ calls) new ≡ (report r new).sink)
      × ((report later (reports (r ∷ calls) new)).result ≡ err "build result already reported")
unfolding dispatch_one reports report
first_report_counts r later calls =
    let quiet = silent calls (report r new).sink refl in ground (arith, quiet)

-- The status that the outcome an agent reports ends a failed build with.
abbrev pub status_of_outcome : Option BuildOutcome → BuildStatus
status_of_outcome (some oom_killed_there) = oom_killed
status_of_outcome _ = failed

status_of_kind :
    (r : Report) → status_of_reply (result_of_kind (kind_of r)) ≡ status_of_outcome r.outcome
unfolding kind_of result_error_message
status_of_kind r = ground arith

-- A build that fails on an agent ends as killed for want of memory if that is the outcome which the agent
-- reported first, and as failed in every other case: a reported timeout or abort is not told apart
-- from a failure.
pub reported_failure_status :
    (a : RunAnswers) (build : Build) (upload : Bool) (outputs : List String) (r : Report)
    (calls : List Report) (result : BuildResult)
    → result_of_reply upload outputs (dispatch_one true (r ∷ calls)) ≡ some result
    → result.success ≡ false
    → failure_status a build result ≡ status_of_outcome r.outcome
reported_failure_status a build upload outputs r calls result e n =
    let first = (first_report_counts r r calls).0 in
    agent_failure_status a build upload outputs (result_of_kind (kind_of r)) result
      (subst (λ d. result_of_reply upload outputs d ≡ some result) first e) n
    ∙ status_of_kind r
