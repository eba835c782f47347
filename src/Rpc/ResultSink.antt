-- ===== src/Rpc/ResultSink.antt =====
-- crates/queue-runner/src/rpc/result_sink.rs and server.rs, `dispatch_one`: how the report of an agent
-- becomes the result of a dispatch. The lock on `done` makes each report one step.
pub mod First
use circus.Common.{
  Bool, true, false, List, [], ◌∷◌, ◌++◌, Option, none, some, String, str_eq, Result, ok, err,
  if◌then◌else◌,
}
use circus.Worker.{
  DispatchResult, succeeded_with, failed_with, timed_out, was_aborted, oom_killed_with,
  disconnected,
}

-- `circus_proto::BuildOutcome`.
pub data BuildOutcome : Type 0 where
  success build_failure preparing_failure import_failure upload_failure post_process_failure :
      BuildOutcome
  aborted timed_out_there oom_killed_there : BuildOutcome

pub data BuildOutcomeKind : Type 0 where
  succeeds : Option String → BuildOutcomeKind
  fails : Option String → BuildOutcomeKind
  times_out : BuildOutcomeKind
  aborts : BuildOutcomeKind
  runs_out_of_memory : Option String → BuildOutcomeKind

-- What the message carries: an outcome, if the reader knows it, and a message, if it is a text.
pub record Report : Type 0 where
  pub outcome : Option BuildOutcome
  pub message : Option String

unfoldable pub result_error_message : Report → Option String
result_error_message r = elim r.message [
  | none ↦ none
  | some s ↦ if str_eq s "" then none else some s
]

abbrev known_kind : Report → BuildOutcome → BuildOutcomeKind
unfolding result_error_message
known_kind r success = succeeds (result_error_message r)
known_kind r timed_out_there = times_out
known_kind r aborted = aborts
known_kind r oom_killed_there = runs_out_of_memory (result_error_message r)
known_kind r _ = fails (result_error_message r)

abbrev or_failure : Option BuildOutcome → BuildOutcome
or_failure none = build_failure
or_failure (some outcome) = outcome

unfoldable pub kind_of : Report → BuildOutcomeKind
unfolding known_kind
kind_of r = known_kind r (or_failure r.outcome)

-- `done` with its sender or without, what was sent, and the outcomes recorded for the agent.
pub record Sink : Type 0 where
  pub waiting : Bool
  pub sent : Option BuildOutcomeKind
  pub recorded : List Bool

abbrev pub new : Sink
new = record { waiting = true; sent = none; recorded = [] }

abbrev succeeded_kind : BuildOutcomeKind → Bool
succeeded_kind (succeeds m) = true
succeeded_kind _ = false

pub record Replied : Type 0 where
  pub result : Result {0, 0} String Unit
  pub sink : Sink

unfoldable pub report : Report → Sink → Replied
unfolding kind_of
report r s =
    if s.waiting
    then record {
      result = ok tt;
      sink = record {
        waiting = false;
        sent = some (kind_of r);
        recorded = s.recorded ++ (succeeded_kind (kind_of r) ∷ []);
      };
    }
    else record { result = err "build result already reported"; sink = s }

unfoldable pub reports : List Report → Sink → Sink
reports [] s = s
reports (r ∷ rs) s = reports rs (report r s).sink

abbrev or_default : Option String → String
or_default none = ""
or_default (some s) = s

abbrev pub result_of_kind : BuildOutcomeKind → DispatchResult
result_of_kind (succeeds message) = succeeded_with message
result_of_kind (fails message) = failed_with (or_default message)
result_of_kind times_out = timed_out
result_of_kind aborts = was_aborted
result_of_kind (runs_out_of_memory message) = oom_killed_with (or_default message)

-- Whether the agent takes the assignment, and the reports that it makes before its sink is dropped.
unfoldable pub dispatch_one : Bool → List Report → DispatchResult
unfolding reports
dispatch_one assigned calls =
    if assigned
    then elim (reports calls new).sent [ none ↦ disconnected | some kind ↦ result_of_kind kind ]
    else disconnected
