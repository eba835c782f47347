-- ===== src/Tests/Sessions.antt =====
-- Tests of the permissions of a session, and of the reports of an agent.
use circus.Common.{
  ◌≢◌, false, List, length, All, ◌≤◌, ◌≡◌, ◌↔◌, refl, true, false, [], ◌∷◌, none, some, ok, err,
}
use circus.Types.GlobalRole
use circus.Server.Permissions.{
  Extensions, cancel_build, check, require, require_api, unauthorized, forbidden, session_role,
  from_extensions,
}
use circus.Server.Permissions.Policy.{IsPermitted, shown, permissions_exact}
use circus.Worker.Execute.{result_of_reply}
use circus.Worker.Record.{failure_status}
use circus.Rpc.LogSink.{complete}
use circus.Rpc.OutputSink
use circus.Rpc.OutputSink.{
  Call, write_call, close_call, exits, run, write, close, pipe, pipe_on, max_import_total_bytes,
}
use circus.Rpc.OutputSink.Import.{IsSmall, piped_bytes, imports_bounded}
use circus.Rpc.ResultSink.{
  Report, timed_out_there, success, kind_of, result_of_kind, result_error_message, new, report,
  reports, dispatch_one,
}
use circus.Rpc.ResultSink.First.{first_report_counts, status_of_outcome, reported_failure_status}
use circus.Tests.{kvm_build}
use circus.Tests.Runs.{replies, late}

-- A user whose API key could do more: the role of the user counts.
abbrev session : Extensions
session = record { user_role = some GlobalRole.read_only; api_key_role = some GlobalRole.admin }

permissions_exact_example :
    ((check session cancel_build ≡ true) ↔ IsPermitted session cancel_build)
    × ((require session cancel_build ≡ ok tt) ↔ IsPermitted session cancel_build)
    × ((require_api session cancel_build ≡ ok tt) ↔ IsPermitted session cancel_build)
    × ((require session cancel_build ≡ err unauthorized) ↔ (session_role session ≡ none))
    × ((require session cancel_build ≡ err forbidden)
        ↔ ((session_role session ≢ none) × (check session cancel_build ≡ false)))
    × (shown (from_extensions session) cancel_build ≡ check session cancel_build)
permissions_exact_example = permissions_exact session cancel_build

abbrev too_late : Report
too_late = record { outcome = some timed_out_there; message = none }

abbrev all_well : Report
all_well = record { outcome = some success; message = some "" }

first_report_counts_example :
    (dispatch_one true (too_late ∷ all_well ∷ []) ≡ result_of_kind (kind_of too_late))
    × (reports (too_late ∷ all_well ∷ []) new ≡ (report too_late new).sink)
    × ((report all_well (reports (too_late ∷ all_well ∷ []) new)).result
        ≡ err "build result already reported")
first_report_counts_example = first_report_counts too_late all_well (all_well ∷ [])

too_late-reported :
    result_of_reply false [] (dispatch_one true (too_late ∷ all_well ∷ [])) ≡ some late
unfolding result_of_reply dispatch_one reports report kind_of result_error_message
too_late-reported = refl

reported_failure_status_example :
    failure_status replies kvm_build late ≡ status_of_outcome too_late.outcome
reported_failure_status_example =
    reported_failure_status replies kvm_build false [] too_late (all_well ∷ []) late
      too_late-reported refl

-- Two chunks, the end of the input, and a chunk that comes too late.
abbrev stream : List Call
stream =
    write_call true complete (1 ∷ 2 ∷ [])
    ∷ write_call true complete (3 ∷ [])
    ∷ close_call (λ bytes. exits true)
    ∷ write_call true complete (4 ∷ [])
    ∷ []

stream_imports : (run stream OutputSink.new).imports ≡ (1 ∷ 2 ∷ 3 ∷ []) ∷ []
unfolding run write close pipe pipe_on
stream_imports = refl

imports_bounded_example :
    (length (run stream OutputSink.new).imports ≤ 1)
    × All IsSmall (run stream OutputSink.new).imports
    × (piped_bytes (run stream OutputSink.new).piped ≤ max_import_total_bytes)
imports_bounded_example = imports_bounded stream
