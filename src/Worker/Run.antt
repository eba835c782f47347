-- ===== src/Worker/Run.antt =====
-- crates/queue-runner/src/worker.rs, `run_build`: one run of a build, from its venue to the row that
-- records its outcome.
pub mod Verdict
pub mod Uploads
pub mod Refines
pub mod Effects
pub mod Keeps
pub mod Notices
pub mod Statuses
use circus.Common.{
  ℕ, zero, suc, ◌-◌, ◌/◌, Bool, true, false, not, ◌&&◌, List, [], ◌∷◌, ◌++◌, Option, none, some,
  String, Result, ok, err, str_append, decimal, join, length, if◌then◌else◌, ltb, leb,
}
use circus.Common.Int.{ℤ, pos, negsuc}
use circus.Common.Float.{Float32}
use circus.Models.BuildStatus.{
  BuildStatus, failed, succeeded, is_finished, is_success, from_exit_code,
}
use circus.Models.Rows.{Build}
use circus.Dispatch.Venue.{VenueContext, ExecutionReservation}
use circus.Builds.{
  Table, Updated, Completion, get, start, mark_started_notified, requeue, retry, complete,
  mark_signed,
}
use circus.Worker.{
  BuildResult, Effect, notify_started, remove_live_log, rename_live_log, write_log,
  persist_narinfos, push_paths, save_duration, save_output_size, check_alert, cache_failed_path,
  notify_finished, promote_channels, RunError, database_failed, build_not_found, RunAnswers,
}
use circus.Worker.Execute.{Outcome, ran, no_venue, broke, execute}
use circus.Worker.Outputs.{
  store_outputs, create_products, sign_outputs, signing_effects, push_to_cache,
}
use circus.Worker.Record.{
  Ran, after, ends, stops, report_row, report, completed_row, completed, log_effects,
  upload_failures, upload_effects, duration_metric, size_metric, collect_metrics_and_alert,
  uploads_fail, upload_completion, success_completion, upload_report, success_report, conclude,
  record_success, failure_status, failure_completion, cached, failure_report, record_failure,
  error_completion, record_error,
}

module _ (a : RunAnswers) (build : Build) where
  -- A build that no venue took goes back to the queue, if it is still running.
  unfoldable pub hand_back : Table → Ran
  unfolding requeue
  hand_back t =
      let back = requeue build.id t in
      if a.requeue_answers
      then elim back.returned [
        | some row ↦ ends back.table (remove_live_log build.id ∷ [])
        | none ↦ ends back.table []
      ]
      else ends t []

  unfoldable pub settle : Outcome → Table → Ran
  unfolding record_success record_failure record_error hand_back
  settle (ran r) t =
      after (log_effects a build r)
        (if r.success then record_success a build r t else record_failure a build r t)
  settle no_venue t = hand_back t
  settle (broke e) t = record_error a build e t

  -- The notice of the start, at most once; without a project the marker stays untouched.
  abbrev pub announced_table : Table → Table
  announced_table t =
      if a.project_known && a.notify_answers then (mark_started_notified build.id t).table else t

  abbrev pub announcement : Table → List Effect
  announcement t =
      if a.project_known && a.notify_answers
      then elim ((mark_started_notified build.id t).returned) [
        | some row ↦ notify_started build.id ∷ []
        | none ↦ []
      ]
      else []

  -- The run of a build that `start` has claimed in the table.
  unfoldable pub run_claimed :
      {D : Type 0} → VenueContext D → (fl : Float32) → ExecutionReservation fl → Table → Ran
  unfolding mark_started_notified execute settle
  run_claimed ctx fl venue t =
      let executed = execute ctx a build fl venue in
      after (announcement t ++ executed.effects)
        (settle executed.outcome (a.meanwhile (announced_table t)))

  -- `start` reads the table as it is; what comes of older snapshots is in Builds/Starts.
  unfoldable pub run_build :
      {D : Type 0}
      → VenueContext D
      → (fl : Float32) → Option (ExecutionReservation fl)
      → Table
      → Ran
  unfolding start run_claimed
  run_build ctx fl none t = ends t []
  run_build ctx fl (some venue) t =
      let started = start a.start_time a.lock_free a.row_unlocked t build.id t in
      if a.start_answers
      then elim started.returned [
        | none ↦ ends started.table []
        | some claimed ↦ run_claimed ctx fl venue started.table
      ]
      else stops database_failed t
