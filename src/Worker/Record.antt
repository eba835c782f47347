-- ===== src/Worker/Record.antt =====
-- crates/queue-runner/src/worker.rs, the second half of `run_build`: how the outcome of a build is recorded.
-- An error that the code only logs has no effect here; one that `?` passes on ends the run with that
-- result, and leaves the table as it is then.
use circus.Common.{
  ℕ, zero, suc, ◌-◌, ◌/◌, Bool, true, false, not, ◌&&◌, List, [], ◌∷◌, ◌++◌, Option, none, some,
  String, Result, ok, err, str_append, decimal, join, length, if◌then◌else◌, ltb, leb,
}
use circus.Common.Int.{ℤ, pos, negsuc}
use circus.Models.BuildStatus.{
  BuildStatus, failed, succeeded, is_finished, is_success, from_exit_code,
}
use circus.Models.Rows.{Build}
use circus.Builds.{Table, Updated, Completion, get, retry, complete, mark_signed}
use circus.Worker.{
  BuildResult, Effect, remove_live_log, rename_live_log, write_log, persist_narinfos, push_paths,
  save_duration, save_output_size, check_alert, cache_failed_path, notify_finished,
  promote_channels, RunError, database_failed, build_not_found, RunAnswers,
}
use circus.Worker.Outputs.{
  store_outputs, create_products, sign_outputs, signing_effects, push_to_cache,
}

pub record Ran : Type 0 where
  pub result : Result {0, 0} RunError Unit
  pub table : Table
  pub effects : List Effect

abbrev pub after : List Effect → Ran → Ran
after effects r = record r { effects = effects ++ r.effects }

abbrev pub ends : Table → List Effect → Ran
ends t effects = record { result = ok tt; table = t; effects = effects }

abbrev pub stops : RunError → Table → Ran
stops e t = record { result = err e; table = t; effects = [] }

-- `signed_duration_since(…).num_seconds()`, which drops the fraction.
abbrev seconds_between : ℕ → ℕ → ℤ
seconds_between from to =
    if leb from to
    then pos ((to - from) / 1000)
    else elim ((from - to) / 1000) [ zero ↦ pos 0 | suc n ↦ negsuc n ]

abbrev pub is_empty : {A : Type 0} → List A → Bool
is_empty [] = true
is_empty (x ∷ xs) = false

abbrev first_of : {A : Type 0} → List A → Option A
first_of [] = none
first_of (x ∷ xs) = some x

module _ (a : RunAnswers) (build : Build) where
  -- `repo::builds::get(…).await?`
  abbrev pub got : (Build → List Effect) → Table → Ran
  got use_row t =
      if a.get_answers
      then elim (get build.id t) [
        | none ↦ stops (build_not_found build.id) t
        | some row ↦ ends t (use_row row)
      ]
      else stops database_failed t

  abbrev pub finished_notice : List Effect
  finished_notice = if a.project_known_after then notify_finished build.id ∷ [] else []

  abbrev promotion : BuildStatus → List Effect
  promotion v =
      if is_success v && a.evaluation_known then promote_channels build.evaluation_id ∷ [] else []

  -- After the outcome is recorded, the row is read again.
  abbrev pub report_row : Build → List Effect
  report_row row = if is_finished row.status then finished_notice ++ promotion row.status else []

  unfoldable pub report : Table → Ran
  unfolding get is_finished is_success
  report = got report_row

  -- `repo::builds::complete(…).await?`
  abbrev pub completed_row : (Table → Ran) → Table → Updated → Ran
  completed_row next t done = elim done.returned [
    | none ↦ stops (build_not_found build.id) t
    | some row ↦ next done.table
  ]

  abbrev pub completed : Completion → (Table → Ran) → Table → Ran
  completed c next t =
      if a.complete_answers
      then completed_row next t (complete a.end_time build.id c t)
      else stops database_failed t

  abbrev final_log_path : Option String
  final_log_path = if a.log_storage then some (a.log_path_of build.id) else none

  abbrev pub log_effects : BuildResult → List Effect
  log_effects r =
      if a.log_storage
      then (if a.live_log_exists
          then rename_live_log build.id ∷ []
          else write_log build.id r.stdout r.stderr ∷ [])
      else []

  abbrev pub upload_failures : BuildResult → List String
  upload_failures r = elim a.store_uri [
    | none ↦ []
    | some uri ↦
        if a.upload_enabled && not r.cache_upload_handled
        then push_to_cache a.push_works a.upload_max_retries r.output_paths
        else []
  ]

  abbrev pub upload_effects : BuildResult → List Effect
  upload_effects r = elim a.store_uri [
    | none ↦ []
    | some uri ↦
        if a.upload_enabled && not r.cache_upload_handled
        then push_paths uri r.output_paths ∷ []
        else []
  ]

  abbrev upload_message : List String → String
  upload_message failures =
      str_append "Cache upload failed for "
        (str_append (decimal (length failures)) (str_append " path(s): " (join ", " failures)))

  abbrev pub duration_metric : Option ℕ → Option ℕ → List Effect
  duration_metric (some from) (some to) = save_duration build.id (seconds_between from to) ∷ []
  duration_metric _ _ = []

  abbrev pub size_metric : List String → List Effect
  size_metric [] = []
  size_metric (path ∷ paths) =
      let rest = size_metric paths in
      if a.size_saved path then save_output_size build.id ∷ [] else rest

  -- The times are those of the row that was dispatched.
  unfoldable pub collect_metrics_and_alert : List String → List Effect
  collect_metrics_and_alert paths =
      duration_metric build.started_at build.completed_at
      ++ (size_metric paths ++ (if a.alerts_enabled then check_alert build.id ∷ [] else []))

  unfoldable pub uploads_fail : BuildResult → Bool
  unfolding push_to_cache
  uploads_fail r = not (is_empty (upload_failures r)) && a.fail_build_on_upload_error

  unfoldable pub upload_completion : BuildResult → Completion
  unfolding push_to_cache decimal join
  upload_completion r = record {
    status = failed;
    log_path = final_log_path;
    build_output_path = none;
    error_message = some (upload_message (upload_failures r));
  }

  abbrev pub success_completion : BuildResult → Completion
  success_completion r = record {
    status = succeeded;
    log_path = final_log_path;
    build_output_path = first_of r.output_paths;
    error_message = none;
  }

  abbrev pub marked : BuildResult → Table → Table
  marked r t = if sign_outputs a r.output_paths && a.mark_answers then mark_signed build.id t else t

  unfoldable pub upload_report : Table → Ran
  unfolding get
  upload_report = got (λ row. finished_notice)

  unfoldable pub success_report : BuildResult → Table → Ran
  unfolding collect_metrics_and_alert report
  success_report r t = after (collect_metrics_and_alert r.output_paths) (report t)

  -- The end of a success, once its outputs are stored, signed and pushed.
  unfoldable pub conclude : BuildResult → Table → Ran
  unfolding complete collect_metrics_and_alert report push_to_cache
  conclude r t =
      if uploads_fail r
      then completed (upload_completion r) upload_report t
      else completed (success_completion r) (success_report r) t

  unfoldable pub record_success : BuildResult → Table → Ran
  unfolding mark_signed sign_outputs signing_effects store_outputs create_products conclude
  record_success r t =
      let products = create_products a build 0 r.output_paths in
      after (store_outputs build 0 r.output_paths ++ products.effects) (
        if products.answered
        then after
            (signing_effects a r.output_paths
              ++ (persist_narinfos build.id r.output_paths ∷ upload_effects r))
            (conclude r (marked r t))
        else stops database_failed t)

  unfoldable pub failure_status : BuildResult → BuildStatus
  unfolding from_exit_code
  failure_status r = elim r.exit_code [ none ↦ failed | some code ↦ from_exit_code code ]

  unfoldable pub failure_completion : BuildResult → Completion
  unfolding failure_status
  failure_completion r = record {
    status = failure_status r;
    log_path = final_log_path;
    build_output_path = none;
    error_message = some r.stderr;
  }

  unfoldable pub cached : BuildResult → List Effect
  unfolding failure_status
  cached r = cache_failed_path build.drv_path (failure_status r) build.id ∷ []

  unfoldable pub failure_report : BuildResult → Table → Ran
  unfolding failure_status report
  failure_report r t = after (cached r) (report t)

  unfoldable pub record_failure : BuildResult → Table → Ran
  unfolding complete retry failure_status report
  record_failure r t =
      if ltb build.retry_count build.max_retries
      then (if a.retry_answers
          then ends (retry build.id t).table (remove_live_log build.id ∷ [])
          else stops database_failed t)
      else completed (failure_completion r) (failure_report r) t

  abbrev pub error_completion : String → Completion
  error_completion e = record {
    status = failed;
    log_path = none;
    build_output_path = none;
    error_message = some e;
  }

  unfoldable pub record_error : String → Table → Ran
  unfolding complete report
  record_error e t =
      after
        ((if a.log_storage then write_log build.id "" e ∷ [] else [])
          ++ (remove_live_log build.id ∷ []))
        (completed (error_completion e) report t)
