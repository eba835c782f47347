-- ===== src/Worker/Run/Verdict.antt =====
-- crates/queue-runner/src/worker.rs: what a run of a build amounts to for its row.
use circus.Common.{
  ℕ, zero, suc, Bool, not, ◌&&◌, any, ◌≡◌, ◌⊎◌, some, Result, ok, err, ltb, if◌then◌else◌,
}
use circus.Models.BuildStatus.{BuildStatus, pending, failed, succeeded}
use circus.Models.Rows.{Build}
use circus.Dispatch.Venue.{is_none}
use circus.Builds.{get, is_running}
use circus.Worker.{BuildResult, RunError, database_failed, RunAnswers}
use circus.Worker.Execute.{Outcome, ran, no_venue, broke}
use circus.Worker.Record.{Ran, failure_status}

-- The row as its life cycle sees it.
pub record View : Type 0 where
  pub status : BuildStatus
  pub retries : ℕ

abbrev pub view : Build → View
view row = record { status = row.status; retries = row.retry_count }

-- Left as it is, back to the queue if it still runs, to be tried again, or ended.
pub data Verdict : Type 0 where
  left : Verdict
  back : Verdict
  again : Verdict
  ended : BuildStatus → Verdict

abbrev pub judge : Verdict → View → View
judge left v = v
judge back v = record v { status = if is_running v.status then pending else v.status }
judge again v = record { status = pending; retries = suc v.retries }
judge (ended s) v = record v { status = s }

-- The attempts from 0 to a last one all fail.
abbrev pub attempts_fail : (ℕ → Bool) → ℕ → Bool
attempts_fail works zero = not (works 0)
attempts_fail works (suc n) = not (works (suc n)) && attempts_fail works n

module _ (a : RunAnswers) (build : Build) where
  -- Uploads are asked for and are this run's to do, an upload that fails must fail the build, and some
  -- output cannot be uploaded.
  abbrev pub upload_lost : BuildResult → Bool
  upload_lost r =
      a.fail_build_on_upload_error
      && a.upload_enabled
      && not (is_none a.store_uri)
      && not r.cache_upload_handled
      && any (λ path. attempts_fail (a.push_works path) a.upload_max_retries) r.output_paths

  abbrev pub failure_verdict : BuildResult → Verdict
  failure_verdict r =
      if ltb build.retry_count build.max_retries then again else ended (failure_status a build r)

  abbrev pub success_verdict : BuildResult → Verdict
  success_verdict r = if upload_lost r then ended failed else ended succeeded

  abbrev pub verdict : Outcome → Verdict
  verdict (ran r) = if r.success then success_verdict r else failure_verdict r
  verdict no_venue = if a.requeue_answers then back else left
  verdict (broke e) = ended failed

  -- The row as a run leaves it: as the verdict says if the run returns `Ok`; as the verdict says or as it
  -- was, after a database failure, if the run returns an error.
  abbrev pub LandsAs : Verdict → Build → Build → Result {0, 0} RunError Unit → Type 0
  LandsAs v row row' (ok u) = view row' ≡ judge v (view row)
  LandsAs v row row' (err e) =
      (e ≡ database_failed) × ((view row' ≡ view row) ⊎ (view row' ≡ judge v (view row)))

  pub record Lands (v : Verdict) (row : Build) (r : Ran) : Type 0 where
    pub row_after : Build
    pub found : get build.id r.table ≡ some row_after
    pub lands : LandsAs v row row_after r.result
