-- ===== src/Worker/Run/Refines.antt =====
-- crates/queue-runner/src/worker.rs: the rows that a run leaves refine its verdict.
use circus.Common.{
  List, [], ◌∷◌, ◌&&◌, subst, sym, ◌≡◌, refl, inl, inr, Bool, true, false, some, String, arith, ltb,
  if◌then◌else◌, Bool-cases,
}
use circus.Models.BuildStatus.{BuildStatus, failed, succeeded}
use circus.Models.Rows.{Build}
use circus.Builds.{
  Table, Completion, get, is_running, complete, retry, set_completed, set_signed, set_requeued,
  set_retried,
}
use circus.Builds.Rows.{get-mark_signed, get-retry, get-complete, complete-returned, get-requeue}
use circus.Worker.{BuildResult, Effect, remove_live_log, database_failed, RunAnswers}
use circus.Worker.Execute.{Outcome, ran, no_venue, broke}
use circus.Worker.Outputs.{sign_outputs, create_products}
use circus.Worker.Record.{
  finished_notice, got, marked, Ran, cached, upload_report, success_report, failure_report,
  conclude, completed_row, stops, ends, after, error_completion, failure_completion,
  success_completion, upload_completion, report, completed, uploads_fail, record_success,
  failure_status, record_failure, record_error,
}
use circus.Worker.Run.Uploads.{uploads_fail-upload_lost}
use circus.Worker.Run.{hand_back, settle}
use circus.Worker.Run.Verdict.{
  view, Verdict, again, ended, judge, failure_verdict, success_verdict, verdict, Lands,
}

module _ (a : RunAnswers) (build : Build) where
  after-Lands :
      (v : Verdict) (row : Build) (effects : List Effect) (r : Ran)
      → Lands a build v row r
      → Lands a build v row (after effects r)
  after-Lands v row effects r h = record {
    row_after = h.row_after;
    found = h.found;
    lands = h.lands;
  }

  if-Lands :
      {v v' : Verdict} {r r' : Ran} (row : Build) (b : Bool)
      → Lands a build v row r
      → Lands a build v' row r'
      → Lands a build (if b then v else v') row (if b then r else r')
  if-Lands row true h h' = h
  if-Lands row false h h' = h'

  both-Lands :
      {v : Verdict} {r r' : Ran} (row : Build) (b : Bool)
      → Lands a build v row r
      → Lands a build v row r'
      → Lands a build v row (if b then r else r')
  both-Lands row true h h' = h
  both-Lands row false h h' = h'

  got-Lands :
      (v : Verdict) (row row' : Build) (f : Build → List Effect) (t : Table)
      → get build.id t ≡ some row'
      → view row' ≡ judge v (view row)
      → Lands a build v row (got a build f t)
  got-Lands v row row' f t g h = elim (Bool-cases a.get_answers) [
    | inl y ↦ record {
      row_after = row';
      found = ground (arith, y, g);
      lands = ground (arith, y, g, h);
    }
    | inr n ↦ record {
      row_after = row';
      found = ground (arith, n, g);
      lands = ground (arith, n, g, h);
    }
  ]

  stops-Lands :
      (v : Verdict) (row row' : Build) (t : Table)
      → get build.id t ≡ some row'
      → view row' ≡ view row
      → Lands a build v row (stops database_failed t)
  stops-Lands v row row' t g h = record { row_after = row'; found = g; lands = (refl, inl h) }

  completed-Lands :
      (s : BuildStatus) (row row1 : Build) (c : Completion) (next : Table → Ran) (t : Table)
      → c.status ≡ s
      → get build.id t ≡ some row1
      → view row1 ≡ view row
      → ((t2 : Table) (row2 : Build)
          → get build.id t2 ≡ some row2
          → view row2 ≡ judge (ended s) (view row)
          → Lands a build (ended s) row (next t2))
      → Lands a build (ended s) row (completed a build c next t)
  completed-Lands s row row1 c next t e g h goes =
      let done = complete a.end_time build.id c t in
      let found = get-complete build.id a.end_time c t in
      let lands =
        goes done.table (set_completed a.end_time c row1) (ground (arith, found, g))
          (ground (arith, e, h)) in
      let same : completed_row a build next t done ≡ next done.table =
        ground (arith, g, complete-returned build.id a.end_time c t) in
      both-Lands row a.complete_answers (subst (Lands a build (ended s) row) (sym same) lands)
        (stops-Lands (ended s) row row1 t g h)

  marked_row :
      (r : BuildResult) (t : Table) (row : Build)
      → get build.id t ≡ some row
      → (row1 : Build) × (get build.id (marked a build r t) ≡ some row1) × (view row1 ≡ view row)
  marked_row r t row g = elim (Bool-cases (sign_outputs a r.output_paths && a.mark_answers)) [
    | inl y ↦ (set_signed row, ground (arith, y, g, get-mark_signed build.id t), refl)
    | inr n ↦ (row, ground (arith, n, g), refl)
  ]

  report-Lands :
      (v : Verdict) (row row' : Build) (t : Table)
      → get build.id t ≡ some row'
      → view row' ≡ judge v (view row)
      → Lands a build v row (report a build t)
  unfolding report
  report-Lands v row row' t g h = got-Lands v row row' _ t g h

  record_error-Lands :
      (e : String) (t : Table) (row : Build)
      → get build.id t ≡ some row
      → Lands a build (ended failed) row (record_error a build e t)
  unfolding record_error
  record_error-Lands e t row g = after-Lands (ended failed) row _ _ (
      completed-Lands failed row row (error_completion a build e) (report a build) t refl g refl
        (λ t2 row2 g2 h2. report-Lands (ended failed) row row2 t2 g2 h2))

  retried-Lands :
      (t : Table) (row : Build)
      → get build.id t ≡ some row
      → Lands a build again row (ends (retry build.id t).table (remove_live_log build.id ∷ []))
  retried-Lands t row g = record {
    row_after = set_retried row;
    found = ground (arith, g, get-retry build.id t);
    lands = ground arith;
  }

  record_failure-Lands :
      (r : BuildResult) (t : Table) (row : Build)
      → get build.id t ≡ some row
      → Lands a build (failure_verdict a build r) row (record_failure a build r t)
  unfolding record_failure failure_report failure_completion
  record_failure-Lands r t row g =
      if-Lands row (ltb build.retry_count build.max_retries)
        (both-Lands row a.retry_answers (retried-Lands t row g)
          (stops-Lands again row row t g refl))
        (completed-Lands (failure_status a build r) row row (failure_completion a build r)
          (failure_report a build r) t refl g refl
          (λ t2 row2 g2 h2.
            after-Lands _ row (cached a build r) _
              (report-Lands (ended (failure_status a build r)) row row2 t2 g2 h2)))

  conclude-Lands :
      (r : BuildResult) (t : Table) (row row1 : Build)
      → get build.id t ≡ some row1
      → view row1 ≡ view row
      → Lands a build (success_verdict a build r) row (conclude a build r t)
  unfolding conclude upload_completion upload_report success_report
  conclude-Lands r t row row1 g h = rw (sym (uploads_fail-upload_lost a build r)) (
      if-Lands row (uploads_fail a build r)
        (completed-Lands failed row row1 (upload_completion a build r) (upload_report a build) t
          refl g h
          (λ t2 row2 g2 h2.
            got-Lands (ended failed) row row2 (λ _. finished_notice a build) t2 g2 h2))
        (completed-Lands succeeded row row1 (success_completion a build r)
          (success_report a build r) t refl g h
          (λ t2 row2 g2 h2.
            after-Lands _ row _ _ (report-Lands (ended succeeded) row row2 t2 g2 h2))))

  record_success-Lands :
      (r : BuildResult) (t : Table) (row : Build)
      → get build.id t ≡ some row
      → Lands a build (success_verdict a build r) row (record_success a build r t)
  unfolding record_success
  record_success-Lands r t row g =
      let (row1, g1, h1) = marked_row r t row g in
      after-Lands _ row _ _ (
        both-Lands row (create_products a build 0 r.output_paths).answered
          (after-Lands _ row _ _ (conclude-Lands r (marked a build r t) row row1 g1 h1))
          (stops-Lands _ row row t g refl))

  hand_back-Lands :
      (t : Table) (row : Build)
      → get build.id t ≡ some row
      → Lands a build (verdict a build no_venue) row (hand_back a build t)
  unfolding hand_back
  hand_back-Lands t row g = elim (Bool-cases a.requeue_answers) [
    | inl y ↦ record {
      row_after = if is_running row.status then set_requeued row else row;
      found = ground (arith, y, g, get-requeue build.id t);
      lands = ground (arith, y);
    }
    | inr n ↦ record { row_after = row; found = ground (arith, n, g); lands = ground (arith, n) }
  ]

  -- What a run does to the row of its build is its verdict, whatever queries, commands and files fail on
  -- the way. A build that no venue took goes back to the queue if it still runs, or is left as it is if
  -- the query that hands it back fails. A failed build with retries left goes back with one retry more,
  -- and one without ends by its exit code. A success ends as failed if uploads must not fail, are enabled
  -- with a store to upload to and were not done by the builder, and some output failed at every attempt
  -- of its upload; else it ends as succeeded. An error of the execution ends as failed. If the run returns
  -- an error, then that is the database's, and the row is as it was or as the verdict says. The build has
  -- a row.
  pub settle-Lands :
      (o : Outcome) (t : Table) (row : Build)
      → get build.id t ≡ some row
      → Lands a build (verdict a build o) row (settle a build o t)
  unfolding settle
  settle-Lands (ran r) t row g =
      after-Lands _ row _ _
        (if-Lands row r.success (record_success-Lands r t row g) (record_failure-Lands r t row g))
  settle-Lands no_venue t row g = hand_back-Lands t row g
  settle-Lands (broke e) t row g = record_error-Lands e t row g
