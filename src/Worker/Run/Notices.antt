-- ===== src/Worker/Run/Notices.antt =====
-- crates/queue-runner/src/worker.rs: when `run_build` tells of the end of a build.
use circus.Common.{
  ℕ, ◌≡◌, refl, sym, subst, inl, inr, Bool, true, false, ◌&&◌, List, [], ◌∷◌, Option, none, some,
  String, Result, ok, err, arith, ltb, if◌then◌else◌, Option-cases,
}
use circus.Models.BuildStatus.{BuildStatus, failed, succeeded, is_finished, is_success}
use circus.Models.Rows.{Build}
use circus.Builds.{Table, Updated, Completion, get, complete, set_completed, requeue}
use circus.Builds.Rows.{get-complete, complete-returned}
use circus.Worker.{BuildResult, Effect, remove_live_log, RunError, build_not_found, RunAnswers}
use circus.Worker.Execute.{Outcome, ran, no_venue, broke}
use circus.Worker.Outputs.{create_products}
use circus.Worker.Record.{
  finished_notice, got, Ran, cached, after, ends, stops, completed, report, report_row, conclude,
  record_success, failure_status, record_failure, record_error, uploads_fail, upload_report,
  success_report, failure_report, upload_completion, success_completion, failure_completion,
  error_completion, log_effects, collect_metrics_and_alert,
}
use circus.Worker.Run.Uploads.{uploads_fail-upload_lost}
use circus.Worker.Run.{hand_back, settle}
use circus.Worker.Run.Verdict.{
  Verdict, left, back, again, ended, verdict, success_verdict, failure_verdict,
}
use circus.Worker.Run.Effects.{
  notices, notices-append, notices-collect, notices-stored, notices-published,
}

module _ (build : Build) (a : RunAnswers) where
  -- One notice for a build that ends, if its project is found; none before that.
  abbrev pub due : Verdict → ℕ
  due (ended s) = if is_finished s && a.project_known_after then 1 else 0
  due _ = 0

  -- The notices that a run with a result sends.
  abbrev pub due_by : Verdict → Result {0, 0} RunError Unit → ℕ
  due_by v (ok u) = due v
  due_by v (err e) = 0

  record Tells (v : Verdict) (r : Ran) : Type 0 where
    told : notices r.effects ≡ due_by v r.result

  if-Tells :
      {v v' : Verdict} {r r' : Ran} (b : Bool)
      → Tells v r
      → Tells v' r'
      → Tells (if b then v else v') (if b then r else r')
  if-Tells true h h' = h
  if-Tells false h h' = h'

  both-Tells :
      {v : Verdict} {r r' : Ran} (b : Bool) → Tells v r → Tells v r' → Tells v (if b then r else r')
  both-Tells true h h' = h
  both-Tells false h h' = h'

  after-Tells :
      (v : Verdict) (effects : List Effect) (r : Ran)
      → notices effects ≡ 0
      → Tells v r
      → Tells v (after effects r)
  after-Tells v effects r e h = record {
    told = omega (arith, e, h.told, notices-append effects r.effects);
  }

  stops-Tells : (v : Verdict) (e : RunError) (t : Table) → Tells v (stops e t)
  stops-Tells v e t = record { told = refl }

  ends-Tells :
      (v : Verdict) (t : Table) (effects : List Effect)
      → notices effects ≡ due v
      → Tells v (ends t effects)
  ends-Tells v t effects h = record { told = h }

  got-Tells :
      (s : BuildStatus) (row : Build) (f : Build → List Effect) (t : Table)
      → get build.id t ≡ some row
      → notices (f row) ≡ due (ended s)
      → Tells (ended s) (got a build f t)
  got-Tells s row f t g h =
      both-Tells a.get_answers
        (subst (Tells (ended s)) (sym (ground (arith, g))) (ends-Tells (ended s) t (f row) h))
        (stops-Tells _ _ t)

  completed-Tells :
      (s : BuildStatus) (c : Completion) (next : Table → Ran) (t : Table)
      → c.status ≡ s
      → ((t2 : Table) (row2 : Build)
          → get build.id t2 ≡ some row2
          → row2.status ≡ s
          → Tells (ended s) (next t2))
      → Tells (ended s) (completed a build c next t)
  completed-Tells s c next t e goes =
      both-Tells a.complete_answers
        (elim (Option-cases (get build.id t)) [
          | inl n ↦
              subst (Tells (ended s))
                (sym (ground (arith, n, complete-returned build.id a.end_time c t)))
                (stops-Tells _ (build_not_found build.id) t)
          | inr (row, g) ↦
              subst (Tells (ended s))
                (sym (ground (arith, g, complete-returned build.id a.end_time c t)))
                (goes done.table (set_completed a.end_time c row)
                  (ground (arith, g, get-complete build.id a.end_time c t)) e)
        ])
        (stops-Tells _ _ t)
    where
      done : Updated
      done = complete a.end_time build.id c t

  report_row-notices :
      (s : BuildStatus) (row : Build)
      → row.status ≡ s
      → notices (report_row a build row) ≡ due (ended s)
  unfolding is_success
  report_row-notices s row e = grind (arith, e, notices-append)

  report-Tells :
      (s : BuildStatus) (row : Build) (t : Table)
      → get build.id t ≡ some row
      → row.status ≡ s
      → Tells (ended s) (report a build t)
  unfolding report
  report-Tells s row t g e = got-Tells s row (report_row a build) t g (report_row-notices s row e)

  record_error-Tells : (e : String) (t : Table) → Tells (ended failed) (record_error a build e t)
  unfolding record_error
  record_error-Tells e t = after-Tells _ _ _ (ground arith) (
      completed-Tells failed (error_completion a build e) (report a build) t refl
        (λ t2 row2 g2 e2. report-Tells failed row2 t2 g2 e2))

  record_failure-Tells :
      (r : BuildResult) (t : Table) → Tells (failure_verdict a build r) (record_failure a build r t)
  unfolding record_failure failure_report failure_completion cached
  record_failure-Tells r t =
      if-Tells (ltb build.retry_count build.max_retries)
        (both-Tells a.retry_answers (ends-Tells again _ _ refl) (stops-Tells again _ t))
        (completed-Tells (failure_status a build r) (failure_completion a build r)
          (failure_report a build r) t refl
          (λ t2 row2 g2 e2.
            after-Tells _ (cached a build r) _ refl
              (report-Tells (failure_status a build r) row2 t2 g2 e2)))

  conclude-Tells :
      (r : BuildResult) (t : Table) → Tells (success_verdict a build r) (conclude a build r t)
  unfolding conclude upload_completion upload_report success_report is_finished
  conclude-Tells r t = rw (sym (uploads_fail-upload_lost a build r)) (
      if-Tells (uploads_fail a build r)
        (completed-Tells failed (upload_completion a build r) (upload_report a build) t refl
          (λ t2 row2 g2 e2.
            got-Tells failed row2 (λ _. finished_notice a build) t2 g2 (ground arith)))
        (completed-Tells succeeded (success_completion a build r) (success_report a build r) t refl
          (λ t2 row2 g2 e2.
            after-Tells _ (collect_metrics_and_alert a build r.output_paths) _
              (notices-collect build a r.output_paths) (report-Tells succeeded row2 t2 g2 e2))))

  record_success-Tells :
      (r : BuildResult) (t : Table) → Tells (success_verdict a build r) (record_success a build r t)
  unfolding record_success
  record_success-Tells r t = after-Tells _ _ _ (notices-stored build a r) (
      both-Tells (create_products a build 0 r.output_paths).answered
        (after-Tells _ _ _ (notices-published build a r) (conclude-Tells r _)) (stops-Tells _ _ t))

  hand_back-Tells : (t : Table) → Tells (verdict a build no_venue) (hand_back a build t)
  unfolding hand_back
  hand_back-Tells t = if-Tells a.requeue_answers (row back_row.returned) (ends-Tells left t _ refl)
    where
      back_row : Updated
      back_row = requeue build.id t

      row :
          (o : Option Build)
          → Tells back (elim o [
            | none ↦ ends back_row.table []
            | some r ↦ ends back_row.table (remove_live_log build.id ∷ [])
          ])
      row none = ends-Tells back _ _ refl
      row (some r) = ends-Tells back _ _ refl

  settle-Tells : (o : Outcome) (t : Table) → Tells (verdict a build o) (settle a build o t)
  unfolding settle
  settle-Tells (ran r) t =
      after-Tells _ (log_effects a build r) _ (ground arith)
        (if-Tells r.success (record_success-Tells r t) (record_failure-Tells r t))
  settle-Tells no_venue t = hand_back-Tells t
  settle-Tells (broke e) t = record_error-Tells e t

  -- A run that records its outcome tells of the end of the build exactly once if the verdict is an end
  -- and the project is found then, and never if the build is left as it is, goes back to the queue or is
  -- tried again; a run that a failing query ends with an error has told nobody.
  pub settle-notices :
      (o : Outcome) (t : Table)
      → notices (settle a build o t).effects
        ≡ due_by (verdict a build o) (settle a build o t).result
  settle-notices o t = (settle-Tells o t).told
