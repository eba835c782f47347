-- ===== src/Worker/Run/Keeps.antt =====
-- crates/queue-runner/src/worker.rs: what every update of the table keeps, a run of a build keeps.
use circus.Common.{
  ◌≡◌, refl, subst, sym, inl, inr, Option-cases, ltb, [], ◌∷◌, Bool-cases, ◌&&◌, Bool, true, false,
  List, Option, none, some, String, arith, if◌then◌else◌, All,
}
use circus.Common.Float.{Float32}
use circus.Models.BuildStatus.{is_finished}
use circus.Models.BuildStatus.Codes.{from_exit_code_classes}
use circus.Models.Rows.{Build}
use circus.Dispatch.Venue.{VenueContext, ExecutionReservation}
use circus.Builds.{
  get, Table, Updated, Completion, Statement, start_build, notify_started, requeue_build,
  retry_build, complete_build, sign_build, apply, start, complete, requeue,
}
use circus.Builds.Proper.{IsProper, IsCurrent}
use circus.Builds.Once.{IsExclusive, apply-IsExclusive}
use circus.Builds.Valid.{IsTimed, apply-IsTimed}
use circus.Worker.{BuildResult, Effect, remove_live_log, RunError, build_not_found, RunAnswers}
use circus.Worker.Execute.{Outcome, ran, no_venue, broke, execute}
use circus.Worker.Outputs.{create_products, sign_outputs}
use circus.Worker.Record.{
  got, marked, Ran, cached, after, completed, report, conclude, record_success, failure_status,
  record_failure, record_error, ends, stops, uploads_fail, upload_report, success_report,
  failure_report, upload_completion, success_completion, failure_completion, error_completion,
}
use circus.Worker.Run.{run_claimed, hand_back, settle, run_build, announced_table}

module _ (P : Table → Type 0) (a : RunAnswers) (build : Build) where
  record Keeps (r : Ran) : Type 0 where
    kept : P r.table

  both-Keeps : {r r' : Ran} (b : Bool) → Keeps r → Keeps r' → Keeps (if b then r else r')
  both-Keeps true h h' = h
  both-Keeps false h h' = h'

  after-Keeps : (effects : List Effect) (r : Ran) → Keeps r → Keeps (after effects r)
  after-Keeps effects r h = record { kept = h.kept }

  stops-Keeps : (e : RunError) (t : Table) → P t → Keeps (stops e t)
  stops-Keeps e t h = record { kept = h }

  ends-Keeps : (t : Table) (effects : List Effect) → P t → Keeps (ends t effects)
  ends-Keeps t effects h = record { kept = h }

  got-Keeps : (f : Build → List Effect) (t : Table) → P t → Keeps (got a build f t)
  got-Keeps f t h = both-Keeps a.get_answers (found (get build.id t)) (stops-Keeps _ t h)
    where
      found :
          (o : Option Build)
          → Keeps (elim o [ none ↦ stops (build_not_found build.id) t | some row ↦ ends t (f row) ])
      found none = stops-Keeps _ t h
      found (some row) = ends-Keeps t _ h

  module _
      (keep : (s : Statement) (t : Table)
        → IsProper s t
        → IsCurrent s t
        → P t
        → P (apply s t)) where
    completed-Keeps :
        (c : Completion) (next : Table → Ran) (t : Table)
        → is_finished c.status ≡ true
        → ((t2 : Table) → P t2 → Keeps (next t2))
        → P t
        → Keeps (completed a build c next t)
    unfolding apply
    completed-Keeps c next t e goes h =
        both-Keeps a.complete_answers (row done.returned) (stops-Keeps _ t h)
      where
        done : Updated
        done = complete a.end_time build.id c t

        row :
            (o : Option Build)
            → Keeps
                (elim o [ none ↦ stops (build_not_found build.id) t | some r ↦ next done.table ])
        row none = stops-Keeps _ t h
        row (some r) = goes done.table (keep (complete_build a.end_time build.id c) t e tt h)

    report-Keeps : (t : Table) → P t → Keeps (report a build t)
    unfolding report
    report-Keeps t h = got-Keeps _ t h

    failure_status-finished : (r : BuildResult) → is_finished (failure_status a build r) ≡ true
    unfolding failure_status is_finished
    failure_status-finished r = elim (Option-cases r.exit_code) [
      | inl n ↦ ground (arith, n)
      | inr (code, e) ↦ ground (arith, e, (from_exit_code_classes code).0)
    ]

    record_error-Keeps : (e : String) (t : Table) → P t → Keeps (record_error a build e t)
    unfolding record_error is_finished
    record_error-Keeps e t h =
        after-Keeps _ _
          (completed-Keeps (error_completion a build e) (report a build) t refl report-Keeps h)

    record_failure-Keeps : (r : BuildResult) (t : Table) → P t → Keeps (record_failure a build r t)
    unfolding record_failure apply failure_completion failure_report
    record_failure-Keeps r t h =
        both-Keeps (ltb build.retry_count build.max_retries)
          (both-Keeps a.retry_answers (ends-Keeps _ _ (keep (retry_build build.id) t tt tt h))
            (stops-Keeps _ t h))
          (completed-Keeps (failure_completion a build r) (failure_report a build r) t
            (failure_status-finished r)
            (λ t2 h2. after-Keeps (cached a build r) _ (report-Keeps t2 h2)) h)

    marked-kept : (r : BuildResult) (t : Table) → P t → P (marked a build r t)
    unfolding apply
    marked-kept r t h = elim (Bool-cases (sign_outputs a r.output_paths && a.mark_answers)) [
      | inl y ↦ subst P (sym (ground (arith, y))) (keep (sign_build build.id) t tt tt h)
      | inr n ↦ subst P (sym (ground (arith, n))) h
    ]

    conclude-Keeps : (r : BuildResult) (t : Table) → P t → Keeps (conclude a build r t)
    unfolding conclude is_finished upload_completion upload_report success_report
    conclude-Keeps r t h =
        both-Keeps (uploads_fail a build r)
          (completed-Keeps (upload_completion a build r) (upload_report a build) t refl
            (λ t2 h2. got-Keeps _ t2 h2) h)
          (completed-Keeps (success_completion a build r) (success_report a build r) t refl
            (λ t2 h2. after-Keeps _ _ (report-Keeps t2 h2)) h)

    record_success-Keeps : (r : BuildResult) (t : Table) → P t → Keeps (record_success a build r t)
    unfolding record_success
    record_success-Keeps r t h = after-Keeps _ _ (
        both-Keeps (create_products a build 0 r.output_paths).answered
          (after-Keeps _ _ (conclude-Keeps r (marked a build r t) (marked-kept r t h)))
          (stops-Keeps _ t h))

    hand_back-Keeps : (t : Table) → P t → Keeps (hand_back a build t)
    unfolding hand_back apply
    hand_back-Keeps t h = both-Keeps a.requeue_answers (row back.returned) (ends-Keeps t _ h)
      where
        back : Updated
        back = requeue build.id t

        row :
            (o : Option Build)
            → Keeps (elim o [
              | none ↦ ends back.table []
              | some r ↦ ends back.table (remove_live_log build.id ∷ [])
            ])
        row none = ends-Keeps _ _ (keep (requeue_build build.id) t tt tt h)
        row (some r) = ends-Keeps _ _ (keep (requeue_build build.id) t tt tt h)

    settle-Keeps : (o : Outcome) (t : Table) → P t → Keeps (settle a build o t)
    unfolding settle
    settle-Keeps (ran r) t h =
        after-Keeps _ _
          (both-Keeps r.success (record_success-Keeps r t h) (record_failure-Keeps r t h))
    settle-Keeps no_venue t h = hand_back-Keeps t h
    settle-Keeps (broke e) t h = record_error-Keeps e t h

    run_claimed-Keeps :
        {D : Type 0} (ctx : VenueContext D) (fl : Float32) (venue : ExecutionReservation fl)
        (t : Table)
        → ((t1 : Table) → P t1 → P (a.meanwhile t1))
        → P t
        → Keeps (run_claimed a build ctx fl venue t)
    unfolding run_claimed apply
    run_claimed-Keeps ctx fl venue t others h =
        after-Keeps _ _ (settle-Keeps (execute ctx a build fl venue).outcome _ (others _ announced))
      where
        announced : P (announced_table a build t)
        announced = elim (Bool-cases (a.project_known && a.notify_answers)) [
          | inl y ↦ subst P (sym (ground (arith, y))) (keep (notify_started build.id) t tt tt h)
          | inr n ↦ subst P (sym (ground (arith, n))) h
        ]

    run_build-Keeps :
        {D : Type 0} (ctx : VenueContext D) (fl : Float32)
        (venue : Option (ExecutionReservation fl)) (t : Table)
        → ((t1 : Table) → P t1 → P (a.meanwhile t1))
        → P t
        → P (run_build a build ctx fl venue t).table
    unfolding run_build apply
    run_build-Keeps ctx fl none t others h = h
    run_build-Keeps {D} ctx fl (some venue) t others h =
        (both-Keeps a.start_answers (claim started.returned) (stops-Keeps _ t h)).kept
      where
        started : Updated
        started = start a.start_time a.lock_free a.row_unlocked t build.id t

        kept_start : P started.table
        kept_start =
            keep (start_build a.start_time a.lock_free a.row_unlocked t build.id) t tt refl h

        claim :
            (o : Option Build)
            → Keeps (elim o [
              | none ↦ ends started.table []
              | some r ↦ run_claimed a build ctx fl venue started.table
            ])
        claim none = ends-Keeps _ _ kept_start
        claim (some r) = run_claimed-Keeps ctx fl venue started.table others kept_start

-- A run of a build, whatever its venue, its outcome and the failures on its way, keeps the two invariants
-- of the table: at most one running build of a derivation under unique ids, and times that agree with the
-- status of each row. What others do to the table during the run keeps them, too, and the
-- snapshot of the start is the table that the run finds.
pub run_build-IsSound :
    (a : RunAnswers) (build : Build) {D : Type 0} (ctx : VenueContext D) (fl : Float32)
    (venue : Option (ExecutionReservation fl)) (t : Table)
    → ((t1 : Table)
        → IsExclusive t1 × All IsTimed t1
        → IsExclusive (a.meanwhile t1) × All IsTimed (a.meanwhile t1))
    → IsExclusive t × All IsTimed t
    → IsExclusive (run_build a build ctx fl venue t).table
      × All IsTimed (run_build a build ctx fl venue t).table
run_build-IsSound a build ctx fl venue t others h =
    run_build-Keeps (λ t1. IsExclusive t1 × All IsTimed t1) a build
      (λ s t1 p c h1. (apply-IsExclusive s t1 p c h1.0, apply-IsTimed s t1 p h1.1)) ctx fl venue t
      others h
