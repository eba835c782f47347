-- ===== src/Builds/Valid.antt =====
-- queries/builds.sql: the timestamps of a row agree with its status.
use circus.Common.{
  ℕ, ◌≡◌, ◌≢◌, Bool, true, false, List, [], ◌∷◌, none, Option, arith, All, refl, if◌then◌else◌,
}
use circus.Models.BuildStatus.{BuildStatus, pending, running, is_finished}
use circus.Rpc.Agent.{Uuid}
use circus.Builds.Proper.{IsProper, AllProper}
use circus.Models.Rows.{Build}
use circus.Builds.{
  Table, can_start, set_started, set_completed, set_cancelled, set_requeued, set_retried,
  set_restarted, set_notified, set_reset, is_orphan, set_features, set_signed, update_where,
  Completion, Statement, insert_row, start_build, notify_started, requeue_build, retry_build,
  complete_build, cancel_build, restart_build, reset_orphans, keep_features, sign_build, start,
  mark_started_notified, requeue, retry, complete, cancel, restart, reset_orphaned_excluding,
  set_effective_features, mark_signed, apply, apply_all,
}

-- A pending row has neither time, a running one has only a start, a finished one has an end.
abbrev Timed : BuildStatus → Option ℕ → Option ℕ → Type 0
Timed pending started completed = (started ≡ none) × (completed ≡ none)
Timed running started completed = (started ≢ none) × (completed ≡ none)
Timed _ started completed = completed ≢ none

unfoldable pub IsTimed : Build → Type 0
IsTimed r = Timed r.status r.started_at r.completed_at

pub pending_times :
    (r : Build) → IsTimed r → r.status ≡ pending → (r.started_at ≡ none) × (r.completed_at ≡ none)
unfolding IsTimed
pending_times r h e = ground arith

update_where-IsTimed :
    (test : Build → Bool) (set : Build → Build) (t : Table)
    → ((r : Build) → test r ≡ true → IsTimed r → IsTimed (set r))
    → All IsTimed t
    → All IsTimed (update_where test set t)
update_where-IsTimed test set [] keep h = tt
update_where-IsTimed test set (r ∷ t) keep (h, hs) =
    (go (test r) refl, update_where-IsTimed test set t keep hs)
  where
    go : (b : Bool) → test r ≡ b → IsTimed (if b then set r else r)
    go true e = keep r e h
    go false e = h

module _ (r : Build) where
  set_started-IsTimed : (now : ℕ) → IsTimed r → r.status ≡ pending → IsTimed (set_started now r)
  unfolding IsTimed
  set_started-IsTimed now h e = ground arith

  set_completed-IsTimed :
      (now : ℕ) (c : Completion) → is_finished c.status ≡ true → IsTimed (set_completed now c r)
  unfolding IsTimed is_finished
  set_completed-IsTimed now c f = ground arith

  set_cancelled-IsTimed : (now : ℕ) → IsTimed (set_cancelled now r)
  unfolding IsTimed
  set_cancelled-IsTimed now e = cc

  reset-IsTimed :
      IsTimed r
      → r.status ≡ running
      → IsTimed (record r { status = pending; started_at = none; effective_features = none })
  unfolding IsTimed
  reset-IsTimed h e = ground arith

can_start-pending :
    (lock unlocked : Bool) (seen : Table) (id : Uuid) (r : Build)
    → can_start lock unlocked seen id r ≡ true
    → r.status ≡ pending
can_start-pending lock unlocked seen id r h = ground arith

pub apply-IsTimed :
    (s : Statement) (t : Table) → IsProper s t → All IsTimed t → All IsTimed (apply s t)
unfolding apply start mark_started_notified requeue retry complete cancel restart
    reset_orphaned_excluding set_effective_features mark_signed IsTimed
apply-IsTimed (insert_row r) t p h = (ground arith, h)
apply-IsTimed (start_build now lock unlocked seen id) t p h =
    update_where-IsTimed (can_start lock unlocked seen id) (set_started now) t
      (λ r e v. set_started-IsTimed r now v (can_start-pending lock unlocked seen id r e)) h
apply-IsTimed (notify_started id) t p h = update_where-IsTimed _ set_notified t (λ r e v. v) h
apply-IsTimed (requeue_build id) t p h =
    update_where-IsTimed _ set_requeued t (λ r e v. (refl, refl)) h
apply-IsTimed (retry_build id) t p h =
    update_where-IsTimed _ set_retried t (λ r e v. (refl, refl)) h
apply-IsTimed (complete_build now id c) t p h =
    update_where-IsTimed _ (set_completed now c) t (λ r e v. set_completed-IsTimed r now c p) h
apply-IsTimed (cancel_build now id) t p h =
    update_where-IsTimed _ (set_cancelled now) t (λ r e v. set_cancelled-IsTimed r now) h
apply-IsTimed (restart_build id) t p h =
    update_where-IsTimed _ set_restarted t (λ r e v. (refl, refl)) h
apply-IsTimed (reset_orphans now age excluded) t p h =
    update_where-IsTimed (is_orphan now age excluded) set_reset t
      (λ r e v. reset-IsTimed r v (ground (arith, e))) h
apply-IsTimed (keep_features id features) t p h =
    update_where-IsTimed _ (set_features features) t (λ r e v. v) h
apply-IsTimed (sign_build id) t p h = update_where-IsTimed _ set_signed t (λ r e v. v) h

-- Whatever updates of the life cycle come, in whatever order, and whatever snapshots the starts read, every
-- row keeps times that agree with
-- its status: a pending row has neither, a running row has a start and no end, and a finished row has
-- an end. New rows are pending without times, and `complete` is given a finished status.
pub apply_all-IsTimed :
    (statements : List Statement) (t : Table)
    → AllProper statements t
    → All IsTimed t
    → All IsTimed (apply_all statements t)
unfolding apply_all
apply_all-IsTimed [] t p h = h
apply_all-IsTimed (s ∷ statements) t (p, ps) h =
    apply_all-IsTimed statements (apply s t) ps (apply-IsTimed s t p h)
