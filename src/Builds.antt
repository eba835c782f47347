-- ===== src/Builds.antt =====
-- crates/common/src/repo/builds.rs and queries/builds.sql: the rows of `builds` as far as their life
-- cycle reads and writes them. Each query is one step on the table; it updates the rows that its
-- `WHERE` keeps, and returns the first of them.
pub mod Cascade
pub mod Proper
pub mod Rows
pub mod Once
pub mod Starts
pub mod Valid
use circus.Common.{
  ℕ, ◌+◌, Bool, true, false, not, ◌&&◌, List, [], ◌∷◌, map, Option, none, some, String, str_eq, ltb,
  ◌==◌, if◌then◌else◌, any,
}
use circus.Models.BuildStatus.{
  BuildStatus, pending, running, succeeded, failed, cancelled, cached_failure,
}
use circus.Models.Rows.{Build}
use circus.Rpc.Agent.{Uuid}

abbrev pub Table : Type 0
Table = List Build

abbrev pub is_pending : BuildStatus → Bool
is_pending pending = true
is_pending _ = false

abbrev pub is_running : BuildStatus → Bool
is_running running = true
is_running _ = false

abbrev is_cancelled : BuildStatus → Bool
is_cancelled cancelled = true
is_cancelled _ = false

-- `UPDATE builds SET set WHERE test RETURNING *`.
pub record Updated : Type 0 where
  pub table : Table
  pub returned : Option Build

abbrev pub first_where : (Build → Bool) → (Build → Build) → Table → Option Build
first_where test set [] = none
first_where test set (r ∷ t) = if test r then some (set r) else first_where test set t

abbrev pub update_where : (Build → Bool) → (Build → Build) → Table → Table
update_where test set [] = []
update_where test set (r ∷ t) = (if test r then set r else r) ∷ update_where test set t

abbrev pub update : (Build → Bool) → (Build → Build) → Table → Updated
update test set t = record { table = update_where test set t; returned = first_where test set t }

-- `get`.
unfoldable pub get : Uuid → Table → Option Build
get id t = first_where (λ r. r.id == id) (λ r. r) t

-- `start`, as one statement: it reads its snapshot `seen`, in which the row has to be pending and no build
-- of the derivation may run; it takes the advisory lock of the derivation if that is free, and the row if
-- nobody has locked it (`SKIP LOCKED`) and it is pending still. `Starts` has the steps of which this is
-- made, and what others do between them.
abbrev pub runs : String → Build → Bool
runs drv r = str_eq r.drv_path drv && is_running r.status

abbrev pub is_candidate : Uuid → Build → Bool
is_candidate id r = r.id == id && is_pending r.status

abbrev pub can_start : Bool → Bool → Table → Uuid → Build → Bool
can_start lock unlocked seen id r =
    is_candidate id r
    && unlocked
    && any (is_candidate id) seen
    && lock
    && not (any (runs r.drv_path) seen)

abbrev pub set_started : ℕ → Build → Build
set_started now r = record r { status = running; started_at = some now }

unfoldable pub start : ℕ → Bool → Bool → Table → Uuid → Table → Updated
start now lock unlocked seen id t = update (can_start lock unlocked seen id) (set_started now) t

abbrev pub set_notified : Build → Build
set_notified r = record r { started_notified = true }

-- `mark_started_notified`, which returns whether it claimed the marker.
unfoldable pub mark_started_notified : Uuid → Table → Updated
mark_started_notified id t = update (λ r. r.id == id && not r.started_notified) set_notified t

abbrev pub set_requeued : Build → Build
set_requeued r = record r {
  status = pending;
  started_at = none;
  completed_at = none;
  effective_features = none;
}

unfoldable pub requeue : Uuid → Table → Updated
requeue id t = update (λ r. r.id == id && is_running r.status) set_requeued t

abbrev pub set_retried : Build → Build
set_retried r = record (set_requeued r) { retry_count = r.retry_count + 1 }

-- `retry`: the one update that goes back to pending from any status.
unfoldable pub retry : Uuid → Table → Updated
retry id t = update (λ r. r.id == id) set_retried t

-- What `complete` writes.
pub record Completion : Type 0 where
  pub status : BuildStatus
  pub log_path : Option String
  pub build_output_path : Option String
  pub error_message : Option String

abbrev pub set_completed : ℕ → Completion → Build → Build
set_completed now c r = record r {
  status = c.status;
  completed_at = some now;
  log_path = c.log_path;
  build_output_path = c.build_output_path;
  error_message = c.error_message;
}

unfoldable pub complete : ℕ → Uuid → Completion → Table → Updated
complete now id c t = update (λ r. r.id == id) (set_completed now c) t

-- `status IN ('pending', 'running')`.
abbrev pub is_cancellable : BuildStatus → Bool
is_cancellable pending = true
is_cancellable running = true
is_cancellable _ = false

abbrev pub set_cancelled : ℕ → Build → Build
set_cancelled now r = record r { status = cancelled; completed_at = some now }

unfoldable pub cancel : ℕ → Uuid → Table → Updated
cancel now id t = update (λ r. r.id == id && is_cancellable r.status) (set_cancelled now) t

abbrev is_restartable : BuildStatus → Bool
is_restartable failed = true
is_restartable succeeded = true
is_restartable cancelled = true
is_restartable cached_failure = true
is_restartable _ = false

abbrev set_restarted : Build → Build
set_restarted r = record r {
  status = pending;
  started_at = none;
  completed_at = none;
  log_path = none;
  build_output_path = none;
  error_message = none;
  started_notified = false;
  effective_features = none;
  retry_count = r.retry_count + 1;
}

-- The cache of failed paths, which `restart` then clears for the derivation, is not part of the row.
unfoldable pub restart : Uuid → Table → Updated
restart id t = update (λ r. r.id == id && is_restartable r.status) set_restarted t

-- `started_at < NOW() - make_interval(…)`; a row that has no time of start is not older.
abbrev started_before : ℕ → ℕ → Option ℕ → Bool
started_before now age none = false
started_before now age (some at) = ltb (at + age) now

abbrev contains_id : List Uuid → Uuid → Bool
contains_id ids id = any (λ i. i == id) ids

abbrev is_orphan : ℕ → ℕ → List Uuid → Build → Bool
is_orphan now age excluded r =
    is_running r.status && started_before now age r.started_at && not (contains_id excluded r.id)

abbrev set_reset : Build → Build
set_reset r = record r { status = pending; started_at = none; effective_features = none }

unfoldable pub reset_orphaned_excluding : ℕ → ℕ → List Uuid → Table → Table
reset_orphaned_excluding now age excluded t = update_where (is_orphan now age excluded) set_reset t

abbrev set_features : List String → Build → Build
set_features features r = record r { effective_features = some features }

unfoldable pub set_effective_features : Uuid → List String → Table → Table
set_effective_features id features t = update_where (λ r. r.id == id) (set_features features) t

abbrev pub set_signed : Build → Build
set_signed r = record r { signed = true }

unfoldable pub mark_signed : Uuid → Table → Table
mark_signed id t = update_where (λ r. r.id == id) set_signed t

-- `get_cancelled_among`, the ids in the order of the table.
unfoldable pub get_cancelled_among : List Uuid → Table → List Uuid
get_cancelled_among ids [] = []
get_cancelled_among ids (r ∷ t) =
    let rest = get_cancelled_among ids t in
    if contains_id ids r.id && is_cancelled r.status then r.id ∷ rest else rest

-- The updates of a build's life, with what the clock, the locks, the snapshot and the caller give them.
pub data Statement : Type 0 where
  insert_row : Build → Statement
  start_build : ℕ → Bool → Bool → Table → Uuid → Statement
  notify_started : Uuid → Statement
  requeue_build : Uuid → Statement
  retry_build : Uuid → Statement
  complete_build : ℕ → Uuid → Completion → Statement
  cancel_build : ℕ → Uuid → Statement
  restart_build : Uuid → Statement
  reset_orphans : ℕ → ℕ → List Uuid → Statement
  keep_features : Uuid → List String → Statement
  sign_build : Uuid → Statement

unfoldable pub apply : Statement → Table → Table
apply (insert_row r) t = r ∷ t
apply (start_build now lock unlocked seen id) t = (start now lock unlocked seen id t).table
apply (notify_started id) t = (mark_started_notified id t).table
apply (requeue_build id) t = (requeue id t).table
apply (retry_build id) t = (retry id t).table
apply (complete_build now id c) t = (complete now id c t).table
apply (cancel_build now id) t = (cancel now id t).table
apply (restart_build id) t = (restart id t).table
apply (reset_orphans now age excluded) t = reset_orphaned_excluding now age excluded t
apply (keep_features id features) t = set_effective_features id features t
apply (sign_build id) t = mark_signed id t

unfoldable pub apply_all : List Statement → Table → Table
apply_all [] t = t
apply_all (s ∷ statements) t = apply_all statements (apply s t)

abbrev pub count_where : (Build → Bool) → Table → ℕ
count_where p [] = 0
count_where p (r ∷ t) = (if p r then 1 else 0) + count_where p t

-- The rows with an id, of which there is at most one, since the id is the key of the table.
abbrev pub rows_of : Uuid → Table → ℕ
rows_of id = count_where (λ r. r.id == id)
