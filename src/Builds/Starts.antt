-- ===== src/Builds/Starts.antt =====
-- queries/builds.sql, `start`, as it runs beside other statements. Each session of the database takes the
-- statement in three steps: it begins with a snapshot, tries the locks, and commits or fails; between
-- them, other sessions take steps of their own. A session holds its advisory lock until its statement
-- ends, and another session that wants the lock meanwhile goes on without it. Updates of the row that a
-- start has locked would wait in the database; here they may come at any time. Without steps of others
-- in between, the three steps are `start` of Builds.
pub mod Fresh
pub mod Counts
pub mod Safe
pub mod Alone
pub mod Exclusive
use circus.Common.{ℕ, Bool, List, [], ◌∷◌, Option, none, some, String, any, ◌==◌, if◌then◌else◌}
use circus.Rpc.Agent.{Uuid}
use circus.Dispatch.Venue.{is_none}
use circus.Models.Rows.{Build}
use circus.Builds.{
  Table, first_where, update_where, is_candidate, can_start, set_started, Statement, apply,
}

-- What a session is at: nothing; a start that has its snapshot; a start that has the lock, and the row if
-- it was granted.
pub data Phase : Type 0 where
  idle : Phase
  snapped : Uuid → String → Table → Phase
  claiming : Uuid → String → Phase
  refused : String → Phase

-- The committed rows, the session that holds each advisory lock, and the sessions.
pub record World : Type 0 where
  pub table : Table
  pub holder : ℕ → Option ℕ
  pub sessions : ℕ → Phase

-- No session is at work.
abbrev pub quiet : Table → World
quiet t = record { table = t; holder = λ key. none; sessions = λ i. idle }

pub data Event : Type 0 where
  -- A session begins to start a build; tries the locks, where the row may be locked; commits; fails.
  begin : ℕ → Uuid → Event
  attempt : ℕ → Bool → Event
  commit : ℕ → ℕ → Event
  fail : ℕ → Event
  -- Any other statement of the life cycle.
  other : Statement → Event

abbrev pub put {ℓ} : {A : Type ℓ} → ℕ → A → (ℕ → A) → ℕ → A
put i a f j = if j == i then a else f j

-- The snapshot decides which row the statement is about.
abbrev pub begun : Uuid → Table → Option Build → Phase
begun id t none = idle
begun id t (some r) = snapped id r.drv_path t

abbrev pub begin_start : ℕ → Uuid → Phase → World → World
begin_start i id idle w = record w {
  sessions = put i (begun id w.table (first_where (is_candidate id) (λ r. r) w.table)) w.sessions;
}
begin_start i id _ w = w

abbrev pub outcome : Bool → Bool → Uuid → String → Phase
outcome lock got_row id drv =
    let missed = if lock then refused drv else idle in if got_row then claiming id drv else missed

-- `hashtextextended(drv_path, 0)`.
module _ (hash : String → ℕ) where
  abbrev pub granted : World → Bool → Uuid → String → Table → Bool
  granted w unlocked id drv seen =
      any (can_start (is_none (w.holder (hash drv))) unlocked seen id) w.table

  abbrev pub locked : Bool → ℕ → String → (ℕ → Option ℕ) → ℕ → Option ℕ
  locked lock i drv holder = if lock then put (hash drv) (some i) holder else holder

  -- `pg_try_advisory_xact_lock`, and whether the statement has its row then.
  unfoldable pub attempt_start : ℕ → Bool → Phase → World → World
  attempt_start i unlocked (snapped id drv seen) w =
      let lock = is_none (w.holder (hash drv)) in
      record w {
        holder = locked lock i drv w.holder;
        sessions = put i (outcome lock (granted w unlocked id drv seen) id drv) w.sessions;
      }
  attempt_start i unlocked _ w = w

  -- The end of the transaction releases the lock.
  abbrev pub release : ℕ → String → Table → World → World
  release i drv t w = record {
    table = t;
    holder = put (hash drv) none w.holder;
    sessions = put i idle w.sessions;
  }

  unfoldable pub commit_start : ℕ → ℕ → Phase → World → World
  commit_start i now (claiming id drv) w =
      release i drv (update_where (λ r. r.id == id) (set_started now) w.table) w
  commit_start i now (refused drv) w = release i drv w.table w
  commit_start i now _ w = w

  unfoldable pub fail_start : ℕ → Phase → World → World
  fail_start i (claiming id drv) w = release i drv w.table w
  fail_start i (refused drv) w = release i drv w.table w
  fail_start i _ w = record w { sessions = put i idle w.sessions }

  unfoldable pub step : Event → World → World
  unfolding attempt_start commit_start fail_start
  step (begin i id) w = begin_start i id (w.sessions i) w
  step (attempt i unlocked) w = attempt_start i unlocked (w.sessions i) w
  step (commit i now) w = commit_start i now (w.sessions i) w
  step (fail i) w = fail_start i (w.sessions i) w
  step (other s) w = record w { table = apply s w.table }

  unfoldable pub run : List Event → World → World
  unfolding step
  run [] w = w
  run (e ∷ events) w = run events (step e w)
