-- ===== src/Builds/Starts/Exclusive.antt =====
-- queries/builds.sql, `start`: sessions that start builds at the same time.
use circus.Common.{ℕ, Bool, List, [], ◌∷◌, String, arith}
use circus.Rpc.Agent.{Uuid}
use circus.Builds.{
  Table, Statement, insert_row, start_build, notify_started, requeue_build, retry_build,
  complete_build, cancel_build, restart_build, reset_orphans, keep_features, sign_build, apply,
}
use circus.Builds.Proper.{IsProper, IsCurrent}
use circus.Builds.Once.{IsExclusive, apply-IsExclusive}
use circus.Builds.Starts.Counts.{apply-owned, apply-running_of}
use circus.Builds.Starts.{
  Phase, idle, snapped, claiming, refused, World, quiet, Event, begin, attempt, commit, fail, other,
  put, begin_start, attempt_start, commit_start, fail_start, step, run,
}
use circus.Builds.Starts.Safe.{
  Fits, IsSafe, put-all, Fits-moved, release-IsSafe, begun-Fits, attempt-IsSafe, commit-IsSafe,
}
use circus.Builds.Starts.Fresh.{IsFresh, IsOther, AllAllowed}

module _ (hash : String → ℕ) where
  -- Another session's move leaves a session as it was.
  moved-IsSafe :
      (i : ℕ) (p : Phase) (w : World)
      → Fits hash w.table w.holder i p
      → IsSafe hash w
      → IsSafe hash (record w { sessions = put i p w.sessions })
  moved-IsSafe i p w h s = record {
    exclusive = s.exclusive;
    fits = put-all (Fits hash w.table w.holder) i p w.sessions h (λ j n. s.fits j);
  }

  begin_start-IsSafe :
      (i : ℕ) (id : Uuid) (p : Phase) (w : World)
      → IsSafe hash w
      → IsSafe hash (begin_start i id p w)
  begin_start-IsSafe i id idle w s =
      moved-IsSafe i _ w (begun-Fits hash w.holder i id w.table s.exclusive) s
  begin_start-IsSafe i id (snapped k drv seen) w s = s
  begin_start-IsSafe i id (claiming k drv) w s = s
  begin_start-IsSafe i id (refused drv) w s = s

  attempt_start-IsSafe :
      (i : ℕ) (unlocked : Bool) (p : Phase) (w : World)
      → IsFresh p w.table
      → Fits hash w.table w.holder i p
      → IsSafe hash w
      → IsSafe hash (attempt_start hash i unlocked p w)
  unfolding attempt_start
  attempt_start-IsSafe i unlocked (snapped id drv seen) w fresh o s =
      attempt-IsSafe hash i unlocked id drv seen w fresh o s
  attempt_start-IsSafe i unlocked idle w fresh o s = s
  attempt_start-IsSafe i unlocked (claiming id drv) w fresh o s = s
  attempt_start-IsSafe i unlocked (refused drv) w fresh o s = s

  commit_start-IsSafe :
      (i now : ℕ) (p : Phase) (w : World)
      → Fits hash w.table w.holder i p
      → IsSafe hash w
      → IsSafe hash (commit_start hash i now p w)
  unfolding commit_start
  commit_start-IsSafe i now (claiming id drv) w h s = commit-IsSafe hash i now id drv w h s
  commit_start-IsSafe i now (refused drv) w l s =
      release-IsSafe hash i drv w.table w l s.exclusive (λ k d o. o) (λ d n z. z) s
  commit_start-IsSafe i now idle w h s = s
  commit_start-IsSafe i now (snapped id drv seen) w h s = s

  fail_start-IsSafe :
      (i : ℕ) (p : Phase) (w : World)
      → Fits hash w.table w.holder i p
      → IsSafe hash w
      → IsSafe hash (fail_start hash i p w)
  unfolding fail_start
  fail_start-IsSafe i (claiming id drv) w (l, _, _) s =
      release-IsSafe hash i drv w.table w l s.exclusive (λ k d o. o) (λ d n z. z) s
  fail_start-IsSafe i (refused drv) w l s =
      release-IsSafe hash i drv w.table w l s.exclusive (λ k d o. o) (λ d n z. z) s
  fail_start-IsSafe i idle w h s = moved-IsSafe i idle w tt s
  fail_start-IsSafe i (snapped id drv seen) w h s = moved-IsSafe i idle w tt s

  other-IsCurrent : (s : Statement) (t : Table) → IsOther s → IsCurrent s t
  other-IsCurrent (start_build now lock unlocked seen id) t n = absurd n
  other-IsCurrent (insert_row r) t n = tt
  other-IsCurrent (notify_started id) t n = tt
  other-IsCurrent (requeue_build id) t n = tt
  other-IsCurrent (retry_build id) t n = tt
  other-IsCurrent (complete_build now id c) t n = tt
  other-IsCurrent (cancel_build now id) t n = tt
  other-IsCurrent (restart_build id) t n = tt
  other-IsCurrent (reset_orphans now age excluded) t n = tt
  other-IsCurrent (keep_features id features) t n = tt
  other-IsCurrent (sign_build id) t n = tt

  apply-IsSafe :
      (s : Statement) (w : World)
      → IsProper s w.table
      → IsOther s
      → IsSafe hash w
      → IsSafe hash (record w { table = apply s w.table })
  apply-IsSafe s w p n h = record {
    exclusive = apply-IsExclusive s w.table p (other-IsCurrent s w.table n) h.exclusive;
    fits = λ j.
        Fits-moved hash w.table (apply s w.table) w.holder w.holder j (w.sessions j)
          (λ id drv o. apply-owned id drv s w.table p o)
          (λ drv l z. omega (arith, z, apply-running_of drv s w.table p n)) (λ key l. l) (h.fits j);
  }

  run-IsSafe :
      (events : List Event) (w : World)
      → AllAllowed hash events w
      → IsSafe hash w
      → IsSafe hash (run hash events w)
  unfolding run step AllAllowed
  run-IsSafe [] w a s = s
  run-IsSafe (begin i id ∷ events) w (_, rest) s =
      run-IsSafe events _ rest (begin_start-IsSafe i id (w.sessions i) w s)
  run-IsSafe (attempt i unlocked ∷ events) w (fresh, rest) s =
      run-IsSafe events _ rest (attempt_start-IsSafe i unlocked (w.sessions i) w fresh (s.fits i) s)
  run-IsSafe (commit i now ∷ events) w (_, rest) s =
      run-IsSafe events _ rest (commit_start-IsSafe i now (w.sessions i) w (s.fits i) s)
  run-IsSafe (fail i ∷ events) w (_, rest) s =
      run-IsSafe events _ rest (fail_start-IsSafe i (w.sessions i) w (s.fits i) s)
  run-IsSafe (other st ∷ events) w ((p, n), rest) s =
      run-IsSafe events _ rest (apply-IsSafe st w p n s)

-- Whatever sessions start builds at once, however the steps of their statements (snapshot, locks, commit or
-- failure) interleave with one another and with the other updates of the life cycle, and whichever rows
-- are locked: ids stay unique, and of each derivation at most one build is running. At first no session is
-- at work. When a start tries its locks, no build of its derivation runs if its snapshot had none running;
-- new rows are pending under a new id, and `complete` is given a finished status.
pub run-IsExclusive :
    (hash : String → ℕ) (events : List Event) (t : Table)
    → AllAllowed hash events (quiet t)
    → IsExclusive t
    → IsExclusive (run hash events (quiet t)).table
run-IsExclusive hash events t a h =
    (run-IsSafe hash events (quiet t) a record { exclusive = h; fits = λ j. tt }).exclusive
