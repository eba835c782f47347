-- ===== src/Tests/Starts.antt =====
-- Tests of starts that run at the same time.
use circus.Common.{ℕ, ◌≡◌, refl, true, List, [], ◌∷◌, String, take}
use circus.Models.BuildStatus.{pending, running, succeeded, is_finished}
use circus.Builds.{complete_build, notify_started, apply, complete, mark_started_notified}
use circus.Builds.Once.{IsExclusive}
use circus.Builds.Starts.{
  quiet, Event, begin, attempt, commit, fail, other, attempt_start, commit_start, fail_start, step,
  run,
}
use circus.Builds.Starts.Fresh.{AllAllowed}
use circus.Builds.Starts.Exclusive.{run-IsExclusive}
use circus.Tests.Rows.{two_rows, two_rows-IsExclusive, statuses, done}

-- All derivations share one lock.
abbrev hash : String → ℕ
hash drv = 5

-- Both sessions have their snapshots before either has the lock: the second goes without. Its next try
-- sees the first build run, and the one after that comes when the first is done.
abbrev race : List Event
race =
    begin 0 7
    ∷ begin 1 8
    ∷ attempt 0 true
    ∷ attempt 1 true
    ∷ commit 0 2000
    ∷ commit 1 2000
    ∷ other (notify_started 7)
    ∷ begin 1 8
    ∷ attempt 1 true
    ∷ fail 1
    ∷ other (complete_build 2200 7 done)
    ∷ begin 1 8
    ∷ attempt 1 true
    ∷ commit 1 2300
    ∷ []

race_ends : statuses (run hash race (quiet two_rows)).table ≡ succeeded ∷ running ∷ []
unfolding run step attempt_start commit_start fail_start apply complete mark_started_notified
race_ends = refl

half_way : statuses (run hash (take 7 race) (quiet two_rows)).table ≡ running ∷ pending ∷ []
unfolding run step attempt_start commit_start fail_start apply complete mark_started_notified
half_way = refl

race-AllAllowed : AllAllowed hash race (quiet two_rows)
unfolding AllAllowed run step attempt_start commit_start fail_start apply complete
    mark_started_notified is_finished
race-AllAllowed = (
  tt,
  (
    tt,
    (
      λ e. e,
      (
        λ e. e,
        (tt, (tt, ((tt, tt), (tt, (λ e. e, (tt, ((refl, tt), (tt, (λ e. e, (tt, tt)))))))))),
      ),
    ),
  ),
)

run-IsExclusive_example : IsExclusive (run hash race (quiet two_rows)).table
run-IsExclusive_example = run-IsExclusive hash race two_rows race-AllAllowed two_rows-IsExclusive

-- The second session has its snapshot before the first commits, and tries its lock after that.
abbrev late_attempt : List Event
late_attempt =
    begin 0 7 ∷ begin 1 8 ∷ attempt 0 true ∷ commit 0 2000 ∷ attempt 1 true ∷ commit 1 2000 ∷ []

-- Both builds of the derivation run.
both_run : statuses (run hash late_attempt (quiet two_rows)).table ≡ running ∷ running ∷ []
unfolding run step attempt_start commit_start
both_run = refl
