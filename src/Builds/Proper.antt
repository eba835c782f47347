-- ===== src/Builds/Proper.antt =====
-- What the callers of crates/common/src/repo/builds.rs give to the updates.
use circus.Common.{◌≡◌, true, List, [], ◌∷◌, none}
use circus.Models.BuildStatus.{pending, is_finished}
use circus.Builds.{Table, Statement, insert_row, start_build, complete_build, rows_of, apply}

-- The snapshot of a start is the table as it is.
abbrev pub IsCurrent : Statement → Table → Type 0
IsCurrent (start_build now lock unlocked seen id) t = seen ≡ t
IsCurrent _ t = Unit

-- A new row is pending, without times, under a new id (the defaults of the table), and `complete` is
-- given a finished status.
abbrev pub IsProper : Statement → Table → Type 0
IsProper (insert_row r) t =
    (r.status ≡ pending) × (r.started_at ≡ none) × (r.completed_at ≡ none) × (rows_of r.id t ≡ 0)
IsProper (complete_build now id c) t = is_finished c.status ≡ true
IsProper _ t = Unit

abbrev pub AllProper : List Statement → Table → Type 0
AllProper [] t = Unit
AllProper (s ∷ statements) t = IsProper s t × AllProper statements (apply s t)

abbrev pub AllCurrent : List Statement → Table → Type 0
AllCurrent [] t = Unit
AllCurrent (s ∷ statements) t = IsCurrent s t × AllCurrent statements (apply s t)
