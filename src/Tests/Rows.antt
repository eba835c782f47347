-- ===== src/Tests/Rows.antt =====
-- Tests of the rows of builds.
use circus.Common.{◌≡◌, refl, true, List, [], ◌∷◌, none, some, arith, All}
use circus.Models.BuildStatus.{BuildStatus, running, succeeded, is_finished}
use circus.Models.Rows.{Build}
use circus.Builds.{
  Table, set_started, set_completed, Statement, start_build, complete_build, Completion, start,
  apply, complete, apply_all,
}
use circus.Builds.Proper.{AllProper}
use circus.Builds.Once.{IsExclusive}
use circus.Builds.Valid.{IsTimed, apply_all-IsTimed}
use circus.Tests.{kvm_build}

-- Two evaluations ask for the same derivation.
abbrev twin : Build
twin = record kvm_build { id = 8; evaluation_id = 80 }

abbrev pub two_rows : Table
two_rows = kvm_build ∷ twin ∷ []

pub two_rows-IsExclusive : IsExclusive two_rows
two_rows-IsExclusive = record { keyed = λ id. ground arith; once = λ drv. ground arith }

pub two_rows-IsTimed : All IsTimed two_rows
unfolding IsTimed
two_rows-IsTimed = ((refl, refl), ((refl, refl), tt))

abbrev pub done : Completion
done = record {
  status = succeeded;
  log_path = none;
  build_output_path = some "/nix/store/hello";
  error_message = none;
}

abbrev one_runs : Table
one_runs = set_started 2000 kvm_build ∷ twin ∷ []

abbrev one_done : Table
one_done = set_completed 2200 done (set_started 2000 kvm_build) ∷ twin ∷ []

-- The twin is refused while the first runs, and starts when it is done.
abbrev day : List Statement
day =
    start_build 2000 true true two_rows 7
    ∷ start_build 2100 true true one_runs 8
    ∷ complete_build 2200 7 done
    ∷ start_build 2300 true true one_done 8
    ∷ []

day-AllProper : AllProper day two_rows
unfolding is_finished
day-AllProper = (tt, (tt, (refl, (tt, tt))))

abbrev pub statuses : Table → List BuildStatus
statuses [] = []
statuses (r ∷ t) = r.status ∷ statuses t

day_ends : statuses (apply_all day two_rows) ≡ succeeded ∷ running ∷ []
unfolding apply_all apply start complete
day_ends = refl

apply_all-IsTimed_example : All IsTimed (apply_all day two_rows)
apply_all-IsTimed_example = apply_all-IsTimed day two_rows day-AllProper two_rows-IsTimed
