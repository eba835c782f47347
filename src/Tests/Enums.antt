-- ===== src/Tests/Enums.antt =====
-- Tests of the enums, of paging and of the patterns.
use circus.Common.{◌≡◌, ◌↔◌, true, [], ◌∷◌, some, ok}
use circus.Common.Int.{pos, negsuc}
use circus.Models.EvaluationStatus
use circus.Models.EvaluationTriggerKind
use circus.Models.JobsetState
use circus.Models.JobsetTriggerMode
use circus.Models.BuildStatus
use circus.Models.BuildStatus.{
  is_terminal, is_finished, is_success, from_i32, as_i32, from_exit_code,
}
use circus.Models.UserType
use circus.Models.NotificationTaskStatus
use circus.Models.Spelling.{column_enums_exact}
use circus.Models.Pagination.{PaginationParams}
use circus.Glob.{glob_matches}
use circus.Glob.Meaning.{Matches, glob_matches_iff}

abbrev second_page : PaginationParams
second_page = record { limit = some (pos 50); offset = some (pos 50) }

abbrev wild_page : PaginationParams
wild_page = record { limit = some (pos 5000); offset = some (negsuc 9) }

glob_matches_iff_example :
    (glob_matches (b'r' ∷ b'*' ∷ []) (b'r' ∷ b'c' ∷ []) ≡ true)
    ↔ Matches (b'r' ∷ b'*' ∷ []) (b'r' ∷ b'c' ∷ [])
glob_matches_iff_example = glob_matches_iff (b'r' ∷ b'*' ∷ []) (b'r' ∷ b'c' ∷ [])

column_enums_exact_example :
    ((EvaluationStatus.from_str "pending" ≡ ok EvaluationStatus.pending)
      ↔ (EvaluationStatus.as_db_str EvaluationStatus.pending ≡ "pending"))
    × ((EvaluationTriggerKind.from_str "pending" ≡ ok EvaluationTriggerKind.manual)
        ↔ (EvaluationTriggerKind.as_db_str EvaluationTriggerKind.manual ≡ "pending"))
    × ((JobsetState.from_str "pending" ≡ ok JobsetState.disabled)
        ↔ (JobsetState.as_str JobsetState.disabled ≡ "pending"))
    × ((JobsetTriggerMode.from_str "pending" ≡ ok JobsetTriggerMode.interval)
        ↔ (JobsetTriggerMode.as_str JobsetTriggerMode.interval ≡ "pending"))
    × ((BuildStatus.from_str "pending" ≡ ok BuildStatus.pending)
        ↔ (BuildStatus.as_db_str BuildStatus.pending ≡ "pending"))
    × ((UserType.from_str "pending" ≡ ok UserType.local)
        ↔ (UserType.as_db_str UserType.local ≡ "pending"))
    × ((NotificationTaskStatus.from_str "pending" ≡ ok NotificationTaskStatus.pending)
        ↔ (NotificationTaskStatus.as_db_str NotificationTaskStatus.pending ≡ "pending"))
column_enums_exact_example =
    column_enums_exact "pending" EvaluationStatus.pending EvaluationTriggerKind.manual
      JobsetState.disabled JobsetTriggerMode.interval BuildStatus.pending UserType.local
      NotificationTaskStatus.pending
