-- ===== src/Models/Spelling.antt =====
-- crates/common/src/models.rs: the spellings of the column enums and their parsers agree, and the
-- parsers of declarative configuration extend the strict ones.
use circus.Common.{String, ◌≡◌, ◌↔◌, Result, ok, err, ParseError, arith, eq_iff, parse_iff}
use circus.Models.EvaluationStatus
use circus.Models.EvaluationStatus.{EvaluationStatus}
use circus.Models.EvaluationTriggerKind
use circus.Models.EvaluationTriggerKind.{EvaluationTriggerKind}
use circus.Models.JobsetState
use circus.Models.JobsetState.{JobsetState}
use circus.Models.JobsetTriggerMode
use circus.Models.JobsetTriggerMode.{JobsetTriggerMode}
use circus.Models.BuildStatus
use circus.Models.BuildStatus.{BuildStatus}
use circus.Models.UserType
use circus.Models.UserType.{UserType}
use circus.Models.NotificationTaskStatus
use circus.Models.NotificationTaskStatus.{NotificationTaskStatus}

-- For each of the seven enums that the database columns hold, `FromStr` returns a value on a text
-- exactly when the text is that value's database spelling, and refuses every other text.
pub column_enums_exact :
    (s : String) (e : EvaluationStatus) (k : EvaluationTriggerKind) (j : JobsetState)
    (m : JobsetTriggerMode) (b : BuildStatus) (u : UserType) (n : NotificationTaskStatus)
    → ((EvaluationStatus.from_str s ≡ ok e) ↔ (EvaluationStatus.as_db_str e ≡ s))
      × ((EvaluationTriggerKind.from_str s ≡ ok k) ↔ (EvaluationTriggerKind.as_db_str k ≡ s))
      × ((JobsetState.from_str s ≡ ok j) ↔ (JobsetState.as_str j ≡ s))
      × ((JobsetTriggerMode.from_str s ≡ ok m) ↔ (JobsetTriggerMode.as_str m ≡ s))
      × ((BuildStatus.from_str s ≡ ok b) ↔ (BuildStatus.as_db_str b ≡ s))
      × ((UserType.from_str s ≡ ok u) ↔ (UserType.as_db_str u ≡ s))
      × ((NotificationTaskStatus.from_str s ≡ ok n) ↔ (NotificationTaskStatus.as_db_str n ≡ s))
column_enums_exact s e k j m b u n = (
  parse_iff EvaluationStatus.as_db_str EvaluationStatus.from_str EvaluationStatus.from_str_sound
      EvaluationStatus.from_str-as_db_str s e,
  parse_iff EvaluationTriggerKind.as_db_str EvaluationTriggerKind.from_str
      EvaluationTriggerKind.from_str_sound EvaluationTriggerKind.from_str-as_db_str s k,
  parse_iff JobsetState.as_str JobsetState.from_str JobsetState.from_str_sound
      JobsetState.from_str-as_str s j,
  parse_iff JobsetTriggerMode.as_str JobsetTriggerMode.from_str JobsetTriggerMode.from_str_sound
      JobsetTriggerMode.from_str-as_str s m,
  parse_iff BuildStatus.as_db_str BuildStatus.from_str BuildStatus.from_str_sound
      BuildStatus.from_str-as_db_str s b,
  parse_iff UserType.as_db_str UserType.from_str UserType.from_str_sound UserType.from_str-as_db_str
      s u,
  parse_iff NotificationTaskStatus.as_db_str NotificationTaskStatus.from_str
      NotificationTaskStatus.from_str_sound NotificationTaskStatus.from_str-as_db_str s n,
)

-- What a strict parser accepts, and a default where it refuses.
abbrev pub or_default : {A : Type 0} → A → Result ParseError A → A
or_default d (ok a) = a
or_default d (err e) = d

-- The configuration parsers return what `FromStr` returns where that accepts the text, and the
-- defaults `enabled` and `source_change` on every other text.
from_config_str-extends :
    (s : String)
    → (JobsetState.from_config_str s ≡ or_default JobsetState.enabled (JobsetState.from_str s))
      × (JobsetTriggerMode.from_config_str s
          ≡ or_default JobsetTriggerMode.source_change (JobsetTriggerMode.from_str s))
unfolding JobsetState.from_config_str JobsetState.from_str JobsetTriggerMode.from_config_str
    JobsetTriggerMode.from_str
from_config_str-extends s = ground (
  arith,
  eq_iff s "disabled",
  eq_iff s "enabled",
  eq_iff s "one_shot",
  eq_iff s "one_at_a_time",
  eq_iff s "source_change",
  eq_iff s "interval",
  eq_iff "enabled" "one_shot",
  eq_iff "enabled" "one_at_a_time",
  eq_iff "interval" "source_change",
)
