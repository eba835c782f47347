-- ===== src/Models/EvaluationStatus.antt =====
-- crates/common/src/models.rs, `EvaluationStatus`.
use circus.Common.{
  String, ◌≡◌, refl, List, [], ◌∷◌, ParseError, Result, ok, match_arms, match_arms_sound,
}

pub data EvaluationStatus : Type 0 where
  pending running completed failed cancelled timed_out : EvaluationStatus

unfoldable pub as_db_str : EvaluationStatus → String
as_db_str pending = "pending"
as_db_str running = "running"
as_db_str completed = "completed"
as_db_str failed = "failed"
as_db_str cancelled = "cancelled"
as_db_str timed_out = "timed_out"

abbrev arms : List (String × EvaluationStatus)
arms =
    ("pending", pending)
    ∷ ("running", running)
    ∷ ("completed", completed)
    ∷ ("failed", failed)
    ∷ ("cancelled", cancelled)
    ∷ ("timed_out", timed_out)
    ∷ []

unfoldable pub from_str : String → Result ParseError EvaluationStatus
from_str = match_arms "evaluation status" arms

-- What is printed is read back.
pub from_str-as_db_str : (v : EvaluationStatus) → from_str (as_db_str v) ≡ ok v
unfolding from_str as_db_str
from_str-as_db_str pending = refl
from_str-as_db_str _ = refl

-- Nothing else is read as that value.
pub from_str_sound : (s : String) (v : EvaluationStatus) → from_str s ≡ ok v → as_db_str v ≡ s
unfolding from_str as_db_str
from_str_sound s v h = match_arms_sound as_db_str "evaluation status" arms s v refl h
