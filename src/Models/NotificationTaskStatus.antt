-- ===== src/Models/NotificationTaskStatus.antt =====
-- crates/common/src/models.rs, `NotificationTaskStatus`.
use circus.Common.{
  String, ◌≡◌, refl, List, [], ◌∷◌, ParseError, Result, ok, match_arms, match_arms_sound,
}

pub data NotificationTaskStatus : Type 0 where
  pending running completed failed : NotificationTaskStatus

unfoldable pub as_db_str : NotificationTaskStatus → String
as_db_str pending = "pending"
as_db_str running = "running"
as_db_str completed = "completed"
as_db_str failed = "failed"

abbrev arms : List (String × NotificationTaskStatus)
arms =
    ("pending", pending) ∷ ("running", running) ∷ ("completed", completed) ∷ ("failed", failed) ∷ []

unfoldable pub from_str : String → Result ParseError NotificationTaskStatus
from_str = match_arms "notification task status" arms

-- What is printed is read back.
pub from_str-as_db_str : (v : NotificationTaskStatus) → from_str (as_db_str v) ≡ ok v
unfolding from_str as_db_str
from_str-as_db_str pending = refl
from_str-as_db_str _ = refl

-- Nothing else is read as that value.
pub from_str_sound : (s : String) (v : NotificationTaskStatus) → from_str s ≡ ok v → as_db_str v ≡ s
unfolding from_str as_db_str
from_str_sound s v h = match_arms_sound as_db_str "notification task status" arms s v refl h
