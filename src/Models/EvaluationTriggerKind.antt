-- ===== src/Models/EvaluationTriggerKind.antt =====
-- crates/common/src/models.rs, `EvaluationTriggerKind`.
use circus.Common.{
  String, ◌≡◌, refl, List, [], ◌∷◌, ParseError, Result, ok, match_arms, match_arms_sound,
}

pub data EvaluationTriggerKind : Type 0 where
  source_change manual interval : EvaluationTriggerKind

unfoldable pub as_db_str : EvaluationTriggerKind → String
as_db_str source_change = "source_change"
as_db_str manual = "manual"
as_db_str interval = "interval"

abbrev arms : List (String × EvaluationTriggerKind)
arms = ("source_change", source_change) ∷ ("manual", manual) ∷ ("interval", interval) ∷ []

unfoldable pub from_str : String → Result ParseError EvaluationTriggerKind
from_str = match_arms "evaluation trigger kind" arms

-- What is printed is read back.
pub from_str-as_db_str : (v : EvaluationTriggerKind) → from_str (as_db_str v) ≡ ok v
unfolding from_str as_db_str
from_str-as_db_str source_change = refl
from_str-as_db_str _ = refl

-- Nothing else is read as that value.
pub from_str_sound : (s : String) (v : EvaluationTriggerKind) → from_str s ≡ ok v → as_db_str v ≡ s
unfolding from_str as_db_str
from_str_sound s v h = match_arms_sound as_db_str "evaluation trigger kind" arms s v refl h
