-- ===== src/Models/JobsetState.antt =====
-- crates/common/src/models.rs, `JobsetState`.
use circus.Common.{
  Bool, true, false, if◌then◌else◌, str_eq, String, ◌≡◌, refl, List, [], ◌∷◌, ParseError, Result,
  ok, match_arms, match_arms_sound,
}

pub data JobsetState : Type 0 where
  disabled enabled one_shot one_at_a_time : JobsetState

unfoldable pub as_str : JobsetState → String
as_str disabled = "disabled"
as_str enabled = "enabled"
as_str one_shot = "one_shot"
as_str one_at_a_time = "one_at_a_time"

abbrev arms : List (String × JobsetState)
arms =
    ("disabled", disabled)
    ∷ ("enabled", enabled)
    ∷ ("one_shot", one_shot)
    ∷ ("one_at_a_time", one_at_a_time)
    ∷ []

unfoldable pub from_str : String → Result ParseError JobsetState
from_str = match_arms "jobset state" arms

-- What is printed is read back.
pub from_str-as_str : (v : JobsetState) → from_str (as_str v) ≡ ok v
unfolding from_str as_str
from_str-as_str disabled = refl
from_str-as_str _ = refl

-- Nothing else is read as that value.
pub from_str_sound : (s : String) (v : JobsetState) → from_str s ≡ ok v → as_str v ≡ s
unfolding from_str as_str
from_str_sound s v h = match_arms_sound as_str "jobset state" arms s v refl h

unfoldable pub is_evaluable : JobsetState → Bool
is_evaluable enabled = true
is_evaluable one_shot = true
is_evaluable one_at_a_time = true
is_evaluable _ = false

-- The parser of declarative configuration: a text that is not known counts as `enabled`.
unfoldable pub from_config_str : String → JobsetState
from_config_str s =
    if str_eq s "disabled"
    then disabled
    else if str_eq s "one_shot"
    then one_shot
    else if str_eq s "one_at_a_time"
    then one_at_a_time
    else enabled
