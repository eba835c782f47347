-- ===== src/Models/JobsetTriggerMode.antt =====
-- crates/common/src/models.rs, `JobsetTriggerMode`.
use circus.Common.{
  Bool, true, false, if◌then◌else◌, str_eq, String, ◌≡◌, refl, List, [], ◌∷◌, ParseError, Result,
  ok, match_arms, match_arms_sound,
}

pub data JobsetTriggerMode : Type 0 where
  source_change interval : JobsetTriggerMode

unfoldable pub as_str : JobsetTriggerMode → String
as_str source_change = "source_change"
as_str interval = "interval"

abbrev arms : List (String × JobsetTriggerMode)
arms = ("source_change", source_change) ∷ ("interval", interval) ∷ []

unfoldable pub from_str : String → Result ParseError JobsetTriggerMode
from_str = match_arms "jobset trigger mode" arms

-- What is printed is read back.
pub from_str-as_str : (v : JobsetTriggerMode) → from_str (as_str v) ≡ ok v
unfolding from_str as_str
from_str-as_str source_change = refl
from_str-as_str _ = refl

-- Nothing else is read as that value.
pub from_str_sound : (s : String) (v : JobsetTriggerMode) → from_str s ≡ ok v → as_str v ≡ s
unfolding from_str as_str
from_str_sound s v h = match_arms_sound as_str "jobset trigger mode" arms s v refl h

unfoldable pub accepts_source_triggers : JobsetTriggerMode → Bool
accepts_source_triggers source_change = true
accepts_source_triggers _ = false

-- The parser of declarative configuration: a text that is not known counts as `source_change`.
unfoldable pub from_config_str : String → JobsetTriggerMode
from_config_str s = if str_eq s "interval" then interval else source_change
