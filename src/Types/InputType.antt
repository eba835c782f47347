-- ===== src/Types/InputType.antt =====
-- crates/types/src/lib.rs, `InputType`.
use circus.Common.{
  String, ◌≡◌, refl, List, [], ◌∷◌, ParseError, Result, ok, match_arms, match_arms_sound,
}

pub data InputType : Type 0 where
  git string boolean build : InputType

unfoldable pub as_str : InputType → String
as_str git = "git"
as_str string = "string"
as_str boolean = "boolean"
as_str build = "build"

abbrev arms : List (String × InputType)
arms = ("git", git) ∷ ("string", string) ∷ ("boolean", boolean) ∷ ("build", build) ∷ []

unfoldable pub from_str : String → Result ParseError InputType
from_str = match_arms "jobset input type" arms

-- What is printed is read back.
pub from_str-as_str : (v : InputType) → from_str (as_str v) ≡ ok v
unfolding from_str as_str
from_str-as_str git = refl
from_str-as_str _ = refl

-- Nothing else is read as that value.
pub from_str_sound : (s : String) (v : InputType) → from_str s ≡ ok v → as_str v ≡ s
unfolding from_str as_str
from_str_sound s v h = match_arms_sound as_str "jobset input type" arms s v refl h
