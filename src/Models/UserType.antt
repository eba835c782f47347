-- ===== src/Models/UserType.antt =====
-- crates/common/src/models.rs, `UserType`.
use circus.Common.{
  String, ◌≡◌, refl, List, [], ◌∷◌, ParseError, Result, ok, match_arms, match_arms_sound,
}

pub data UserType : Type 0 where
  local github google ldap : UserType

unfoldable pub as_db_str : UserType → String
as_db_str local = "local"
as_db_str github = "github"
as_db_str google = "google"
as_db_str ldap = "ldap"

abbrev arms : List (String × UserType)
arms = ("local", local) ∷ ("github", github) ∷ ("google", google) ∷ ("ldap", ldap) ∷ []

unfoldable pub from_str : String → Result ParseError UserType
from_str = match_arms "user type" arms

-- What is printed is read back.
pub from_str-as_db_str : (v : UserType) → from_str (as_db_str v) ≡ ok v
unfolding from_str as_db_str
from_str-as_db_str local = refl
from_str-as_db_str _ = refl

-- Nothing else is read as that value.
pub from_str_sound : (s : String) (v : UserType) → from_str s ≡ ok v → as_db_str v ≡ s
unfolding from_str as_db_str
from_str_sound s v h = match_arms_sound as_db_str "user type" arms s v refl h
