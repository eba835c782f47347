-- ===== src/Types/ForgeType.antt =====
-- crates/types/src/lib.rs, `ForgeType`.
use circus.Common.{
  String, ◌≡◌, refl, List, [], ◌∷◌, ParseError, Result, ok, match_arms, match_arms_sound,
}

pub data ForgeType : Type 0 where
  github gitea forgejo gitlab : ForgeType

unfoldable pub as_str : ForgeType → String
as_str github = "github"
as_str gitea = "gitea"
as_str forgejo = "forgejo"
as_str gitlab = "gitlab"

abbrev arms : List (String × ForgeType)
arms = ("github", github) ∷ ("gitea", gitea) ∷ ("forgejo", forgejo) ∷ ("gitlab", gitlab) ∷ []

unfoldable pub from_str : String → Result ParseError ForgeType
from_str = match_arms "forge type" arms

-- What is printed is read back.
pub from_str-as_str : (v : ForgeType) → from_str (as_str v) ≡ ok v
unfolding from_str as_str
from_str-as_str github = refl
from_str-as_str _ = refl

-- Nothing else is read as that value.
pub from_str_sound : (s : String) (v : ForgeType) → from_str s ≡ ok v → as_str v ≡ s
unfolding from_str as_str
from_str_sound s v h = match_arms_sound as_str "forge type" arms s v refl h
