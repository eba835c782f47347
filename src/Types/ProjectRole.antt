-- ===== src/Types/ProjectRole.antt =====
-- crates/types/src/lib.rs, `ProjectRole`.
use circus.Common.{
  ℕ, Bool, leb, String, ◌≡◌, refl, List, [], ◌∷◌, ParseError, Result, ok, match_arms,
  match_arms_sound,
}

pub data ProjectRole : Type 0 where
  member maintainer admin : ProjectRole

unfoldable pub as_str : ProjectRole → String
as_str member = "member"
as_str maintainer = "maintainer"
as_str admin = "admin"

abbrev arms : List (String × ProjectRole)
arms = ("member", member) ∷ ("maintainer", maintainer) ∷ ("admin", admin) ∷ []

unfoldable pub from_str : String → Result ParseError ProjectRole
from_str = match_arms "project role" arms

-- What is printed is read back.
pub from_str-as_str : (v : ProjectRole) → from_str (as_str v) ≡ ok v
unfolding from_str as_str
from_str-as_str member = refl
from_str-as_str _ = refl

-- Nothing else is read as that value.
pub from_str_sound : (s : String) (v : ProjectRole) → from_str s ≡ ok v → as_str v ≡ s
unfolding from_str as_str
from_str_sound s v h = match_arms_sound as_str "project role" arms s v refl h

-- The discriminants, by which the derived order compares.
abbrev rank : ProjectRole → ℕ
rank member = 1
rank maintainer = 2
rank admin = 3

-- `self >= required`.
unfoldable pub has_permission : ProjectRole → ProjectRole → Bool
has_permission self required = leb (rank required) (rank self)
