-- ===== src/Types/GlobalRole.antt =====
-- crates/types/src/lib.rs, `GlobalRole`.
use circus.Common.{
  String, ◌≡◌, refl, List, [], ◌∷◌, ParseError, Result, ok, match_arms, match_arms_sound,
}

pub data GlobalRole : Type 0 where
  admin read_only create_projects eval_jobset cancel_build restart_jobs bump_to_front : GlobalRole

unfoldable pub as_str : GlobalRole → String
as_str admin = "admin"
as_str read_only = "read-only"
as_str create_projects = "create-projects"
as_str eval_jobset = "eval-jobset"
as_str cancel_build = "cancel-build"
as_str restart_jobs = "restart-jobs"
as_str bump_to_front = "bump-to-front"

abbrev arms : List (String × GlobalRole)
arms =
    ("admin", admin)
    ∷ ("read-only", read_only)
    ∷ ("create-projects", create_projects)
    ∷ ("eval-jobset", eval_jobset)
    ∷ ("cancel-build", cancel_build)
    ∷ ("restart-jobs", restart_jobs)
    ∷ ("bump-to-front", bump_to_front)
    ∷ []

unfoldable pub from_str : String → Result ParseError GlobalRole
from_str = match_arms "global role" arms

-- What is printed is read back.
pub from_str-as_str : (v : GlobalRole) → from_str (as_str v) ≡ ok v
unfolding from_str as_str
from_str-as_str admin = refl
from_str-as_str _ = refl

-- Nothing else is read as that value.
pub from_str_sound : (s : String) (v : GlobalRole) → from_str s ≡ ok v → as_str v ≡ s
unfolding from_str as_str
from_str_sound s v h = match_arms_sound as_str "global role" arms s v refl h
