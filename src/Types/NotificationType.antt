-- ===== src/Types/NotificationType.antt =====
-- crates/types/src/lib.rs, `NotificationType`.
use circus.Common.{
  String, ◌≡◌, refl, List, [], ◌∷◌, ParseError, Result, ok, match_arms, match_arms_sound,
}

pub data NotificationType : Type 0 where
  github_status gitea_status forgejo_status gitlab_status webhook slack email : NotificationType

unfoldable pub as_str : NotificationType → String
as_str github_status = "github_status"
as_str gitea_status = "gitea_status"
as_str forgejo_status = "forgejo_status"
as_str gitlab_status = "gitlab_status"
as_str webhook = "webhook"
as_str slack = "slack"
as_str email = "email"

abbrev arms : List (String × NotificationType)
arms =
    ("github_status", github_status)
    ∷ ("gitea_status", gitea_status)
    ∷ ("forgejo_status", forgejo_status)
    ∷ ("gitlab_status", gitlab_status)
    ∷ ("webhook", webhook)
    ∷ ("slack", slack)
    ∷ ("email", email)
    ∷ []

unfoldable pub from_str : String → Result ParseError NotificationType
from_str = match_arms "notification type" arms

-- What is printed is read back.
pub from_str-as_str : (v : NotificationType) → from_str (as_str v) ≡ ok v
unfolding from_str as_str
from_str-as_str github_status = refl
from_str-as_str _ = refl

-- Nothing else is read as that value.
pub from_str_sound : (s : String) (v : NotificationType) → from_str s ≡ ok v → as_str v ≡ s
unfolding from_str as_str
from_str_sound s v h = match_arms_sound as_str "notification type" arms s v refl h
