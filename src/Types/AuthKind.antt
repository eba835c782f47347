-- ===== src/Types/AuthKind.antt =====
-- crates/types/src/lib.rs, `AuthKind`.
use circus.Common.{
  String, ◌≡◌, refl, List, [], ◌∷◌, ParseError, Result, ok, match_arms, match_arms_sound,
}

pub data AuthKind : Type 0 where
  token oidc : AuthKind

unfoldable pub as_str : AuthKind → String
as_str token = "token"
as_str oidc = "oidc"

abbrev arms : List (String × AuthKind)
arms = ("token", token) ∷ ("oidc", oidc) ∷ []

unfoldable pub from_str : String → Result ParseError AuthKind
from_str = match_arms "auth kind" arms

-- What is printed is read back.
pub from_str-as_str : (v : AuthKind) → from_str (as_str v) ≡ ok v
unfolding from_str as_str
from_str-as_str token = refl
from_str-as_str _ = refl

-- Nothing else is read as that value.
pub from_str_sound : (s : String) (v : AuthKind) → from_str s ≡ ok v → as_str v ≡ s
unfolding from_str as_str
from_str_sound s v h = match_arms_sound as_str "auth kind" arms s v refl h
