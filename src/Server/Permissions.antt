-- ===== src/Server/Permissions.antt =====
-- crates/server/src/permissions.rs: which sessions may exercise which permission. The extensions of a
-- request hold a user, an API key, both or neither, of which only the roles are read.
pub mod Policy
use circus.Common.{
  Bool, true, false, ◌||◌, Option, none, some, String, Result, ok, err, if◌then◌else◌,
}
use circus.Types.GlobalRole.{GlobalRole}
use circus.Types.GlobalRole

pub data Permission : Type 0 where
  admin bump_to_front cancel_build restart_jobs create_projects eval_jobset : Permission

unfoldable pub role : Permission → GlobalRole
role admin = GlobalRole.admin
role bump_to_front = GlobalRole.bump_to_front
role cancel_build = GlobalRole.cancel_build
role restart_jobs = GlobalRole.restart_jobs
role create_projects = GlobalRole.create_projects
role eval_jobset = GlobalRole.eval_jobset

pub record Extensions : Type 0 where
  pub user_role : Option GlobalRole
  pub api_key_role : Option GlobalRole

unfoldable pub session_role : Extensions → Option GlobalRole
session_role x = elim x.user_role [ some r ↦ some r | none ↦ x.api_key_role ]

-- The derived `PartialEq` of `GlobalRole`.
abbrev role_eq : GlobalRole → GlobalRole → Bool
role_eq GlobalRole.admin GlobalRole.admin = true
role_eq GlobalRole.read_only GlobalRole.read_only = true
role_eq GlobalRole.create_projects GlobalRole.create_projects = true
role_eq GlobalRole.eval_jobset GlobalRole.eval_jobset = true
role_eq GlobalRole.cancel_build GlobalRole.cancel_build = true
role_eq GlobalRole.restart_jobs GlobalRole.restart_jobs = true
role_eq GlobalRole.bump_to_front GlobalRole.bump_to_front = true
role_eq _ _ = false

unfoldable pub role_grants : GlobalRole → Permission → Bool
unfolding role
role_grants r permission = role_eq r GlobalRole.admin || role_eq r (role permission)

unfoldable pub check : Extensions → Permission → Bool
unfolding session_role role_grants
check x permission = elim (session_role x) [ none ↦ false | some r ↦ role_grants r permission ]

pub data StatusCode : Type 0 where
  unauthorized forbidden : StatusCode

unfoldable pub require : Extensions → Permission → Result {0, 0} StatusCode Unit
unfolding session_role role_grants
require x permission = elim (session_role x) [
  | none ↦ err unauthorized
  | some r ↦ if role_grants r permission then ok tt else err forbidden
]

pub data ApiError : Type 0 where
  forbidden_with : String → ApiError
  unauthorized_with : String → ApiError

abbrev api_error : StatusCode → ApiError
api_error forbidden = forbidden_with "Insufficient permissions"
api_error unauthorized = unauthorized_with "Authentication required"

unfoldable pub require_api : Extensions → Permission → Result {0, 0} ApiError Unit
unfolding require
require_api x permission = elim (require x permission) [ ok u ↦ ok u | err s ↦ err (api_error s) ]

pub record UiPermissions : Type 0 where
  pub admin : Bool
  pub bump_to_front : Bool
  pub cancel_build : Bool
  pub restart_jobs : Bool
  pub create_projects : Bool
  pub eval_jobset : Bool

unfoldable pub from_extensions : Extensions → UiPermissions
unfolding check
from_extensions x = record {
  admin = check x admin;
  bump_to_front = check x bump_to_front;
  cancel_build = check x cancel_build;
  restart_jobs = check x restart_jobs;
  create_projects = check x create_projects;
  eval_jobset = check x eval_jobset;
}
