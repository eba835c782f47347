-- ===== src/Server/Permissions/Policy.antt =====
-- crates/server/src/permissions.rs: the handlers and the dashboard follow one rule.
use circus.Common.{
  ◌≢◌, false, ◌≡◌, inl, inr, Option-cases, ◌↔◌, ◌⊎◌, Bool, true, none, some, arith, ok, err,
}
use circus.Types.GlobalRole.{GlobalRole}
use circus.Server.Permissions.{
  Permission, admin, bump_to_front, cancel_build, restart_jobs, create_projects, eval_jobset,
  Extensions, session_role, role_grants, check, role, require, require_api, from_extensions,
  UiPermissions, unauthorized, forbidden,
}

-- The flag of the dashboard for a permission.
abbrev pub shown : UiPermissions → Permission → Bool
shown ui admin = ui.admin
shown ui bump_to_front = ui.bump_to_front
shown ui cancel_build = ui.cancel_build
shown ui restart_jobs = ui.restart_jobs
shown ui create_projects = ui.create_projects
shown ui eval_jobset = ui.eval_jobset

-- Who may do what: the role of the user, or of the API key where there is no user, is that of an
-- administrator or of the permission itself.
pub record IsPermitted (x : Extensions) (permission : Permission) : Type 0 where
  pub as_role : GlobalRole
  pub session : session_role x ≡ some as_role
  pub granted : (as_role ≡ GlobalRole.admin) ⊎ (as_role ≡ role permission)

check_sound :
    (x : Extensions) (permission : Permission)
    → check x permission ≡ true
    → IsPermitted x permission
unfolding check role_grants
check_sound x permission h = elim (Option-cases (session_role x)) [
  | inl n ↦ ground (arith, n, h)
  | inr (r, e) ↦ record { as_role = r; session = e; granted = ground (arith, e, h) }
]

check_complete :
    (x : Extensions) (permission : Permission)
    → IsPermitted x permission
    → check x permission ≡ true
unfolding check role_grants
check_complete x permission p = ground (arith, p.session, p.granted)

require-eq-ok :
    (x : Extensions) (permission : Permission)
    → (require x permission ≡ ok tt) ↔ (check x permission ≡ true)
unfolding check require
require-eq-ok x permission = ground arith

require_api-eq-ok :
    (x : Extensions) (permission : Permission)
    → (require_api x permission ≡ ok tt) ↔ (check x permission ≡ true)
unfolding check require require_api
require_api-eq-ok x permission = ground arith

require-eq-unauthorized :
    (x : Extensions) (permission : Permission)
    → (require x permission ≡ err unauthorized) ↔ (session_role x ≡ none)
unfolding require
require-eq-unauthorized x permission = ground arith

require-eq-forbidden :
    (x : Extensions) (permission : Permission)
    → (require x permission ≡ err forbidden)
      ↔ ((session_role x ≢ none) × (check x permission ≡ false))
unfolding require check
require-eq-forbidden x permission = ground arith

shown-check :
    (x : Extensions) (permission : Permission)
    → shown (from_extensions x) permission ≡ check x permission
unfolding from_extensions
shown-check x permission = ground arith

-- A permission is granted exactly to the sessions that are permitted: administrators, and those whose role
-- is that of the permission. The handlers let exactly these pass, tell an anonymous session that it is
-- unauthorized and any other that it is forbidden, and the dashboard shows exactly these the action.
pub permissions_exact :
    (x : Extensions) (permission : Permission)
    → ((check x permission ≡ true) ↔ IsPermitted x permission)
      × ((require x permission ≡ ok tt) ↔ IsPermitted x permission)
      × ((require_api x permission ≡ ok tt) ↔ IsPermitted x permission)
      × ((require x permission ≡ err unauthorized) ↔ (session_role x ≡ none))
      × ((require x permission ≡ err forbidden)
          ↔ ((session_role x ≢ none) × (check x permission ≡ false)))
      × (shown (from_extensions x) permission ≡ check x permission)
permissions_exact x permission =
    let sound = check_sound x permission in
    let complete = check_complete x permission in
    let passes = require-eq-ok x permission in
    let api = require_api-eq-ok x permission in
    (
      (sound, complete),
      (λ e. sound (passes.0 e), λ p. passes.1 (complete p)),
      (λ e. sound (api.0 e), λ p. api.1 (complete p)),
      require-eq-unauthorized x permission,
      require-eq-forbidden x permission,
      shown-check x permission,
    )
