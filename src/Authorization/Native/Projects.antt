-- ===== src/Authorization/Native/Projects.antt =====
-- `GetUserProjects` against `HasPermission`.
use perses.Prelude.{
  String, ◌≡◌, Bool, true, false, not, List, [], ◌∷◌, ◌==◌, string_eq, beq_refl, Option, ◌&&◌, ◌||◌,
  inl, inr, contains, is_distinct, arith, Bool-cases,
}
use perses.Prelude.GoMap.{lookup, lookup-none, is_map, lookup-nil}
use perses.Prelude.Result.{ok}
use perses.Model.Permission.{Action, Scope, Permission}
use perses.Model.User.{wildcard_project}
use perses.Authorization.Permissions.{
  UserPermissions, list_has_permission, has_permission, project_has_permission, user_has_permission,
  at_user,
}
use perses.Authorization.Permissions.Search.{list_has_permission-nil}
use perses.Authorization.Native.{
  Native, token, JwtClaims, get_user, get_username, allowed_projects, projects_of,
  get_user_projects, has_request_permission,
}

contains-allowed_projects :
    (m : UserPermissions) (a : Action) (s : Scope) (p : String)
    → is_map m ≡ true
    → contains (allowed_projects m a s) p
      ≡ (not (p == wildcard_project) && project_has_permission (lookup p m) a s)
unfolding contains allowed_projects is_distinct lookup
contains-allowed_projects [] a s p d = ground arith
contains-allowed_projects ((j, l) ∷ m) a s p d = ground (
  arith,
  contains-allowed_projects m a s p,
  lookup-none p m,
  string_eq.beq_iff j p,
  string_eq.beq_iff j wildcard_project,
  string_eq.beq_iff p wildcard_project,
)

unfoldable pub covers : List String → String → Bool
covers projects p = contains projects p || contains projects wildcard_project

covers-projects_of :
    (o : Option UserPermissions) (a : Action) (s : Scope) (p : String)
    → is_map (at_user o) ≡ true
    → covers (projects_of (at_user o) a s) p ≡ user_has_permission o a p s
unfolding covers contains
covers-projects_of o a s p d = ground (
  arith,
  contains-allowed_projects (at_user o) a s p,
  contains-allowed_projects (at_user o) a s wildcard_project,
  list_has_permission-nil a s,
  lookup-nil {V = List Permission} p,
  lookup-nil {V = List Permission} wildcard_project,
  string_eq.beq_iff p wildcard_project,
  string_eq.beq_iff wildcard_project p,
  beq_refl string_eq wildcard_project,
)

covers-wildcard : (p : String) → covers (wildcard_project ∷ []) p ≡ true
unfolding covers contains
covers-wildcard p = ground (arith, beq_refl string_eq wildcard_project)

-- For a user with a name, `GetUserProjects` succeeds, and the projects that it returns cover a project,
-- by its name or by "*", exactly when `HasPermission` allows the same action and scope in it.
pub get_user_projects-has_request_permission :
    (n : Native) (c : JwtClaims) (a : Action) (s : Scope)
    → is_map (at_user (lookup c.subject n.permissions)) ≡ true
    → (c.subject == "") ≡ false
    → (projects : List String) × (get_user_projects n (token c) a s ≡ ok projects)
      × ((p : String) → covers projects p ≡ has_request_permission n (token c) a p s)
unfolding get_user_projects has_request_permission get_username get_user has_permission
get_user_projects-has_request_permission n c a s d named =
    let o = lookup c.subject n.permissions in
    elim (Bool-cases (list_has_permission n.guest_permissions a s)) [
      | inl guest ↦ (wildcard_project ∷ [], rw guest, λ p. ground (arith, covers-wildcard p))
      | inr other ↦ (
        projects_of (at_user o) a s,
        ground arith,
        λ p. ground (arith, covers-projects_of o a s p d),
      )
    ]
