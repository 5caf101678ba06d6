-- ===== src/Authorization/Native.antt =====
-- internal/api/authorization/native/native.go: authorization by the roles stored in Perses. The
-- echo context is what its readers find in it; the JWT library verifies the token before that.
-- The lists of the five DAOs are given by their results. The mutex is not modelled: an operation is one
-- step. Warnings and errors written to the log are left out.
pub mod Loading
pub mod Given
pub mod Access
pub mod Projects
pub mod Requests
use Prim.Native.String.{len}
use perses.Prelude.{
  String, Bool, true, false, List, [], ◌∷◌, ◌++◌, Option, none, some, ◌==◌, string_eq, not, ◌&&◌,
  ◌||◌, elems, if◌then◌else◌,
}
use perses.Prelude.GoMap.{GoMap, lookup, insert}
use perses.Prelude.Result.{Result, ok, err, internal, unauthorized, ◌>>=◌}
use perses.Model.Permission.{Action, Scope, Permission, create_action, project_scope}
use perses.Model.Role.{Role, GlobalRole}
use perses.Model.RoleBinding
use perses.Model.RoleBinding.{RoleBinding, GlobalRoleBinding}
use perses.Model.User.{User, wildcard_project}
use perses.Authorization.Permissions.{
  UsersPermissions, UserPermissions, add_entry, list_has_permission, has_permission, find_role,
  find_global_role, at_user, at_project,
}

pub record ProviderInfo : Type 0 where
  pub provider_kind : String
  pub provider_id : String

pub record JwtClaims : Type 0 where
  pub subject : String
  pub provider_info : ProviderInfo

-- echo.Context: nil, of an anonymous endpoint, with the token that the middleware stored, or without
-- a token under `user`.
pub data Context : Type 0 where
  nil anonymous no_token : Context
  token : JwtClaims → Context

pub record Native : Type 0 where
  pub permissions : UsersPermissions
  pub guest_permissions : List Permission

unfoldable pub get_user : Context → Result (Option JwtClaims)
get_user nil = ok none
get_user anonymous = ok none
get_user (token claims) = ok (some claims)
get_user no_token = err unauthorized

unfoldable pub get_username : Context → Result String
get_username ctx = do
  usr ← get_user ctx
  elim usr [ none ↦ ok "" | some claims ↦ ok claims.subject ]

unfoldable pub get_provider_info : Context → Result ProviderInfo
get_provider_info ctx = do
  usr ← get_user ctx
  elim usr [
    | none ↦ ok (record { provider_kind = ""; provider_id = "" })
    | some claims ↦ ok claims.provider_info
  ]

-- the loop over the projects of a user, "*" apart
unfoldable pub allowed_projects : UserPermissions → Action → Scope → List String
allowed_projects [] a s = []
allowed_projects ((project, perm_list) ∷ rest) a s =
    let projects = allowed_projects rest a s in
    if not (project == wildcard_project) && list_has_permission perm_list a s
    then project ∷ projects
    else projects

abbrev pub projects_of : UserPermissions → Action → Scope → List String
projects_of project_permission a s =
    if list_has_permission (at_project (lookup wildcard_project project_permission)) a s
    then wildcard_project ∷ []
    else allowed_projects project_permission a s

unfoldable pub get_user_projects : Native → Context → Action → Scope → Result (List String)
get_user_projects n ctx a s =
    if list_has_permission n.guest_permissions a s then ok (wildcard_project ∷ []) else do
      username ← get_username ctx
      if username == ""
          then err internal
          else ok (projects_of (at_user (lookup username n.permissions)) a s)

abbrev pub permission_of_user : Native → Result String → Action → String → Scope → Bool
permission_of_user n (err e) a p s = false
permission_of_user n (ok username) a p s =
    if username == ""
    then false
    else if list_has_permission n.guest_permissions a s
    then true
    else has_permission n.permissions username a p s

unfoldable pub has_request_permission : Native → Context → Action → String → Scope → Bool
has_request_permission n nil a p s = true
has_request_permission n anonymous a p s = true
has_request_permission n (token claims) a p s =
    permission_of_user n (get_username (token claims)) a p s
has_request_permission n no_token a p s = permission_of_user n (get_username no_token) a p s

unfoldable pub has_create_project_permission : Native → Context → String → Bool
has_create_project_permission n ctx project_name =
    has_request_permission n ctx create_action wildcard_project project_scope

-- for project, permissions := range ... { m[project] = append(m[project], permissions...) }
unfoldable pub append_permissions : UserPermissions → UserPermissions → UserPermissions
append_permissions [] m = m
append_permissions ((project, project_permissions) ∷ rest) m =
    append_permissions rest
      (insert project (at_project (lookup project m) ++ project_permissions) m)

unfoldable pub get_permissions : Native → Context → Result UserPermissions
get_permissions n ctx = do
  username ← get_username ctx
  if username == ""
      then err internal
      else ok (
          append_permissions (at_user (lookup username n.permissions))
            ((wildcard_project, n.guest_permissions) ∷ []))

-- The results of the List calls of the five DAOs.
pub record Lists : Type 0 where
  pub users : Result (List User)
  pub roles : Result (List Role)
  pub global_roles : Result (List GlobalRole)
  pub role_bindings : Result (List RoleBinding)
  pub global_role_bindings : Result (List GlobalRoleBinding)

-- for i := range rolePermissions { permissionBuild.addEntry(...) }
unfoldable pub add_permissions :
    String → String → List Permission → UsersPermissions → UsersPermissions
add_permissions user project [] m = m
add_permissions user project (x ∷ xs) m =
    add_permissions user project xs (add_entry user project x m)

abbrev pub permissions_of_global : Option GlobalRole → List Permission
permissions_of_global none = []
permissions_of_global (some r) = elems r.spec.permissions

abbrev pub permissions_of_role : Option Role → List Permission
permissions_of_role none = []
permissions_of_role (some r) = elems r.spec.permissions

-- the inner loop over the global bindings; a role that does not exist is skipped
unfoldable pub load_global_bindings :
    List GlobalRole → List GlobalRoleBinding → String → UsersPermissions → UsersPermissions
load_global_bindings roles [] user m = m
load_global_bindings roles (b ∷ rest) user m = load_global_bindings roles rest user (
    if RoleBinding.has b.spec "User" user
    then add_permissions user wildcard_project
        (permissions_of_global (find_global_role roles b.spec.role)) m
    else m)

unfoldable pub load_global :
    List GlobalRole → List GlobalRoleBinding → List User → UsersPermissions → UsersPermissions
load_global roles bindings [] m = m
load_global roles bindings (usr ∷ users) m =
    load_global roles bindings users (load_global_bindings roles bindings usr.metadata.name m)

-- the inner loop over the bindings of projects
unfoldable pub load_project_bindings :
    List Role → List RoleBinding → String → UsersPermissions → UsersPermissions
load_project_bindings roles [] user m = m
load_project_bindings roles (b ∷ rest) user m = load_project_bindings roles rest user (
    if RoleBinding.has b.spec "User" user
    then add_permissions user b.metadata.project
        (permissions_of_role (find_role roles b.metadata.project b.spec.role)) m
    else m)

unfoldable pub load_project :
    List Role → List RoleBinding → List User → UsersPermissions → UsersPermissions
load_project roles bindings [] m = m
load_project roles bindings (usr ∷ users) m =
    load_project roles bindings users (load_project_bindings roles bindings usr.metadata.name m)

unfoldable pub load_all_permissions : Lists → Result UsersPermissions
load_all_permissions lists = do
  users ← lists.users
  roles ← lists.roles
  global_roles ← lists.global_roles
  role_bindings ← lists.role_bindings
  global_role_bindings ← lists.global_role_bindings
  ok (
      load_project roles role_bindings users
        (load_global global_roles global_role_bindings users []))

abbrev install : Result UsersPermissions → Native → Result (Unit {0}) × Native
install (ok permissions) n = (ok tt, record n { permissions = permissions })
install (err e) n = (err e, n)

unfoldable pub refresh_permissions : Lists → Native → Result (Unit {0}) × Native
refresh_permissions lists n = install (load_all_permissions lists) n
