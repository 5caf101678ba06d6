-- ===== src/Authorization/Permissions.antt =====
-- internal/api/authorization/native/permissions.go: the permissions of all users, by user and
-- project, with "*" for the global ones. Go keeps a pointer to each permission; nothing writes
-- through these, so the model keeps the permission itself.
pub mod Entries
pub mod Search
use perses.Prelude.{
  String, Bool, true, false, List, [], ◌∷◌, ◌++◌, Option, none, some, ◌==◌, string_eq, not, ◌&&◌,
  ◌||◌, if◌then◌else◌,
}
use perses.Prelude.GoMap.{GoMap, lookup, insert}
use perses.Model.Permission.{Action, Scope, Permission, wildcard_action, wildcard_scope}
use perses.Model.Role.{Role, GlobalRole}
use perses.Model.User.{wildcard_project}

abbrev pub UserPermissions : Type 0
UserPermissions = GoMap String (List Permission)

abbrev pub UsersPermissions : Type 0
UsersPermissions = GoMap String UserPermissions

-- The value at a key that the two tests before it have just put there.
abbrev pub at_user : Option UserPermissions → UserPermissions
at_user none = []
at_user (some m) = m

abbrev pub at_project : Option (List Permission) → List Permission
at_project none = []
at_project (some l) = l

-- if _, ok := p[user]; !ok { p[user] = make(...) }
unfoldable pub ensure_user : String → UsersPermissions → UsersPermissions
ensure_user user p = elim (lookup user p) [ none ↦ insert user [] p | some _ ↦ p ]

-- if _, ok := p[user][project]; !ok { p[user][project] = make(...) }
unfoldable pub ensure_project : String → UserPermissions → UserPermissions
ensure_project project m = elim (lookup project m) [ none ↦ insert project [] m | some _ ↦ m ]

unfoldable pub add_entry : String → String → Permission → UsersPermissions → UsersPermissions
add_entry user project permission p =
    let q = ensure_user user p in
    let m = ensure_project project (at_user (lookup user q)) in
    insert user (insert project (at_project (lookup project m) ++ permission ∷ []) m) q

unfoldable pub has_scope : List Scope → Scope → Bool
has_scope [] request_scope = false
has_scope (scope ∷ rest) request_scope =
    scope == request_scope || scope == wildcard_scope || has_scope rest request_scope

-- The loop over the actions looks through the scopes at each action that fits, and goes on to the
-- next action when no scope fits.
unfoldable pub has_action : List Action → List Scope → Action → Scope → Bool
has_action [] scopes request_action request_scope = false
has_action (action ∷ rest) scopes request_action request_scope =
    (action == request_action || action == wildcard_action) && has_scope scopes request_scope
    || has_action rest scopes request_action request_scope

unfoldable pub list_has_permission : List Permission → Action → Scope → Bool
list_has_permission [] request_action request_scope = false
list_has_permission (permission ∷ rest) request_action request_scope =
    has_action permission.actions permission.scopes request_action request_scope
    || list_has_permission rest request_action request_scope

abbrev pub project_has_permission : Option (List Permission) → Action → Scope → Bool
project_has_permission none a s = false
project_has_permission (some l) a s = list_has_permission l a s

abbrev pub user_has_permission : Option UserPermissions → Action → String → Scope → Bool
user_has_permission none a p s = false
user_has_permission (some m) a p s =
    if not (p == wildcard_project) && project_has_permission (lookup wildcard_project m) a s
    then true
    else project_has_permission (lookup p m) a s

unfoldable pub has_permission : UsersPermissions → String → Action → String → Scope → Bool
has_permission permissions user request_action request_project request_scope =
    user_has_permission (lookup user permissions) request_action request_project request_scope

unfoldable pub find_role : List Role → String → String → Option Role
find_role [] project name = none
find_role (rle ∷ roles) project name =
    if rle.metadata.name == name && rle.metadata.project == project
    then some rle
    else find_role roles project name

unfoldable pub find_global_role : List GlobalRole → String → Option GlobalRole
find_global_role [] name = none
find_global_role (grle ∷ roles) name =
    if grle.metadata.name == name then some grle else find_global_role roles name
