-- ===== src/Examples/Access.antt =====
-- A user "ada" with the role "viewer" in the project "p", who may read dashboards there.
use perses.Prelude.{
  String, ◌≡◌, refl, ◌≢◌, ◌↔◌, true, List, [], ◌∷◌, ◌++◌, some, ◌==◌, string_eq, ◌⊎◌, inl, inr,
  ◌&&◌, ◌||◌, if◌then◌else◌, is_distinct, contains,
}
use perses.Prelude.GoMap.{is_map, lookup}
use perses.Prelude.Result.{Error, ok, err, internal}
use perses.Model.Metadata.{Metadata}
use perses.Model.Permission.{Permission}
use perses.Model.Role.{Role}
use perses.Model.RoleBinding.{RoleBinding}
use perses.Model.User.{User, wildcard_project}
use perses.Authorization.Permissions.{
  UsersPermissions, add_entry, list_has_permission, has_permission, at_user,
}
use perses.Authorization.Permissions.Entries.{entries, entries-add_entry}
use perses.Authorization.Permissions.Search.{
  Permits, Holds, list_has_permission_iff, has_permission-entries,
}
use perses.Authorization.Native.{
  Native, JwtClaims, token, Lists, refresh_permissions, has_request_permission, get_user_projects,
}
use perses.Authorization.Native.Given.{IsUser}
use perses.Authorization.Native.Access.{read, Given, has_permission-refresh_permissions}
use perses.Authorization.Native.Projects.{covers, get_user_projects-has_request_permission}
use perses.Authorization.Native.Requests.{
  refresh_permissions-Failed, has_request_permission-refresh_permissions,
}

abbrev named : String → Metadata
named n = record { name = n; created_at = 0; updated_at = 0; version = 0; tags = [] }

abbrev pub ada : User
ada = record {
  kind = "User";
  metadata = named "ada";
  spec = record {
    first_name = "";
    last_name = "";
    native_provider = record { password = "" };
    oauth_providers = [];
  };
}

abbrev pub reading : Permission
reading = record { actions = "read" ∷ []; scopes = "Dashboard" ∷ [] }

abbrev pub viewer : Role
viewer = record {
  kind = "Role";
  metadata = record { metadata = named "viewer"; project = "p" };
  spec = record { permissions = some (reading ∷ []) };
}

abbrev pub ada_views : RoleBinding
ada_views = record {
  kind = "RoleBinding";
  metadata = record { metadata = named "binding"; project = "p" };
  spec = record { role = "viewer"; subjects = some (record { kind = "User"; name = "ada" } ∷ []) };
}

abbrev pub of_ada : UsersPermissions
of_ada = ("ada", ("p", reading ∷ []) ∷ []) ∷ []

abbrev pub with_ada : Native
with_ada = record { permissions = of_ada; guest_permissions = [] }

abbrev pub claims_of_ada : JwtClaims
claims_of_ada = record {
  subject = "ada";
  provider_info = record { provider_kind = ""; provider_id = "" };
}

abbrev user_name : String
user_name = "ada"

abbrev other_project : String
other_project = "q"

entries-add_entry_example : entries (add_entry "ada" "q" reading of_ada) "ada" "p" ≡ (
    if user_name == "ada" && other_project == "p"
    then entries of_ada "ada" "p" ++ reading ∷ []
    else entries of_ada "ada" "p")
entries-add_entry_example = entries-add_entry of_ada "ada" "q" "ada" "p" reading

list_has_permission_iff_example :
    (list_has_permission (reading ∷ []) "read" "Dashboard" ≡ true)
    ↔ Holds (reading ∷ []) "read" "Dashboard"
list_has_permission_iff_example = list_has_permission_iff (reading ∷ []) "read" "Dashboard"

has_permission-entries_example : has_permission of_ada "ada" "read" "p" "Dashboard" ≡ (
    list_has_permission (entries of_ada "ada" wildcard_project) "read" "Dashboard"
    || list_has_permission (entries of_ada "ada" "p") "read" "Dashboard")
has_permission-entries_example = has_permission-entries of_ada "ada" "read" "p" "Dashboard"

has_permission-refresh_permissions_example :
    let lists = read (ada ∷ []) (viewer ∷ []) [] (ada_views ∷ []) [] in
    let cache = (refresh_permissions lists with_ada).1.permissions in
    (has_permission cache "ada" "read" "p" "Dashboard" ≡ true) ↔ (
      IsUser (ada ∷ []) "ada"
      × ((x : Permission) × Given (ada ∷ []) (viewer ∷ []) [] (ada_views ∷ []) [] "ada" "p" x
          × Permits x "read" "Dashboard"))
has_permission-refresh_permissions_example =
    has_permission-refresh_permissions (ada ∷ []) (viewer ∷ []) [] (ada_views ∷ []) [] with_ada
      "ada" "read" "p" "Dashboard"

has_request_permission-refresh_permissions_example :
    let after =
      (refresh_permissions (read (ada ∷ []) (viewer ∷ []) [] (ada_views ∷ []) []) with_ada).1 in
    (has_request_permission after (token claims_of_ada) "read" "p" "Dashboard" ≡ true) ↔ (
      (user_name ≢ "")
      × (Holds [] "read" "Dashboard"
          ⊎ (IsUser (ada ∷ []) "ada"
              × ((x : Permission) × Given
                    (ada ∷ [])
                    (viewer ∷ [])
                    []
                    (ada_views ∷ [])
                    []
                    "ada"
                    "p"
                    x
                  × Permits x "read" "Dashboard"))))
has_request_permission-refresh_permissions_example =
    has_request_permission-refresh_permissions (ada ∷ []) (viewer ∷ []) [] (ada_views ∷ []) []
      with_ada claims_of_ada "read" "p" "Dashboard"

abbrev unreadable : Lists
unreadable = record {
  users = ok (ada ∷ []);
  roles = err internal;
  global_roles = ok [];
  role_bindings = ok [];
  global_role_bindings = ok [];
}

refresh_permissions-Failed_example :
    (e : Error) × (refresh_permissions unreadable with_ada ≡ (err e, with_ada))
refresh_permissions-Failed_example = refresh_permissions-Failed unreadable with_ada (inr (inl tt))

pub of_ada-is_map : is_map (at_user (lookup "ada" of_ada)) ≡ true
unfolding is_distinct contains lookup
of_ada-is_map = refl

get_user_projects-has_request_permission_example :
    (projects : List String) × (get_user_projects with_ada (token claims_of_ada) "read" "Dashboard"
      ≡ ok projects)
    × ((p : String)
        → covers projects p
          ≡ has_request_permission with_ada (token claims_of_ada) "read" p "Dashboard")
get_user_projects-has_request_permission_example =
    get_user_projects-has_request_permission with_ada claims_of_ada "read" "Dashboard" of_ada-is_map
      refl
