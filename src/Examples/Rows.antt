-- ===== src/Examples/Rows.antt =====
-- The user "ada", who reads the project "p", lists its dashboards.
use perses.Prelude.{String, ◌≡◌, refl, [], ◌∷◌, In, contains}
use perses.Prelude.GoMap.{lookup}
use perses.Prelude.Text.{to_lower, by_lower}
use perses.Prelude.Result.{ok}
use perses.Model.Permission.{Scope, get_scope, is_global_scope}
use perses.Authorization.Permissions.{list_has_permission, has_permission, has_action, has_scope}
use perses.Authorization.Native.{
  token, has_request_permission, get_user_projects, allowed_projects, get_username, get_user,
}
use perses.Toolbox.{check_permission_list}
use perses.Toolbox.Listing.{
  list, list_when_permission_is_activated, list_for, metadata_or_full_list,
}
use perses.Toolbox.Native.{native_authorization, IsRead, list-IsRead}
use perses.Examples.Access.{with_ada, claims_of_ada, of_ada-is_map}
use perses.Examples.Requests.{two_rows, all_of_p, full_query}

ada_lists :
    list two_rows
      (λ r. r)
      (native_authorization with_ada (token claims_of_ada))
      "Dashboard"
      all_of_p
      full_query
    ≡ ok ("d" ∷ "e" ∷ [])
unfolding list list_when_permission_is_activated list_for metadata_or_full_list get_scope by_lower
    to_lower check_permission_list is_global_scope contains native_authorization
    has_request_permission get_user_projects allowed_projects list_has_permission has_permission
    has_action has_scope get_username get_user lookup
ada_lists = refl

list-IsRead_example :
    (scope : Scope) × (get_scope "Dashboard" ≡ ok scope)
    × ((row : String)
        → In row ("d" ∷ "e" ∷ [])
        → IsRead two_rows (λ r. r) with_ada claims_of_ada scope full_query row)
list-IsRead_example =
    list-IsRead two_rows (λ r. r) with_ada claims_of_ada "Dashboard" all_of_p full_query
      ("d" ∷ "e" ∷ []) of_ada-is_map refl ada_lists
