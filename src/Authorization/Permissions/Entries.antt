-- ===== src/Authorization/Permissions/Entries.antt =====
-- What a sequence of `addEntry` calls leaves at each user and project.
use perses.Prelude.{String, ◌≡◌, List, [], ◌∷◌, ◌++◌, ◌==◌, string_eq, ◌&&◌, arith, if◌then◌else◌}
use perses.Prelude.GoMap.{lookup, insert, lookup-insert, lookup-nil}
use perses.Model.Permission.{Permission}
use perses.Authorization.Permissions.{
  UsersPermissions, UserPermissions, at_user, at_project, add_entry, ensure_user, ensure_project,
}

-- The permissions of a user at a project, in the order in which they were added.
unfoldable pub entries : UsersPermissions → String → String → List Permission
entries p user project = at_project (lookup project (at_user (lookup user p)))

at_user-ensure_user :
    (p : UsersPermissions) (u v : String)
    → at_user (lookup v (ensure_user u p)) ≡ at_user (lookup v p)
unfolding ensure_user
at_user-ensure_user p u v = ground (arith, lookup-insert u v [] p, string_eq.beq_iff u v)

at_project-ensure_project :
    (m : UserPermissions) (q r : String)
    → at_project (lookup r (ensure_project q m)) ≡ at_project (lookup r m)
unfolding ensure_project
at_project-ensure_project m q r = ground (arith, lookup-insert q r [] m, string_eq.beq_iff q r)

-- One entry goes to the end of the list of its user and project, and to no other list.
pub entries-add_entry :
    (p : UsersPermissions) (u q v r : String) (x : Permission)
    → entries (add_entry u q x p) v r
      ≡ (if u == v && q == r then entries p v r ++ x ∷ [] else entries p v r)
unfolding entries add_entry
entries-add_entry p u q v r x =
    let users = ensure_user u p in
    let old = at_user (lookup u users) in
    let m = ensure_project q old in
    let l = at_project (lookup q m) ++ x ∷ [] in
    ground (
      arith,
      lookup-insert u v (insert q l m) users,
      lookup-insert q r l m,
      at_user-ensure_user p u u,
      at_user-ensure_user p u v,
      at_project-ensure_project old q q,
      at_project-ensure_project old q r,
      string_eq.beq_iff u v,
      string_eq.beq_iff q r,
    )

pub entries-nil : (u q : String) → entries [] u q ≡ []
unfolding entries
entries-nil u q =
    ground (arith, lookup-nil {V = UserPermissions} u, lookup-nil {V = List Permission} q)
