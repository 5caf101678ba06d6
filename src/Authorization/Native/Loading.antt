-- ===== src/Authorization/Native/Loading.antt =====
-- What the cache holds after `loadAllPermissions`: the permissions that the bindings give, and where.
use mathlib.Core.List.{append_assoc, append-nil}
use perses.Prelude.{
  String, ◌≡◌, sym, Bool, true, false, List, [], ◌∷◌, ◌++◌, ◌==◌, string_eq, ◌&&◌, arith,
  if◌then◌else◌,
}
use perses.Model.Permission.{Permission}
use perses.Model.Role.{Role, GlobalRole}
use perses.Model.RoleBinding
use perses.Model.RoleBinding.{RoleBinding, GlobalRoleBinding}
use perses.Model.User.{User, wildcard_project}
use perses.Authorization.Permissions.{UsersPermissions, add_entry, find_role, find_global_role}
use perses.Authorization.Permissions.Entries.{entries, entries-add_entry}
use perses.Authorization.Native.{
  add_permissions, load_global_bindings, load_global, load_project_bindings, load_project,
  permissions_of_global, permissions_of_role,
}

abbrev pub when {ℓ} : {A : Type ℓ} → Bool → List A → List A
when true xs = xs
when false xs = []

-- What the global bindings give to a user.
unfoldable pub given_globally : List GlobalRole → List GlobalRoleBinding → String → List Permission
given_globally roles [] user = []
given_globally roles (b ∷ rest) user =
    when (RoleBinding.has b.spec "User" user)
      (permissions_of_global (find_global_role roles b.spec.role))
    ++ given_globally roles rest user

-- What the bindings of a project give to a user.
unfoldable pub given_in : List Role → List RoleBinding → String → String → List Permission
given_in roles [] user project = []
given_in roles (b ∷ rest) user project =
    when (RoleBinding.has b.spec "User" user && b.metadata.project == project)
      (permissions_of_role (find_role roles project b.spec.role))
    ++ given_in roles rest user project

entries-add_permissions :
    (v p : String) (xs : List Permission) (m : UsersPermissions) (u q : String)
    → entries (add_permissions v p xs m) u q ≡ entries m u q ++ when (v == u && p == q) xs
unfolding add_permissions
entries-add_permissions v p [] m u q = ground (arith, append-nil (entries m u q))
entries-add_permissions v p (x ∷ xs) m u q = ground (
  arith,
  entries-add_permissions v p xs (add_entry v p x m) u q,
  entries-add_entry m v p u q x,
  append_assoc (entries m u q) (x ∷ []) xs,
  append-nil (entries m u q),
)

-- One binding of a loop: the permissions are added if the binding has the user.
entries-add_if :
    (h : Bool) (v p : String) (xs : List Permission) (m : UsersPermissions) (u q : String)
    → entries (if h then add_permissions v p xs m else m) u q
      ≡ entries m u q ++ when (h && (v == u && p == q)) xs
entries-add_if true v p xs m u q = entries-add_permissions v p xs m u q
entries-add_if false v p xs m u q = sym (append-nil (entries m u q))

entries-load_global_bindings :
    (roles : List GlobalRole) (bs : List GlobalRoleBinding) (v : String) (m : UsersPermissions)
    (u q : String)
    → entries (load_global_bindings roles bs v m) u q
      ≡ entries m u q ++ when (v == u && wildcard_project == q) (given_globally roles bs v)
unfolding load_global_bindings given_globally
entries-load_global_bindings roles [] v m u q = ground (arith, append-nil (entries m u q))
entries-load_global_bindings roles (b ∷ bs) v m u q =
    let h = RoleBinding.has b.spec "User" v in
    let xs = permissions_of_global (find_global_role roles b.spec.role) in
    ground (
      arith,
      entries-load_global_bindings roles bs v
          (if h then add_permissions v wildcard_project xs m else m) u q,
      entries-add_if h v wildcard_project xs m u q,
      append_assoc (entries m u q) xs (given_globally roles bs v),
      append-nil (entries m u q),
    )

entries-load_project_bindings :
    (roles : List Role) (bs : List RoleBinding) (v : String) (m : UsersPermissions) (u q : String)
    → entries (load_project_bindings roles bs v m) u q
      ≡ entries m u q ++ when (v == u) (given_in roles bs v q)
unfolding load_project_bindings given_in
entries-load_project_bindings roles [] v m u q = ground (arith, append-nil (entries m u q))
entries-load_project_bindings roles (b ∷ bs) v m u q =
    let h = RoleBinding.has b.spec "User" v in
    let p = b.metadata.project in
    let xs = permissions_of_role (find_role roles p b.spec.role) in
    ground (
      arith,
      entries-load_project_bindings roles bs v (if h then add_permissions v p xs m else m) u q,
      entries-add_if h v p xs m u q,
      append_assoc (entries m u q) xs (given_in roles bs v q),
      append-nil (entries m u q),
      string_eq.beq_iff p q,
    )

-- `xs` once for each user of that name.
unfoldable pub for_user : List User → String → List Permission → List Permission
for_user [] u xs = []
for_user (usr ∷ users) u xs = when (usr.metadata.name == u) xs ++ for_user users u xs

pub entries-load_global :
    (roles : List GlobalRole) (bs : List GlobalRoleBinding) (users : List User)
    (m : UsersPermissions) (u q : String)
    → entries (load_global roles bs users m) u q
      ≡ entries m u q ++ when (wildcard_project == q) (for_user users u (given_globally roles bs u))
unfolding load_global for_user
entries-load_global roles bs [] m u q = ground (arith, append-nil (entries m u q))
entries-load_global roles bs (usr ∷ users) m u q =
    let v = usr.metadata.name in
    let xs = given_globally roles bs u in
    ground (
      arith,
      entries-load_global roles bs users (load_global_bindings roles bs v m) u q,
      entries-load_global_bindings roles bs v m u q,
      append_assoc (entries m u q) xs (for_user users u xs),
      append-nil (entries m u q),
      string_eq.beq_iff v u,
    )

pub entries-load_project :
    (roles : List Role) (bs : List RoleBinding) (users : List User) (m : UsersPermissions)
    (u q : String)
    → entries (load_project roles bs users m) u q
      ≡ entries m u q ++ for_user users u (given_in roles bs u q)
unfolding load_project for_user
entries-load_project roles bs [] m u q = sym (append-nil (entries m u q))
entries-load_project roles bs (usr ∷ users) m u q =
    let v = usr.metadata.name in
    let xs = given_in roles bs u q in
    ground (
      arith,
      entries-load_project roles bs users (load_project_bindings roles bs v m) u q,
      entries-load_project_bindings roles bs v m u q,
      append_assoc (entries m u q) xs (for_user users u xs),
      append-nil (entries m u q),
      string_eq.beq_iff v u,
    )
