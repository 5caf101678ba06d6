-- ===== src/Service/Project/Owner.antt =====
-- Whoever creates a project owns it.
use Prim.Native.String.{len}
use perses.Prelude.{
  ℕ, ◌≡◌, refl, sym, ◌∙◌, ap, subst, String, true, false, List, some, eqb, arith, inl, inr, In,
  beq_refl, string_eq,
}
use perses.Prelude.Result.{Result, ok, err}
use perses.Model.Permission.{Action, Scope}
use perses.Model.Role.{Role, GlobalRole}
use perses.Model.RoleBinding
use perses.Model.RoleBinding.{RoleBinding, GlobalRoleBinding}
use perses.Model.User.{User}
use perses.Model.Project.{
  Project, owner, everything, default_owner_role, default_editor_role, default_viewer_role,
  default_owner_role_binding,
}
use perses.Authorization.Permissions.{find_role, has_permission}
use perses.Authorization.Native.{Native, Lists, Context, get_username, refresh_permissions}
use perses.Authorization.Native.Given.{IsUser}
use perses.Authorization.Native.Access.{read, Given, has_permission-refresh_permissions}
use perses.Service.Entity.{ProjectDao, GlobalDao, on_ok}
use perses.Service.Refresh.{State}
use perses.Service.Project.Steps.{
  chain-eq-ok, refreshing-eq-ok, map_result-eq-ok, on_ok-eq-ok, call_failing-eq-ok,
}
use perses.Service.Project.{
  chain, call_failing, Holdings, create_roles, bind_owner, give_permissions, refreshing, failing,
  create,
}

owner-Given :
    (users : List User) (roles : List Role) (global_roles : List GlobalRole)
    (bindings : List RoleBinding) (global_bindings : List GlobalRoleBinding) (now : ℕ)
    (project username : String)
    → In (default_owner_role_binding now project username) bindings
    → find_role roles project owner ≡ some (default_owner_role now project)
    → Given users roles global_roles bindings global_bindings username project everything
unfolding default_owner_role default_owner_role_binding RoleBinding.has
owner-Given users roles global_roles bindings global_bindings now project username listed found =
    inr (
      inr (
        default_owner_role_binding now project username,
        listed,
        ground (arith, beq_refl string_eq username),
        refl,
        rw found (inl refl),
      ))

module _ {DB : Type 0} (dao : GlobalDao Project DB) (role_dao : ProjectDao Role DB)
    (role_binding_dao : ProjectDao RoleBinding DB) (holdings : Holdings DB)
    (lists_of : DB → Lists) where
  bind_owner-eq-ok :
      (now : ℕ) (project username : String) (db after : DB)
      → eqb (len username) 0 ≡ false
      → bind_owner dao role_dao role_binding_dao holdings lists_of true now project db username
        ≡ (ok tt, after)
      → (b : RoleBinding) × (role_binding_dao.create_entity
            (default_owner_role_binding now project username)
            db
          ≡ (ok b, after))
  unfolding bind_owner
  bind_owner-eq-ok now project username db after some_name h =
      let k : chain
            (call_failing
              (role_binding_dao.create_entity (default_owner_role_binding now project username) db))
            (λ _ x. (ok tt, x))
          ≡ (ok tt, after) =
        rw (some_name, bind_owner) at h in
      let (b, x, h4, k4) =
        chain-eq-ok
          (call_failing
            (role_binding_dao.create_entity (default_owner_role_binding now project username) db))
          _ k in
      (b, call_failing-eq-ok _ h4 ∙ ap (λ y. (ok b, y)) (ap (λ y. y.1) k4))

  -- create_roles created the role of the owner, and its role binding at the end.
  IsMade : ℕ → String → String → DB → Type 0
  IsMade now project username after =
      ((x : Role) × (db : DB) × (db1 : DB) × (role_dao.create_entity
            (default_owner_role now project) db
          ≡ (ok x, db1)))
      × ((y : RoleBinding) × (db2 : DB) × (role_binding_dao.create_entity
              (default_owner_role_binding now project username) db2
            ≡ (ok y, after)))

  create_roles-IsMade :
      (now : ℕ) (ctx : Context) (project username : String) (db after : DB)
      → get_username ctx ≡ ok username
      → eqb (len username) 0 ≡ false
      → create_roles dao role_dao role_binding_dao holdings lists_of true now ctx project db
        ≡ (ok tt, after)
      → IsMade now project username after
  unfolding create_roles IsMade on_ok
  create_roles-IsMade now ctx project username db after u some_name h =
      let (r1, db1, h1, k1) =
        chain-eq-ok (call_failing (role_dao.create_entity (default_owner_role now project) db)) _
          h in
      let (r2, db2, h2, k2) =
        chain-eq-ok (call_failing (role_dao.create_entity (default_editor_role now project) db1)) _
          k1 in
      let (r3, db3, h3, k3) =
        chain-eq-ok (call_failing (role_dao.create_entity (default_viewer_role now project) db2)) _
          k2 in
      let (name, g, k) = on_ok-eq-ok (failing (get_username ctx)) db3 _ k3 in
      let same_name : name ≡ username = ground arith in
      let (b, made) = bind_owner-eq-ok now project name db3 after (rw same_name some_name) k in
      (
        (r1, db, db1, call_failing-eq-ok _ h1),
        (
          b,
          db3,
          subst
              (λ x.
                role_binding_dao.create_entity (default_owner_role_binding now project x) db3
                ≡ (ok b, after))
              same_name made,
        ),
      )

  give_permissions-eq-ok :
      (now : ℕ) (ctx : Context) (n : Native) (out : Result Project × DB) {e : Project}
      {after : State DB}
      → give_permissions dao role_dao role_binding_dao holdings lists_of true now ctx n out
        ≡ (ok e, after)
      → (create_roles dao role_dao role_binding_dao holdings lists_of true now ctx e.metadata.name
            out.1
          ≡ (ok tt, after.db))
        × (after.authz ≡ (refresh_permissions (lists_of after.db) n).1)
  unfolding give_permissions
  give_permissions-eq-ok now ctx n (err c, db) h = cc
  give_permissions-eq-ok now ctx n (ok r, db) h =
      let (x, k, same) =
        map_result-eq-ok _
          (refreshing lists_of n (
            create_roles dao role_dao role_binding_dao holdings lists_of true now ctx
              r.metadata.name db))
          h in
      let (stored, authz) = refreshing-eq-ok lists_of n _ k in
      (rw (ap (λ y. y.metadata.name) (sym same)) (stored ∙ cc), authz)

  -- Whoever creates a project while the authorization is enabled has every permission in it, once the
  -- creation succeeded: the refresh at its end reads the lists, the user is registered, and among what
  -- is read are the role of the owner and its role binding if they were created.
  pub create-IsOwner :
      (now : ℕ) (ctx : Context) (username : String) (r e : Project) (s after : State DB)
      (users : List User) (roles : List Role) (global_roles : List GlobalRole)
      (bindings : List RoleBinding) (global_bindings : List GlobalRoleBinding)
      → get_username ctx ≡ ok username
      → eqb (len username) 0 ≡ false
      → create dao role_dao role_binding_dao holdings lists_of true now ctx r s ≡ (ok e, after)
      → lists_of after.db ≡ read users roles global_roles bindings global_bindings
      → IsUser users username
      → ((x : Role) (db db1 : DB)
          → role_dao.create_entity (default_owner_role now e.metadata.name) db ≡ (ok x, db1)
          → find_role roles e.metadata.name owner ≡ some (default_owner_role now e.metadata.name))
      → ((y : RoleBinding) (db : DB)
          → role_binding_dao.create_entity
              (default_owner_role_binding now e.metadata.name username)
              db
            ≡ (ok y, after.db)
          → In (default_owner_role_binding now e.metadata.name username) bindings)
      → (a : Action) (scope : Scope)
      → has_permission after.authz.permissions username a e.metadata.name scope ≡ true
  unfolding create IsMade
  create-IsOwner now ctx username r e s after users roles global_roles bindings global_bindings u
        some_name h lists registered found listed a scope =
      let (made, authz) = give_permissions-eq-ok now ctx s.authz _ h in
      let ((x, db, db1, role_made), (y, db2, binding_made)) =
        create_roles-IsMade now ctx e.metadata.name username _ after.db u some_name made in
      let cache =
        has_permission-refresh_permissions users roles global_roles bindings global_bindings s.authz
          username a e.metadata.name scope in
      let given =
        owner-Given users roles global_roles bindings global_bindings now e.metadata.name username
          (listed y db2 binding_made) (found x db db1 role_made) in
      rw (authz, lists)
        (cache.1 (registered, (everything, given, (inr (inl refl), inr (inl refl)))))
