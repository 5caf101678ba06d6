-- ===== src/Authorization/Native/Access.antt =====
-- Who has access after a refresh: the bindings and the roles that they name decide, and nothing else.
use perses.Prelude.{
  String, ◌≡◌, refl, subst, Bool, true, List, [], ◌++◌, ◌==◌, string_eq, ◌||◌, ◌↔◌, ◌⊎◌, inl, inr,
  In, In-append, In-append_left, In-append_right, arith,
}
use perses.Prelude.Result.{ok}
use perses.Model.Permission.{Action, Scope, Permission}
use perses.Model.Role.{Role, GlobalRole}
use perses.Model.RoleBinding.{RoleBinding, GlobalRoleBinding}
use perses.Model.User.{User, wildcard_project}
use perses.Authorization.Permissions.{UsersPermissions, list_has_permission, has_permission}
use perses.Authorization.Permissions.Entries.{entries, entries-nil}
use perses.Authorization.Permissions.Search.{
  Permits, Holds, list_has_permission_iff, has_permission-entries,
}
use perses.Authorization.Native.{
  Native, Lists, load_global, load_project, load_all_permissions, refresh_permissions,
}
use perses.Authorization.Native.Loading.{
  when, given_globally, given_in, for_user, entries-load_global, entries-load_project,
}
use perses.Authorization.Native.Given.{
  GivenGlobally, GivenIn, IsUser, given_globally-In, In-given_globally, given_in-In, In-given_in,
  for_user-In, In-for_user, In-when, when-In,
}

or_true : (a b : Bool) → (a || b) ≡ true → (a ≡ true) ⊎ (b ≡ true)
or_true a b h = ground arith

or_left : (a b : Bool) → a ≡ true → (a || b) ≡ true
or_left a b h = ground arith

or_right : (a b : Bool) → b ≡ true → (a || b) ≡ true
or_right a b h = ground arith

either {ℓ} : {A : Type ℓ} → A ⊎ A → A
either (inl a) = a
either (inr a) = a

-- The five lists were read.
abbrev pub read :
    List User → List Role → List GlobalRole → List RoleBinding → List GlobalRoleBinding → Lists
read users roles global_roles bindings global_bindings = record {
  users = ok users;
  roles = ok roles;
  global_roles = ok global_roles;
  role_bindings = ok bindings;
  global_role_bindings = ok global_bindings;
}

module _ (users : List User) (roles : List Role) (global_roles : List GlobalRole)
    (bindings : List RoleBinding) (global_bindings : List GlobalRoleBinding) where
  -- A permission that some binding gives to the user: everywhere, or in the project `p`. A role
  -- binding of a project named "*" would count as one that gives everywhere.
  abbrev pub Given : String → String → Permission → Type 0
  Given u p x =
      GivenGlobally global_roles global_bindings u x
      ⊎ GivenIn roles bindings u wildcard_project x
      ⊎ GivenIn roles bindings u p x

  loaded : UsersPermissions
  loaded = load_project roles bindings users (load_global global_roles global_bindings users [])

  entries-loaded :
      (u q : String)
      → entries loaded u q
        ≡ when
            (wildcard_project == q)
            (for_user users u (given_globally global_roles global_bindings u))
          ++ for_user users u (given_in roles bindings u q)
  unfolding loaded
  entries-loaded u q = ground (
    arith,
    entries-load_project roles bindings users (load_global global_roles global_bindings users []) u
        q,
    entries-load_global global_roles global_bindings users [] u q,
    entries-nil u q,
  )

  In-entries-loaded :
      (u q : String) (x : Permission)
      → In x (entries loaded u q)
      → IsUser users u
        × (((wildcard_project ≡ q) × GivenGlobally global_roles global_bindings u x)
            ⊎ GivenIn roles bindings u q x)
  In-entries-loaded u q x i =
      elim (In-append x (when (wildcard_project == q) _) (for_user users u _)
        (subst (λ l. In x l) (entries-loaded u q) i)) [
          | inl j ↦
              let (e, k) = In-when (wildcard_project == q) _ x j in
              let (v, g) = for_user-In users u _ x k in
              (
                v,
                inl (
                  (string_eq.beq_iff wildcard_project q).0 e,
                  given_globally-In global_roles global_bindings u x g,
                ),
              )
          | inr j ↦
              let (v, g) = for_user-In users u _ x j in
              (v, inr (given_in-In roles bindings u q x g))
        ]

  entries-loaded-In :
      (u q : String) (x : Permission)
      → IsUser users u
      → ((wildcard_project ≡ q) × GivenGlobally global_roles global_bindings u x)
        ⊎ GivenIn roles bindings u q x
      → In x (entries loaded u q)
  entries-loaded-In u q x v (inl (e, g)) = rw (entries-loaded u q) (
      In-append_left x (when (wildcard_project == q) _) (for_user users u _) (
        when-In (wildcard_project == q) _ x ((string_eq.beq_iff wildcard_project q).1 e)
          (In-for_user users u _ x v (In-given_globally global_roles global_bindings u x g))))
  entries-loaded-In u q x v (inr g) = rw (entries-loaded u q) (
      In-append_right x (when (wildcard_project == q) _) (for_user users u _)
        (In-for_user users u _ x v (In-given_in roles bindings u q x g)))

  Holds-Given :
      (u q : String) (a : Action) (s : Scope)
      → Holds (entries loaded u q) a s
      → IsUser users u × ((x : Permission) × Given u q x × Permits x a s)
  Holds-Given u q a s (x, i, t) =
      let (v, g) = In-entries-loaded u q x i in
      (v, (x, elim g [ inl (_, b) ↦ inl b | inr b ↦ inr (inr b) ], t))

  -- After a refresh that read the five lists, the cache allows a request exactly when the user is
  -- registered and a binding gives the user, everywhere or in the project, a permission for the
  -- action and the scope, or for their wildcards.
  pub has_permission-refresh_permissions :
      (n : Native) (u : String) (a : Action) (p : String) (s : Scope)
      → let lists = read users roles global_roles bindings global_bindings in
        let cache = (refresh_permissions lists n).1.permissions in
        (has_permission cache u a p s ≡ true)
        ↔ (IsUser users u × ((x : Permission) × Given u p x × Permits x a s))
  unfolding refresh_permissions load_all_permissions loaded
  has_permission-refresh_permissions n u a p s = (there, back)
    where
      there :
          has_permission loaded u a p s ≡ true
          → IsUser users u × ((x : Permission) × Given u p x × Permits x a s)
      there h = elim (or_true _ _ (rw has_permission-entries at h)) [
        | inl e ↦
            let (v, (x, g, t)) =
              Holds-Given u wildcard_project a s ((list_has_permission_iff _ a s).0 e) in
            (v, (x, elim g [ inl b ↦ inl b | inr b ↦ inr (inl (either b)) ], t))
        | inr e ↦ Holds-Given u p a s ((list_has_permission_iff _ a s).0 e)
      ]

      allowed :
          (q : String) (x : Permission)
          → In x (entries loaded u q)
          → Permits x a s
          → list_has_permission (entries loaded u q) a s ≡ true
      allowed q x i t = (list_has_permission_iff _ a s).1 (x, i, t)

      back :
          IsUser users u × ((x : Permission) × Given u p x × Permits x a s)
          → has_permission loaded u a p s ≡ true
      back (v, (x, g, t)) = rw has_permission-entries (elim g [
        | inl b ↦ or_left _ _ (
            allowed wildcard_project x (entries-loaded-In u wildcard_project x v (inl (refl, b))) t)
        | inr (inl b) ↦
            or_left _ _
              (allowed wildcard_project x (entries-loaded-In u wildcard_project x v (inr b)) t)
        | inr (inr b) ↦ or_right _ _ (allowed p x (entries-loaded-In u p x v (inr b)) t)
      ])
