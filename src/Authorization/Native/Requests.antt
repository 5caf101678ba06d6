-- ===== src/Authorization/Native/Requests.antt =====
-- Requests: what a refresh changes for them, and what it does when a list cannot be read.
use perses.Prelude.{
  String, ◌≡◌, ◌≢◌, refl, Bool, true, false, List, ◌==◌, string_eq, ◌↔◌, ◌⊎◌, inl, inr, arith,
  if◌then◌else◌,
}
use perses.Prelude.Result.{Result, Error, ok, err}
use perses.Model.Permission.{Action, Scope, Permission}
use perses.Model.Role.{Role, GlobalRole}
use perses.Model.RoleBinding.{RoleBinding, GlobalRoleBinding}
use perses.Model.User.{User}
use perses.Authorization.Permissions.{has_permission, list_has_permission}
use perses.Authorization.Permissions.Search.{Permits, Holds, list_has_permission_iff}
use perses.Authorization.Native.{
  Native, token, JwtClaims, Lists, get_user, get_username, has_request_permission,
  load_all_permissions, refresh_permissions,
}
use perses.Authorization.Native.Given.{IsUser}
use perses.Authorization.Native.Access.{Given, read, has_permission-refresh_permissions}

abbrev pub Failed {ℓ} : {A : Type ℓ} → Result A → Type 0
Failed (ok a) = ⊥
Failed (err e) = Unit

load_fails :
    (u : Result (List User)) (r : Result (List Role)) (g : Result (List GlobalRole))
    (b : Result (List RoleBinding)) (gb : Result (List GlobalRoleBinding))
    → Failed u ⊎ Failed r ⊎ Failed g ⊎ Failed b ⊎ Failed gb
    → (e : Error) × (load_all_permissions (record {
      users = u;
      roles = r;
      global_roles = g;
      role_bindings = b;
      global_role_bindings = gb;
    })
        ≡ err e)
unfolding load_all_permissions
load_fails (err e) r g b gb h = (e, refl)
load_fails (ok u) (err e) g b gb h = (e, refl)
load_fails (ok u) (ok r) (err e) b gb h = (e, refl)
load_fails (ok u) (ok r) (ok g) (err e) gb h = (e, refl)
load_fails (ok u) (ok r) (ok g) (ok b) (err e) h = (e, refl)
load_fails (ok u) (ok r) (ok g) (ok b) (ok gb) h = absurd (omega arith)

-- If one of the five lists cannot be read, the refresh fails and the cache stays as it was.
pub refresh_permissions-Failed :
    (lists : Lists) (n : Native)
    → Failed lists.users
      ⊎ Failed lists.roles
      ⊎ Failed lists.global_roles
      ⊎ Failed lists.role_bindings
      ⊎ Failed lists.global_role_bindings
    → (e : Error) × (refresh_permissions lists n ≡ (err e, n))
unfolding refresh_permissions
refresh_permissions-Failed lists n h =
    let (e, q) =
      load_fails lists.users lists.roles lists.global_roles lists.role_bindings
        lists.global_role_bindings h in
    (e, rw q)

gate :
    (e g k : Bool)
    → ((if e then false else if g then true else k) ≡ true)
      ↔ ((e ≡ false) × ((g ≡ true) ⊎ (k ≡ true)))
gate e g k = ground arith

guests_kept :
    (users : List User) (roles : List Role) (global_roles : List GlobalRole)
    (bindings : List RoleBinding) (global_bindings : List GlobalRoleBinding) (n : Native)
    → (refresh_permissions
        (read users roles global_roles bindings global_bindings)
        n).1.guest_permissions
      ≡ n.guest_permissions
unfolding refresh_permissions load_all_permissions
guests_kept users roles global_roles bindings global_bindings n = refl

not_empty : (s : String) → ((s == "") ≡ false) ↔ (s ≢ "")
not_empty s = ground (arith, string_eq.beq_iff s "")

-- After a refresh that read the five lists, a request with a token is allowed exactly when the token
-- names a user, and guests have the permission, or the user is registered and a binding gives the
-- permission, everywhere or in the project of the request.
pub has_request_permission-refresh_permissions :
    (users : List User) (roles : List Role) (global_roles : List GlobalRole)
    (bindings : List RoleBinding) (global_bindings : List GlobalRoleBinding) (n : Native)
    (c : JwtClaims) (a : Action) (p : String) (s : Scope)
    → let after =
        (refresh_permissions (read users roles global_roles bindings global_bindings) n).1 in
      (has_request_permission after (token c) a p s ≡ true) ↔ (
        (c.subject ≢ "")
        × (Holds n.guest_permissions a s
            ⊎ (IsUser users c.subject
                × ((x : Permission) × Given users roles global_roles bindings global_bindings
                      c.subject p x
                    × Permits x a s))))
unfolding has_request_permission get_username get_user
has_request_permission-refresh_permissions users roles global_roles bindings global_bindings n c a p
      s =
    let lists = read users roles global_roles bindings global_bindings in
    let cache = (refresh_permissions lists n).1.permissions in
    let guests = list_has_permission_iff n.guest_permissions a s in
    let bound =
      has_permission-refresh_permissions users roles global_roles bindings global_bindings n
        c.subject a p s in
    let (there, back) =
      gate (c.subject == "") (list_has_permission n.guest_permissions a s)
        (has_permission cache c.subject a p s) in
    rw guests_kept (
      λ h.
          let (named, way) = there h in
          (
            (not_empty c.subject).0 named,
            elim way [ inl g ↦ inl (guests.0 g) | inr k ↦ inr (bound.0 k) ],
          ),
      λ h. back (
        (not_empty c.subject).1 h.0,
        elim h.1 [ inl g ↦ inl (guests.1 g) | inr k ↦ inr (bound.1 k) ],
      ),
    )
