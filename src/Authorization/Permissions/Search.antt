-- ===== src/Authorization/Permissions/Search.antt =====
-- The searches over permissions, against what they look for.
use perses.Prelude.{
  String, ◌≡◌, refl, subst, true, false, List, [], ◌∷◌, ◌↔◌, ◌⊎◌, inl, inr, In, string_eq, ◌||◌,
  arith, Bool-cases,
}
use perses.Prelude.GoMap.{lookup-nil}
use perses.Model.Permission.{Action, Scope, Permission, wildcard_action, wildcard_scope}
use perses.Model.User.{wildcard_project}
use perses.Authorization.Permissions.{
  UsersPermissions, has_scope, has_action, list_has_permission, has_permission,
}
use perses.Authorization.Permissions.Entries.{entries}

-- The permission names the action and the scope, or their wildcards.
abbrev pub Permits : Permission → Action → Scope → Type 0
Permits p a s =
    (In a p.actions ⊎ In wildcard_action p.actions) × (In s p.scopes ⊎ In wildcard_scope p.scopes)

abbrev pub Holds : List Permission → Action → Scope → Type 0
Holds l a s = (p : Permission) × In p l × Permits p a s

has_scope-In : (l : List Scope) (s : Scope) → has_scope l s ≡ true → In s l ⊎ In wildcard_scope l
unfolding has_scope
has_scope-In [] s h = cc
has_scope-In (x ∷ l) s h =
    ground (arith, string_eq.beq_iff x s, string_eq.beq_iff x wildcard_scope, has_scope-In l s)

In-has_scope : (l : List Scope) (s : Scope) → In s l ⊎ In wildcard_scope l → has_scope l s ≡ true
unfolding has_scope
In-has_scope [] s h = ground arith
In-has_scope (x ∷ l) s h =
    ground (arith, string_eq.beq_iff x s, string_eq.beq_iff x wildcard_scope, In-has_scope l s)

has_action-Permits :
    (l : List Action) (scopes : List Scope) (a : Action) (s : Scope)
    → has_action l scopes a s ≡ true
    → (In a l ⊎ In wildcard_action l) × (In s scopes ⊎ In wildcard_scope scopes)
unfolding has_action
has_action-Permits [] scopes a s h = cc
has_action-Permits (x ∷ l) scopes a s h = ground (
  arith,
  string_eq.beq_iff x a,
  string_eq.beq_iff x wildcard_action,
  has_scope-In scopes s,
  has_action-Permits l scopes a s,
)

Permits-has_action :
    (l : List Action) (scopes : List Scope) (a : Action) (s : Scope)
    → In a l ⊎ In wildcard_action l
    → In s scopes ⊎ In wildcard_scope scopes
    → has_action l scopes a s ≡ true
unfolding has_action
Permits-has_action [] scopes a s h k = ground arith
Permits-has_action (x ∷ l) scopes a s h k = ground (
  arith,
  string_eq.beq_iff x a,
  string_eq.beq_iff x wildcard_action,
  In-has_scope scopes s k,
  Permits-has_action l scopes a s,
)

list_has_permission-Holds :
    (l : List Permission) (a : Action) (s : Scope) → list_has_permission l a s ≡ true → Holds l a s
unfolding list_has_permission
list_has_permission-Holds [] a s h = absurd (cc h)
list_has_permission-Holds (x ∷ l) a s h = elim (Bool-cases (has_action x.actions x.scopes a s)) [
  | inl hit ↦ (x, inl refl, has_action-Permits x.actions x.scopes a s hit)
  | inr miss ↦
      let (p, i, q) = list_has_permission-Holds l a s (rw (miss, ◌||◌) at h) in (p, inr i, q)
]

Holds-list_has_permission :
    (l : List Permission) (a : Action) (s : Scope) → Holds l a s → list_has_permission l a s ≡ true
unfolding list_has_permission
Holds-list_has_permission [] a s (p, i, q) = absurd i
Holds-list_has_permission (x ∷ l) a s (p, inl e, q) =
    let r = subst (λ (y : Permission). Permits y a s) e q in
    rw (Permits-has_action x.actions x.scopes a s r.0 r.1)
Holds-list_has_permission (x ∷ l) a s (p, inr i, q) =
    ground (arith, Holds-list_has_permission l a s (p, i, q))

-- A list of permissions allows a request exactly when one of its permissions does.
pub list_has_permission_iff :
    (l : List Permission) (a : Action) (s : Scope)
    → (list_has_permission l a s ≡ true) ↔ Holds l a s
list_has_permission_iff l a s = (list_has_permission-Holds l a s, Holds-list_has_permission l a s)

pub list_has_permission-nil : (a : Action) (s : Scope) → list_has_permission [] a s ≡ false
unfolding list_has_permission
list_has_permission-nil a s = refl

-- The cache allows a request exactly when the global entries or those of the project do.
pub has_permission-entries :
    (m : UsersPermissions) (u : String) (a : Action) (p : String) (s : Scope)
    → has_permission m u a p s ≡ (
        list_has_permission (entries m u wildcard_project) a s
        || list_has_permission (entries m u p) a s)
unfolding has_permission entries
has_permission-entries m u a p s = ground (
  arith,
  string_eq.beq_iff p wildcard_project,
  list_has_permission-nil a s,
  lookup-nil {V = List Permission} p,
  lookup-nil {V = List Permission} wildcard_project,
)
