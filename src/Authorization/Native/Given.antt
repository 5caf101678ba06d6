-- ===== src/Authorization/Native/Given.antt =====
-- The permissions that bindings give, as membership: by a binding, its role and its subjects.
use perses.Prelude.{
  String, ◌≡◌, refl, subst, Bool, true, false, List, [], ◌∷◌, ◌==◌, string_eq, ◌&&◌, inl, inr, In,
  In-append, In-append_left, In-append_right, arith,
}
use perses.Model.Permission.{Permission}
use perses.Model.Role.{Role, GlobalRole}
use perses.Model.RoleBinding
use perses.Model.RoleBinding.{RoleBinding, GlobalRoleBinding}
use perses.Model.User.{User}
use perses.Authorization.Permissions.{find_role, find_global_role}
use perses.Authorization.Native.{permissions_of_global, permissions_of_role}
use perses.Authorization.Native.Loading.{when, given_globally, given_in, for_user}

-- A global binding has the user as a subject, and its role holds the permission.
abbrev pub GivenGlobally : List GlobalRole → List GlobalRoleBinding → String → Permission → Type 0
GivenGlobally roles bs u x =
    (b : GlobalRoleBinding) × In b bs
    × (RoleBinding.has b.spec "User" u ≡ true)
    × In x (permissions_of_global (find_global_role roles b.spec.role))

-- So for a binding of the project `q` and a role of that project.
abbrev pub GivenIn : List Role → List RoleBinding → String → String → Permission → Type 0
GivenIn roles bs u q x =
    (b : RoleBinding) × In b bs
    × (RoleBinding.has b.spec "User" u ≡ true)
    × (b.metadata.project ≡ q)
    × In x (permissions_of_role (find_role roles q b.spec.role))

-- The user is registered.
abbrev pub IsUser : List User → String → Type 0
IsUser users u = (usr : User) × In usr users × (usr.metadata.name ≡ u)

module _ {A : Type 0} where
  pub In-when : (b : Bool) (xs : List A) (x : A) → In x (when b xs) → (b ≡ true) × In x xs
  In-when true xs x i = (refl, i)
  In-when false xs x i = absurd i

  pub when-In : (b : Bool) (xs : List A) (x : A) → b ≡ true → In x xs → In x (when b xs)
  when-In b xs x e i = rw e i

pub given_globally-In :
    (roles : List GlobalRole) (bs : List GlobalRoleBinding) (u : String) (x : Permission)
    → In x (given_globally roles bs u)
    → GivenGlobally roles bs u x
unfolding given_globally
given_globally-In roles [] u x i = absurd i
given_globally-In roles (b ∷ bs) u x i =
    elim (In-append x (when (RoleBinding.has b.spec "User" u) _) (given_globally roles bs u) i) [
      | inl j ↦ let (h, k) = In-when _ _ x j in (b, inl refl, h, k)
      | inr j ↦ let r = given_globally-In roles bs u x j in (r.0, inr r.1, r.2, r.3)
    ]

pub In-given_globally :
    (roles : List GlobalRole) (bs : List GlobalRoleBinding) (u : String) (x : Permission)
    → GivenGlobally roles bs u x
    → In x (given_globally roles bs u)
unfolding given_globally
In-given_globally roles [] u x (b, i, h, j) = absurd i
In-given_globally roles (c ∷ bs) u x (b, inl e, h, j) =
    In-append_left x (when (RoleBinding.has c.spec "User" u) _) (given_globally roles bs u) (
      when-In _ _ x (subst (λ (d : GlobalRoleBinding). RoleBinding.has d.spec "User" u ≡ true) e h)
        (subst
          (λ (d : GlobalRoleBinding).
            In x (permissions_of_global (find_global_role roles d.spec.role)))
          e j))
In-given_globally roles (c ∷ bs) u x (b, inr i, h, j) =
    In-append_right x (when (RoleBinding.has c.spec "User" u) _) (given_globally roles bs u)
      (In-given_globally roles bs u x (b, i, h, j))

both : (a b : Bool) → (a && b) ≡ true → (a ≡ true) × (b ≡ true)
both a b h = ground arith

and_true : (a b : Bool) → a ≡ true → b ≡ true → (a && b) ≡ true
and_true a b h k = ground arith

pub given_in-In :
    (roles : List Role) (bs : List RoleBinding) (u q : String) (x : Permission)
    → In x (given_in roles bs u q)
    → GivenIn roles bs u q x
unfolding given_in
given_in-In roles [] u q x i = absurd i
given_in-In roles (b ∷ bs) u q x i =
    elim (In-append x (when (RoleBinding.has b.spec "User" u && b.metadata.project == q) _)
      (given_in roles bs u q) i) [
        | inl j ↦
            let (h, k) = In-when _ _ x j in
            let (has, same) = both _ _ h in
            (b, inl refl, has, (string_eq.beq_iff b.metadata.project q).0 same, k)
        | inr j ↦ let r = given_in-In roles bs u q x j in (r.0, inr r.1, r.2, r.3, r.4)
      ]

pub In-given_in :
    (roles : List Role) (bs : List RoleBinding) (u q : String) (x : Permission)
    → GivenIn roles bs u q x
    → In x (given_in roles bs u q)
unfolding given_in
In-given_in roles [] u q x (b, i, h, p, j) = absurd i
In-given_in roles (c ∷ bs) u q x (b, inl e, h, p, j) =
    In-append_left x (when (RoleBinding.has c.spec "User" u && c.metadata.project == q) _)
      (given_in roles bs u q)
      (when-In _ _ x
        (subst
          (λ (d : RoleBinding). (RoleBinding.has d.spec "User" u && d.metadata.project == q) ≡ true)
          e (and_true _ _ h ((string_eq.beq_iff b.metadata.project q).1 p)))
        (subst (λ (d : RoleBinding). In x (permissions_of_role (find_role roles q d.spec.role))) e
          j))
In-given_in roles (c ∷ bs) u q x (b, inr i, h, p, j) =
    In-append_right x (when (RoleBinding.has c.spec "User" u && c.metadata.project == q) _)
      (given_in roles bs u q) (In-given_in roles bs u q x (b, i, h, p, j))

pub for_user-In :
    (users : List User) (u : String) (xs : List Permission) (x : Permission)
    → In x (for_user users u xs)
    → IsUser users u × In x xs
unfolding for_user
for_user-In [] u xs x i = absurd i
for_user-In (usr ∷ users) u xs x i =
    elim (In-append x (when (usr.metadata.name == u) xs) (for_user users u xs) i) [
      | inl j ↦
          let (h, k) = In-when _ xs x j in
          ((usr, inl refl, (string_eq.beq_iff usr.metadata.name u).0 h), k)
      | inr j ↦ let ((v, k, e), l) = for_user-In users u xs x j in ((v, inr k, e), l)
    ]

pub In-for_user :
    (users : List User) (u : String) (xs : List Permission) (x : Permission)
    → IsUser users u
    → In x xs
    → In x (for_user users u xs)
unfolding for_user
In-for_user [] u xs x (v, i, e) j = absurd i
In-for_user (usr ∷ users) u xs x (v, inl same, e) j =
    In-append_left x (when (usr.metadata.name == u) xs) (for_user users u xs) (
      when-In _ xs x
        ((string_eq.beq_iff usr.metadata.name u).1
          (subst (λ (w : User). w.metadata.name ≡ u) same e))
        j)
In-for_user (usr ∷ users) u xs x (v, inr i, e) j =
    In-append_right x (when (usr.metadata.name == u) xs) (for_user users u xs)
      (In-for_user users u xs x (v, i, e) j)
