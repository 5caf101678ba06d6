-- ===== src/Toolbox/Native.antt =====
-- The native authorization as the authorization of the toolbox, and what a user can list with it.

use perses.Prelude.{
  String, ◌≡◌, refl, sym, ◌∙◌, subst, true, false, List, [], ◌∷◌, ◌==◌, string_eq, arith, ◌⊎◌, inl,
  inr, In, contains, In→contains,
}
use perses.Prelude.GoMap.{lookup, is_map}
use perses.Prelude.Result.{ok}
use perses.Model.Permission.{Scope, get_scope, project_scope, read_action}
use perses.Model.User.{wildcard_project}
use perses.Authorization.Permissions.{at_user}
use perses.Authorization.Native.{
  Native, Context, token, JwtClaims, has_request_permission, has_create_project_permission,
  get_user_projects,
}
use perses.Authorization.Native.Projects.{covers, get_user_projects-has_request_permission}
use perses.Toolbox.{Authorization, Parameters}
use perses.Toolbox.Binding.{ok_inj}
use perses.Toolbox.Listing.{Query, ListService, metadata_or_full_list, list}
use perses.Toolbox.Lists.{StartsWild, IsOpen, Shown, IsReadable, list-Shown}

unfoldable pub native_authorization : Native → Context → Authorization
native_authorization n ctx = record {
  is_enabled = true;
  has_permission = λ action project scope. has_request_permission n ctx action project scope;
  has_create_project_permission = λ project. has_create_project_permission n ctx project;
  get_user_projects = λ action scope. get_user_projects n ctx action scope;
}

covers-In : (projects : List String) (p : String) → In p projects → covers projects p ≡ true
unfolding covers
covers-In projects p i = ground (arith, In→contains p projects i)

covers-StartsWild :
    (projects : List String) (p : String) → StartsWild projects → covers projects p ≡ true
unfolding covers contains StartsWild
covers-StartsWild [] p h = absurd h
covers-StartsWild (first ∷ rest) p h = ground (arith, string_eq.beq_iff first wildcard_project)

-- Who covers "*" covers every project.
covers-all :
    (projects : List String) (p : String)
    → covers projects wildcard_project ≡ true
    → covers projects p ≡ true
unfolding covers
covers-all projects p h = ground arith

module _ {V R : Type 0} (service : ListService V R) (name_of : R → String) (n : Native)
    (c : JwtClaims) where
  -- The user may read what the service was asked for, or the row itself, which is a project.
  unfoldable pub IsRead : Scope → Query V → R → Type 0
  IsRead scope q row =
      (asked : Parameters) × (rows : List R) × (metadata_or_full_list service name_of asked q
        ≡ ok rows)
      × In row rows
      × ((has_request_permission n (token c) read_action asked.project scope ≡ true)
          ⊎ ((scope ≡ project_scope)
              × (has_request_permission n (token c) read_action (name_of row) scope ≡ true)))

  module _ (scope : Scope) (projects : List String)
      (same : (p : String)
        → covers projects p ≡ has_request_permission n (token c) read_action p scope) where
    open_read :
        (p asked : Parameters)
        → IsReadable (native_authorization n (token c)) p scope
        → IsOpen scope projects p asked
        → has_request_permission n (token c) read_action asked.project scope ≡ true
    unfolding IsOpen IsReadable native_authorization
    open_read p asked r (inl w) =
        sym (same asked.project) ∙ covers-StartsWild projects asked.project w
    open_read p asked r (inr (inl i)) =
        sym (same asked.project) ∙ covers-In projects asked.project i
    open_read p asked r (inr (inr (s, e, full))) =
        subst
          (λ (x : Parameters).
            has_request_permission n (token c) read_action x.project scope ≡ true)
          (sym e) (of_path r)
      where
        of_path :
            IsReadable (native_authorization n (token c)) p scope
            → has_request_permission n (token c) read_action p.project scope ≡ true
        of_path (inl (g, h)) =
            sym (same p.project) ∙ covers-all projects p.project (same wildcard_project ∙ h)
        of_path (inr (inl (t, h))) = absurd (ground (arith, string_eq.beq_iff scope project_scope))
        of_path (inr (inr (t, inl h))) = absurd (ground arith)
        of_path (inr (inr (t, inr h))) = h

    Shown-IsRead :
        (p : Parameters) (q : Query V) (row : R)
        → IsReadable (native_authorization n (token c)) p scope
        → Shown service name_of scope projects p q row
        → IsRead scope q row
    unfolding Shown IsRead
    Shown-IsRead p q row r (asked, rows, e, i, inl open_) =
        (asked, rows, e, i, inl (open_read p asked r open_))
    Shown-IsRead p q row r (asked, rows, e, i, inr (s, j)) =
        (asked, rows, e, i, inr (s, sym (same (name_of row)) ∙ covers-In projects (name_of row) j))

  -- With the native authorization, each row that a user with a name gets from a list is of a list
  -- that the service was asked for with a project in which the user may read the kind, or is itself
  -- a project that the user may read. The cache holds each project of the user once.
  pub list-IsRead :
      (kind : String) (p : Parameters) (q : Query V) (rows : List R)
      → is_map (at_user (lookup c.subject n.permissions)) ≡ true
      → (c.subject == "") ≡ false
      → list service name_of (native_authorization n (token c)) kind p q ≡ ok rows
      → (scope : Scope) × (get_scope kind ≡ ok scope)
        × ((row : R) → In row rows → IsRead scope q row)
  unfolding native_authorization
  list-IsRead kind p q rows keyed named h =
      let (scope, projects, k, g, r, shown) =
        list-Shown service name_of (native_authorization n (token c)) kind p q rows refl h in
      let (others, f, same) =
        get_user_projects-has_request_permission n c read_action scope keyed named in
      (
        scope,
        k,
        λ row i.
            Shown-IsRead scope projects
              (λ x.
                subst (λ ps. covers ps x ≡ has_request_permission n (token c) read_action x scope)
                  (ok_inj others projects (sym f ∙ g)) (same x))
              p q row r (shown row i),
      )
