-- ===== src/Toolbox/Visible.antt =====
-- The rows of a list belong to projects that the user reads, when the query itself names no project.
use Prim.Native.String.{len}
use perses.Prelude.{
  String, ◌≡◌, sym, subst, true, false, List, ◌==◌, string_eq, eqb, ◌⊎◌, inl, inr, arith, In,
  Bool-cases,
}
use perses.Prelude.Result.{ok}
use perses.Prelude.Text.{empty_text}
use perses.Model.Permission.{Scope, get_scope, project_scope, read_action}
use perses.Model.User.{wildcard_project}
use perses.Toolbox.{Authorization, Parameters}
use perses.Toolbox.Listing.{Query, ListService, metadata_or_full_list, list}
use perses.Toolbox.Lists.{StartsWild, IsOpen, Shown, IsReadable, list-Shown}

-- The user reads every project, or this one: it is among the projects of the user, or the permission
-- to read is given in it, or everywhere.
pub IsVisible : Authorization → Scope → List String → String → Type 0
IsVisible authz scope projects project =
    StartsWild projects
    ⊎ In project projects
    ⊎ (authz.has_permission read_action project scope ≡ true)
    ⊎ (authz.has_permission read_action wildcard_project scope ≡ true)

module _ {V R : Type 0} (service : ListService V R) (name_of project_of : R → String)
    (authz : Authorization) (kind : String) (p : Parameters) (q : Query V)
    (of_project : (asked : Parameters) (rows : List R) (row : R)
      → eqb (len asked.project) 0 ≡ false
      → metadata_or_full_list service name_of asked q ≡ ok rows
      → In row rows
      → project_of row ≡ asked.project)
    (named : (scope : Scope) (projects : List String)
      → authz.get_user_projects read_action scope ≡ ok projects
      → In "" projects
      → ⊥) where
  path_readable :
      (scope : Scope)
      → (scope == project_scope) ≡ false
      → eqb (len p.project) 0 ≡ false
      → IsReadable authz p scope
      → (authz.has_permission read_action p.project scope ≡ true)
        ⊎ (authz.has_permission read_action wildcard_project scope ≡ true)
  unfolding IsReadable
  path_readable scope other full (inl (g, h)) = inr h
  path_readable scope other full (inr (inl (t, h))) =
      absurd (ground (arith, string_eq.beq_iff scope project_scope))
  path_readable scope other full (inr (inr (t, inl h))) = absurd (ground arith)
  path_readable scope other full (inr (inr (t, inr h))) = inl h

  row-IsVisible :
      (scope : Scope) (projects : List String) (row : R)
      → authz.get_user_projects read_action scope ≡ ok projects
      → IsReadable authz p scope
      → Shown service name_of scope projects p q row
      → IsVisible authz scope projects (project_of row)
        ⊎ ((scope ≡ project_scope) × In (name_of row) projects)
  unfolding Shown IsOpen IsVisible
  row-IsVisible scope projects row g r (asked, rows, e, i, inr own) = inr own
  row-IsVisible scope projects row g r (asked, rows, e, i, inl (inl wild)) = inl (inl wild)
  row-IsVisible scope projects row g r (asked, rows, e, i, inl (inr (inl j))) =
      elim (Bool-cases (eqb (len asked.project) 0)) [
        | inl z ↦
            absurd
              (named scope projects g (subst (λ x. In x projects) (empty_text asked.project z) j))
        | inr z ↦
            inl (inr (inl (subst (λ x. In x projects) (sym (of_project asked rows row z e i)) j)))
      ]
  row-IsVisible scope projects row g r (asked, rows, e, i, inl (inr (inr (other, same, full)))) =
      let here = of_project asked rows row (rw same full) e i in
      elim (path_readable scope other full r) [
        | inl h ↦ inl (inr (inr (inl (rw (here, same) h))))
        | inr h ↦ inl (inr (inr (inr h)))
      ]

  pub list-IsVisible :
      (rows : List R)
      → authz.is_enabled ≡ true
      → list service name_of authz kind p q ≡ ok rows
      → (scope : Scope) × (projects : List String) × (get_scope kind ≡ ok scope)
        × (authz.get_user_projects read_action scope ≡ ok projects)
        × ((row : R)
            → In row rows
            → IsVisible authz scope projects (project_of row)
              ⊎ ((scope ≡ project_scope) × In (name_of row) projects))
  list-IsVisible rows on h =
      let (scope, projects, k, g, r, shown) = list-Shown service name_of authz kind p q rows on h in
      (scope, projects, k, g, λ row i. row-IsVisible scope projects row g r (shown row i))
