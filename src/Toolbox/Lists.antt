-- ===== src/Toolbox/Lists.antt =====
-- Where the rows of a list come from when authorization is enabled.
use Prim.Native.String.{len}
use perses.Prelude.{
  String, ◌≡◌, refl, sym, ap, ◌∙◌, Bool, true, false, List, [], ◌∷◌, some, ◌==◌, string_eq, eqb,
  if◌then◌else◌, ◌⊎◌, inl, inr, arith, Bool-cases, Option-cases, In, In-append, subst,
}
use perses.Prelude.GoMap.{GoMap, insert, lookup, lookup-insert, lookup-nil}
use perses.Prelude.Result.{Result, ok, >>=-eq-ok}
use perses.Model.Permission.{Scope, get_scope, project_scope, read_action, is_global_scope}
use perses.Model.User.{wildcard_project}
use perses.Toolbox.{Authorization, Parameters, check_permission_list}
use perses.Toolbox.Binding.{ok_inj}
use perses.Toolbox.Listing.{
  Query, ListService, metadata_or_full_list, build_map_from_list, keep_projects, list_of_projects,
  list_project_when_permission_is_activated, list_for, is_wildcard,
  list_when_permission_is_activated, list,
}

else_branch :
    {A : Type 0} (b : Bool) (m k : Result A) (a : A)
    → b ≡ false
    → (if b then m else k) ≡ ok a
    → k ≡ ok a
else_branch b m k a f h = ground arith

then_branch :
    {A : Type 0} (b : Bool) (m k : Result A) (a : A)
    → b ≡ true
    → (if b then m else k) ≡ ok a
    → m ≡ ok a
then_branch b m k a f h = ground arith

-- The user has access to every project.
unfoldable pub StartsWild : List String → Type 0
StartsWild [] = ⊥
StartsWild (first ∷ rest) = first ≡ wildcard_project

wild :
    (first : String) (rest : List String) → is_wildcard first rest ≡ true → first ≡ wildcard_project
unfolding is_wildcard
wild first [] h = (string_eq.beq_iff first wildcard_project).0 h
wild first (_ ∷ _) h = cc

-- What the service may be asked for: a project that the user reads, anything for a user who reads
-- all projects, or the project of the path.
unfoldable pub IsOpen : Scope → List String → Parameters → Parameters → Type 0
IsOpen scope projects p asked =
    StartsWild projects
    ⊎ In asked.project projects
    ⊎ (((scope == project_scope) ≡ false) × (asked ≡ p) × (eqb (len p.project) 0 ≡ false))

module _ {V R : Type 0} (service : ListService V R) (name_of : R → String) where
  lookup-build :
      (xs : List R) (m : GoMap String R) (k : String) (r : R)
      → lookup k (build_map_from_list service name_of xs m) ≡ some r
      → (In r xs × (name_of r ≡ k)) ⊎ (lookup k m ≡ some r)
  unfolding build_map_from_list
  lookup-build [] m k r h = inr h
  lookup-build (x ∷ xs) m k r h = ground (
    arith,
    lookup-build xs (insert (name_of x) x m) k r,
    lookup-insert (name_of x) k x m,
    string_eq.beq_iff (name_of x) k,
  )

  In-keep :
      (projects : List String) (m : GoMap String R) (r : R)
      → In r (keep_projects service name_of projects m)
      → (k : String) × In k projects × (lookup k m ≡ some r)
  unfolding keep_projects
  In-keep [] m r i = absurd i
  In-keep (p ∷ ps) m r i = elim (Option-cases (lookup p m)) [
    | inl e ↦ let (k, j, h) = In-keep ps m r (ground arith) in (k, inr j, h)
    | inr (x, e) ↦ elim (kept x e) [
      | inl same ↦ (p, inl refl, e ∙ ap some (sym same))
      | inr j ↦ let (k, l, h) = In-keep ps m r j in (k, inr l, h)
    ]
  ]
    where
      kept : (x : R) → lookup p m ≡ some x → (r ≡ x) ⊎ In r (keep_projects service name_of ps m)
      kept x e = ground arith

  -- A row comes from a list that the user may see, or it is a project that the user reads.
  unfoldable pub Shown : Scope → List String → Parameters → Query V → R → Type 0
  Shown scope projects p q row =
      (asked : Parameters) × (rows : List R) × (metadata_or_full_list service name_of asked q
        ≡ ok rows)
      × In row rows
      × (IsOpen scope projects p asked ⊎ ((scope ≡ project_scope) × In (name_of row) projects))

  In-list_of_projects :
      (projects : List String) (p : Parameters) (q : Query V) (rows : List R) (row : R)
      → list_of_projects service name_of projects p q ≡ ok rows
      → In row rows
      → (project : String) × (part : List R) × In project projects
        × (metadata_or_full_list service name_of (record p { project = project }) q ≡ ok part)
        × In row part
  unfolding list_of_projects
  In-list_of_projects [] p q rows row h i = absurd (subst (λ xs. In row xs) (sym (ok_inj _ _ h)) i)
  In-list_of_projects (project ∷ projects) p q rows row h i =
      let (part, e, h1) =
        >>=-eq-ok (metadata_or_full_list service name_of (record p { project = project }) q) _ h in
      let (rest, f, h2) = >>=-eq-ok (list_of_projects service name_of projects p q) _ h1 in
      elim (In-append row part rest (subst (λ xs. In row xs) (sym (ok_inj _ _ h2)) i)) [
        | inl j ↦ (project, part, inl refl, e, j)
        | inr j ↦
            let (other, part', k, e', l) = In-list_of_projects projects p q rest row f j in
            (other, part', inr k, e', l)
      ]

  list_project-Shown :
      (scope : Scope) (p : Parameters) (first : String) (rest : List String) (q : Query V)
      (rows : List R) (row : R)
      → scope ≡ project_scope
      → list_project_when_permission_is_activated service name_of p first rest q ≡ ok rows
      → In row rows
      → Shown scope (first ∷ rest) p q row
  unfolding Shown IsOpen StartsWild list_project_when_permission_is_activated
  list_project-Shown scope p first rest q rows row s h i =
      elim (Bool-cases (first == wildcard_project)) [
        | inl w ↦
            (p, rows, ground arith, i, inl (inl ((string_eq.beq_iff first wildcard_project).0 w)))
        | inr w ↦
            let (xs, e, h1) =
              >>=-eq-ok (metadata_or_full_list service name_of p q) _
                (else_branch _ _ _ rows w h) in
            let (k, j, l) =
              In-keep (first ∷ rest) (build_map_from_list service name_of xs []) row
                (subst (λ ys. In row ys) (sym (ok_inj _ _ h1)) i) in
            elim (lookup-build xs [] k row l) [
              | inl (m, n) ↦ (p, xs, e, m, inr (s, subst (λ x. In x (first ∷ rest)) (sym n) j))
              | inr n ↦ absurd (nothing k row n)
            ]
      ]
    where
      nothing : (k : String) (r : R) → lookup k [] ≡ some r → ⊥
      nothing k r n = ground (arith, lookup-nil {V = R} k)

  list_for-Shown :
      (scope : Scope) (p : Parameters) (projects : List String) (q : Query V) (rows : List R)
      (row : R)
      → list_for service name_of scope p projects q ≡ ok rows
      → In row rows
      → Shown scope projects p q row
  unfolding Shown IsOpen StartsWild list_for
  list_for-Shown scope p [] q rows row h i = absurd (subst (λ ys. In row ys) (sym (ok_inj _ _ h)) i)
  list_for-Shown scope p (first ∷ rest) q rows row h i =
      elim (Bool-cases (scope == project_scope)) [
        | inl s ↦
            list_project-Shown scope p first rest q rows row
              ((string_eq.beq_iff scope project_scope).0 s) (then_branch _ _ _ rows s h) i
        | inr s ↦ elim (Bool-cases (eqb (len p.project) 0)) [
          | inr e ↦ (p, rows, ground arith, i, inl (inr (inr (s, refl, e))))
          | inl e ↦ elim (Bool-cases (is_wildcard first rest)) [
            | inl w ↦ (p, rows, ground arith, i, inl (inl (wild first rest w)))
            | inr w ↦
                let (project, part, j, a, k) =
                  In-list_of_projects (first ∷ rest) p q rows row (ground arith) i in
                (record p { project = project }, part, a, k, inl (inr (inl j)))
          ]
        ]
      ]

-- What the check before a list ensures.
unfoldable pub IsReadable : Authorization → Parameters → Scope → Type 0
IsReadable authz p scope =
    ((is_global_scope scope ≡ true)
      × (authz.has_permission read_action wildcard_project scope ≡ true))
    ⊎ ((scope ≡ project_scope)
        × (eqb (len p.name) 0 ≡ true ⊎ authz.has_permission read_action p.name scope ≡ true))
    ⊎ (((scope == project_scope) ≡ false)
        × (eqb (len p.project) 0 ≡ true ⊎ authz.has_permission read_action p.project scope ≡ true))

check_permission_list-IsReadable :
    (authz : Authorization) (p : Parameters) (scope : Scope)
    → authz.is_enabled ≡ true
    → check_permission_list authz p scope ≡ ok tt
    → IsReadable authz p scope
unfolding IsReadable check_permission_list
check_permission_list-IsReadable authz p scope e h =
    ground (arith, string_eq.beq_iff scope project_scope)

module _ {V R : Type 0} (service : ListService V R) (name_of : R → String) (authz : Authorization)
    (kind : String) where
  -- When authorization is enabled and a list is answered, the read permission held where the path
  -- asks for it, and each row is of a list that the service was asked for with a project that the
  -- user reads, with any project for a user who reads all, or with the project of the path; or the
  -- row is itself a project that the user reads.
  pub list-Shown :
      (p : Parameters) (q : Query V) (rows : List R)
      → authz.is_enabled ≡ true
      → list service name_of authz kind p q ≡ ok rows
      → (scope : Scope) × (projects : List String) × (get_scope kind ≡ ok scope)
        × (authz.get_user_projects read_action scope ≡ ok projects)
        × IsReadable authz p scope
        × ((row : R) → In row rows → Shown service name_of scope projects p q row)
  unfolding list list_when_permission_is_activated
  list-Shown p q rows on h =
      let (scope, e, h1) = >>=-eq-ok (get_scope kind) _ (then_branch _ _ _ rows on h) in
      let (u, c, h2) = >>=-eq-ok (check_permission_list authz p scope) _ h1 in
      let (projects, g, h3) = >>=-eq-ok (authz.get_user_projects read_action scope) _ h2 in
      (
        scope,
        projects,
        e,
        g,
        check_permission_list-IsReadable authz p scope on c,
        λ row i. list_for-Shown service name_of scope p projects q rows row h3 i,
      )
