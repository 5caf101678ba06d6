-- ===== src/Service/Project/Deletion.antt =====
-- A project that was deleted from the database in files leaves nothing of the seven kinds behind.
use perses.Prelude.{
  ◌≡◌, refl, sym, ap, subst, String, Bool, List, [], ◌∷◌, inl, inr, In, Bool-cases, map,
}
use perses.Prelude.Result.{Result, ok, err}
use perses.Model.Kind.{Kind}
use perses.Model.Metadata.{new_metadata}
use perses.Model.Role.{Role}
use perses.Model.RoleBinding.{RoleBinding}
use perses.Model.Project.{Project, ProjectSpec}
use perses.Authorization.Native.{Native, Lists}
use perses.Toolbox.{Parameters, plain}
use perses.Database.File.{
  FileSystem, Codec, project_query, build_query, delete_by_query, delete_document, query,
}
use perses.Database.File as File
use perses.Database.File.Shrinking.{
  Shrinks, Shrinks-same, Shrinks-then, delete_by_query-Shrinks, delete_document-Shrinks, Empty,
  Empty-Shrinks, delete_by_query-Empty, Empty-query,
}
use perses.Service.Entity.{ProjectDao, GlobalDao}
use perses.Service.Persistence.{delete_all, global_dao}
use perses.Service.Refresh.{State}
use perses.Service.Project.{Holdings, delete_each, refresh_first, delete_last, delete}
use perses.Service.Project.Steps.{chain-eq-ok, refreshing-eq-ok}

-- DeleteAll of the seven DAOs over the database in files
abbrev pub file_holdings : {D : Type 0} → File.Dao → Holdings (FileSystem D)
file_holdings d = record {
  folders = delete_all d "Folder";
  dashboards = delete_all d "Dashboard";
  datasources = delete_all d "Datasource";
  secrets = delete_all d "Secret";
  variables = delete_all d "Variable";
  role_bindings = delete_all d "RoleBinding";
  roles = delete_all d "Role";
}

abbrev pub held : List Kind
held = "Folder" ∷ "Dashboard" ∷ "Datasource" ∷ "Secret" ∷ "Variable" ∷ "RoleBinding" ∷ "Role" ∷ []

module _ {D : Type 0} (d : File.Dao) where
  delete_each-Empty :
      (ks : List Kind) (project : String) (fs after : FileSystem D)
      → delete_each (map (delete_all d) ks) project fs ≡ (ok tt, after)
      → Shrinks fs after × ((k : Kind) → In k ks → Empty d (project_query k project "") after)
  unfolding delete_each delete_all
  delete_each-Empty [] project fs after h =
      (subst (Shrinks fs) (ap (λ out. out.1) h) (Shrinks-same fs), λ k i. absurd i)
  delete_each-Empty (k ∷ ks) project fs after h =
      let q = project_query k project "" in
      let (x, mid, first, rest) = chain-eq-ok (delete_by_query d q fs) _ h in
      let (shrinks, empty) = delete_each-Empty ks project mid after rest in
      let step : Shrinks fs mid =
        subst (λ out. Shrinks fs out.1) first (delete_by_query-Shrinks d q fs) in
      let gone : Empty d q mid =
        subst (λ out. Empty d q out.1) first
          (delete_by_query-Empty d q fs (ap (λ out. out.0) first)) in
      (Shrinks-then fs mid after step shrinks, all x mid after gone shrinks empty)
    where
      all :
          (x : Unit {0}) (mid after : FileSystem D)
          → Empty d (project_query k project "") mid
          → Shrinks mid after
          → ((j : Kind) → In j ks → Empty d (project_query j project "") after)
          → (j : Kind) → In j (k ∷ ks)
          → Empty d (project_query j project "") after
      all x mid after gone shrinks empty j (inl same) =
          subst (λ i. Empty d (project_query i project "") after) (sym same)
            (Empty-Shrinks d (project_query k project "") mid after shrinks gone)
      all x mid after gone shrinks empty j (inr i) = empty j i

module _ {DB : Type 0} (dao : GlobalDao Project DB) (role_dao : ProjectDao Role DB)
    (role_binding_dao : ProjectDao RoleBinding DB) (holdings : Holdings DB) (lists_of : DB → Lists)
    (is_enabled : Bool) where
  refresh_first-eq-ok :
      (n : Native) (out : Result (Unit {0}) × DB) {x : Unit {0}} {s : State DB}
      → refresh_first dao role_dao role_binding_dao holdings lists_of is_enabled n out ≡ (ok x, s)
      → out ≡ (ok x, s.db)
  unfolding refresh_first
  refresh_first-eq-ok n (err e, db) h = cc
  refresh_first-eq-ok n (ok _, db) h = elim (Bool-cases is_enabled) [
    | inl e ↦ (refreshing-eq-ok lists_of n (ok tt, db) (rw e at h)).0
    | inr e ↦ ap (λ (o : Result (Unit {0}) × State DB). (o.0, o.1.db)) (rw e at h)
  ]

  delete_last-eq-ok :
      (name : String) (out : Result (Unit {0}) × State DB) {after : State DB}
      → delete_last dao role_dao role_binding_dao holdings lists_of is_enabled name out
        ≡ (ok tt, after)
      → (s : State DB) × (out ≡ (ok tt, s)) × (dao.delete_entity name s.db ≡ (ok tt, after.db))
  unfolding delete_last
  delete_last-eq-ok name (err e, s) h = cc
  delete_last-eq-ok name (ok _, s) h =
      (s, refl, ap (λ (o : Result (Unit {0}) × State DB). (o.0, o.1.db)) h)

module _ {D : Type 0} (codec : Codec ProjectSpec D) (d : File.Dao)
    (role_dao : ProjectDao Role (FileSystem D))
    (role_binding_dao : ProjectDao RoleBinding (FileSystem D)) (lists_of : FileSystem D → Lists)
    (is_enabled : Bool) where
  -- After a project was deleted from the database in files, a query of its folders, dashboards,
  -- datasources, secrets, variables, role bindings or roles finds nothing.
  pub delete-leaves_nothing :
      (p : Parameters) (s after : State (FileSystem D))
      → delete
          (global_dao codec d "Project")
          role_dao
          role_binding_dao
          (file_holdings d)
          lists_of
          is_enabled
          p
          s
        ≡ (ok tt, after)
      → (kind : Kind) → In kind held
      → {B : Type 0} (kind_codec : Codec B D)
      → query kind_codec d (project_query kind p.name "") after.db ≡ ok []
  unfolding delete global_dao build_query
  delete-leaves_nothing p s after h kind i kind_codec =
      let (mid, k, l) =
        delete_last-eq-ok (global_dao codec d "Project") role_dao role_binding_dao (file_holdings d)
          lists_of is_enabled p.name _ h in
      let each =
        refresh_first-eq-ok (global_dao codec d "Project") role_dao role_binding_dao
          (file_holdings d) lists_of is_enabled s.authz _ k in
      let (shrinks, empty) = delete_each-Empty d held p.name s.db mid.db each in
      let step : Shrinks mid.db after.db =
        subst (λ out. Shrinks mid.db out.1) l
          (delete_document-Shrinks d "Project" (plain (new_metadata p.name)) mid.db) in
      Empty-query kind_codec d (project_query kind p.name "") _ after.db refl
        (Empty-Shrinks d (project_query kind p.name "") mid.db after.db step (empty kind i))
