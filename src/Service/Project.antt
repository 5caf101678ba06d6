-- ===== src/Service/Project.antt =====
-- internal/api/impl/v1/project/service.go: the creation of a project with its roles, its update, and
-- its deletion with all that it holds. The native authorization is the one in use, or none is enabled.
pub mod Steps
pub mod Owner
pub mod Deletion
use Prim.Native.String.{len}
use perses.Prelude.{ℕ, String, Bool, true, false, List, [], ◌∷◌, eqb, if◌then◌else◌}
use perses.Prelude.Result.{Result, Error, ok, err, errorf}
use perses.Model.Metadata.{Metadata}
use perses.Model.Role.{Role}
use perses.Model.RoleBinding.{RoleBinding}
use perses.Model.Project.{
  Project, default_owner_role, default_editor_role, default_viewer_role, default_owner_role_binding,
}
use perses.Authorization.Native.{Native, Lists, Context, get_username, refresh_permissions}
use perses.Toolbox.{Parameters}
use perses.Service.Entity.{
  ProjectDao, GlobalDao, GlobalQuery, on_ok, map_result, check_name, created_global, updated_global,
  resource_entity,
}
use perses.Service.Refresh.{State}

-- a, err := call; if err != nil { return err }, for a call that may have changed the database
unfoldable pub chain : {A B DB : Type 0} → Result A × DB → (A → DB → Result B × DB) → Result B × DB
chain (err e, db) next = (err e, db)
chain (ok a, db) next = next a db

-- fmt.Errorf("failed to ...: %e", err)
abbrev pub failing {ℓ} : {A : Type ℓ} → Result A → Result A
failing (err e) = err (errorf "failed to create the default roles")
failing (ok a) = ok a

abbrev pub call_failing : {A DB : Type 0} → Result A × DB → Result A × DB
call_failing (r, db) = (failing r, db)

unfoldable pub answered :
    {A DB : Type 0} → A → DB → Result (Unit {0}) × Native → Result A × State DB
answered a db (err e, n) = (err e, record { db = db; authz = n })
answered a db (ok _, n) = (ok a, record { db = db; authz = n })

-- return s.authz.RefreshPermissions(), after calls that changed the database
unfoldable pub refreshing :
    {A DB : Type 0} → (DB → Lists) → Native → Result A × DB → Result A × State DB
refreshing lists_of n (err e, db) = (err e, record { db = db; authz = n })
refreshing lists_of n (ok a, db) = answered a db (refresh_permissions (lists_of db) n)

-- DeleteAll of the DAOs of the kinds that a project holds
pub record Holdings (DB : Type 0) : Type 0 where
  pub folders : String → DB → Result (Unit {0}) × DB
  pub dashboards : String → DB → Result (Unit {0}) × DB
  pub datasources : String → DB → Result (Unit {0}) × DB
  pub secrets : String → DB → Result (Unit {0}) × DB
  pub variables : String → DB → Result (Unit {0}) × DB
  pub role_bindings : String → DB → Result (Unit {0}) × DB
  pub roles : String → DB → Result (Unit {0}) × DB

abbrev pub cascade : {DB : Type 0} → Holdings DB → List (String → DB → Result (Unit {0}) × DB)
cascade h =
    h.folders ∷ h.dashboards ∷ h.datasources ∷ h.secrets ∷ h.variables ∷ h.role_bindings ∷ h.roles
    ∷ []

-- one after the other, up to the first that fails
unfoldable pub delete_each :
    {DB : Type 0}
    → List (String → DB → Result (Unit {0}) × DB)
    → String
    → DB
    → Result (Unit {0}) × DB
delete_each [] project db = (ok tt, db)
delete_each (delete_all ∷ rest) project db =
    chain (delete_all project db) (λ _ after. delete_each rest project after)

module _ {DB : Type 0} (dao : GlobalDao Project DB) (role_dao : ProjectDao Role DB)
    (role_binding_dao : ProjectDao RoleBinding DB) (holdings : Holdings DB) (lists_of : DB → Lists)
    (is_enabled : Bool) where
  unfoldable pub bind_owner : ℕ → String → DB → String → Result (Unit {0}) × DB
  bind_owner now project db username =
      if eqb (len username) 0
      then (ok tt, db)
      else chain
          (call_failing
            (role_binding_dao.create_entity (default_owner_role_binding now project username) db))
          (λ _ after. (ok tt, after))

  -- createProjectRoleAndRoleBinding, up to the refresh
  unfoldable pub create_roles : ℕ → Context → String → DB → Result (Unit {0}) × DB
  create_roles now ctx project db =
      chain (call_failing (role_dao.create_entity (default_owner_role now project) db)) (λ _ db1.
        chain (call_failing (role_dao.create_entity (default_editor_role now project) db1))
          (λ _ db2.
            chain (call_failing (role_dao.create_entity (default_viewer_role now project) db2))
              (λ _ db3. on_ok (failing (get_username ctx)) db3 (bind_owner now project db3))))

  -- If authorization is enabled, permissions to the creator need to be given
  unfoldable pub give_permissions :
      ℕ → Context → Native → Result Project × DB → Result Project × State DB
  give_permissions now ctx n (err e, db) = (err e, record { db = db; authz = n })
  give_permissions now ctx n (ok r, db) =
      if is_enabled
      then map_result (λ _. r) (refreshing lists_of n (create_roles now ctx r.metadata.name db))
      else (ok r, record { db = db; authz = n })

  unfoldable pub create : ℕ → Context → Project → State DB → Result Project × State DB
  create now ctx r s =
      give_permissions now ctx s.authz (dao.create_entity (created_global now r) s.db)

  unfoldable pub update : ℕ → Project → Parameters → DB → Result Project × DB
  update now r p db = on_ok (check_name r p) db (λ f.
      on_ok (dao.get_entity p.name db) db (λ old. dao.update_entity (updated_global now f old) db))

  -- the refresh before the project itself is deleted
  unfoldable pub refresh_first : Native → Result (Unit {0}) × DB → Result (Unit {0}) × State DB
  refresh_first n (err e, db) = (err e, record { db = db; authz = n })
  refresh_first n (ok _, db) =
      if is_enabled
      then refreshing lists_of n (ok tt, db)
      else (ok tt, record { db = db; authz = n })

  unfoldable pub delete_last : String → Result (Unit {0}) × State DB → Result (Unit {0}) × State DB
  delete_last name (err e, s) = (err e, s)
  delete_last name (ok _, s) =
      let (r, db) = dao.delete_entity name s.db in (r, record s { db = db })

  unfoldable pub delete : Parameters → State DB → Result (Unit {0}) × State DB
  delete p s =
      delete_last p.name (refresh_first s.authz (delete_each (cascade holdings) p.name s.db))

  unfoldable pub get : Parameters → DB → Result Project
  get p db = dao.get_entity p.name db

  unfoldable pub list : GlobalQuery → Parameters → DB → Result (List Project)
  list q p db = dao.list_entities q db
