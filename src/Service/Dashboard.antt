-- ===== src/Service/Dashboard.antt =====
-- internal/api/impl/v1/dashboard/service.go. The variables of projects and the global ones
-- come with the references that the scan of their specs found.
pub mod Writes
use Prim.Native.String.{len}
use perses.Prelude.{
  some, ℕ, String, Bool, true, false, not, ◌||◌, List, [], ◌∷◌, eqb, if◌then◌else◌,
}
use perses.Prelude.Result.{Result, ok, err, guard, bad_request, ◌>>=◌, ◌>>◌}
use perses.Model.Metadata.{ProjectMetadata}
use perses.Model.Resource.{Resource}
use perses.VariableOrder.Dependencies.{Variable}
use perses.Validate.{Schema, DashboardSpec, dashboard_spec_with_vars}
use perses.ApiErrors.{or_handled}
use perses.Toolbox.{Parameters, or_bad_request}
use perses.Service.Entity.{
  ProjectDao, ProjectQuery, manage_query, on_ok, check_path, created, updated, resource_entity,
}

abbrev pub Dashboard : Type 0 → Type 0 → Type 0
Dashboard P A = Resource ProjectMetadata (DashboardSpec P A)

pub record Config : Type 0 where
  pub is_datasource_disable : Bool
  pub is_variable_disable : Bool

abbrev is_nil : {A : Type 0} → List A → Bool
is_nil [] = true
is_nil (x ∷ xs) = false

-- `project_variables` and `global_variables` list the variables of a project and the global ones.
module _ {P V A DB : Type 0} (dao : ProjectDao (Dashboard P A) DB) (schema : Schema P V A)
    (project_variables : String → DB → Result (List Variable))
    (global_variables : DB → Result (List Variable)) (config : Config)
    (custom_rules : Dashboard P A → Result (Unit {0})) where
  unfoldable pub collect_project_variables : String → DB → Result (List Variable)
  collect_project_variables project db =
      if eqb (len project) 0 then ok [] else project_variables project db

  unfoldable pub validate : Dashboard P A → DB → Result (Unit {0})
  validate r db = do
    project_vars ← or_handled (collect_project_variables r.metadata.project db)
    global_vars ← or_handled (global_variables db)
    or_bad_request (dashboard_spec_with_vars (some schema) r.spec project_vars global_vars)
    or_bad_request (custom_rules r)
    guard (not config.is_datasource_disable || is_nil r.spec.datasources) bad_request
    guard (not config.is_variable_disable || is_nil r.spec.variables) bad_request

  unfoldable pub create : ℕ → Dashboard P A → DB → Result (Dashboard P A) × DB
  create now r db = on_ok (validate r db) db (λ _. dao.create_entity (created now r) db)

  unfoldable pub update : ℕ → Dashboard P A → Parameters → DB → Result (Dashboard P A) × DB
  update now r p db = on_ok (check_path r p) db (λ f.
      on_ok (validate f db) db
        (λ _. on_ok (dao.get_entity p db) db (λ old. dao.update_entity (updated now f old) db)))

  unfoldable pub delete : Parameters → DB → Result (Unit {0}) × DB
  delete p db = dao.delete_entity p db

  unfoldable pub get : Parameters → DB → Result (Dashboard P A)
  get p db = dao.get_entity p db

  unfoldable pub list : ProjectQuery → Parameters → DB → Result (List (Dashboard P A))
  list q p db = dao.list_entities (manage_query q p) db
