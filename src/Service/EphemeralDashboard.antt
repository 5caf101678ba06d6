-- ===== src/Service/EphemeralDashboard.antt =====
-- internal/api/impl/v1/ephemeraldashboard/service.go. The variables of projects and the global ones
-- come with the references that the scan of their specs found.
use Prim.Native.String.{len}
use perses.Prelude.{some, ℕ, String, List, [], eqb, if◌then◌else◌}
use perses.Prelude.Result.{Result, ok, ◌>>=◌}
use perses.Model.Metadata.{ProjectMetadata}
use perses.Model.Resource.{Resource}
use perses.VariableOrder.Dependencies.{Variable}
use perses.Validate.{Schema, DashboardSpec, dashboard_spec_with_vars}
use perses.ApiErrors.{or_handled}
use perses.Toolbox.{Parameters, or_bad_request}
use perses.Service.Entity.{
  ProjectDao, ProjectQuery, manage_query, on_ok, check_path, created, updated, resource_entity,
}

-- The spec of an ephemeral dashboard is that of a dashboard with a time to live.
pub record EphemeralSpec (P A : Type 0) : Type 0 where
  pub ttl : ℕ
  pub spec : DashboardSpec P A

abbrev pub EphemeralDashboard : Type 0 → Type 0 → Type 0
EphemeralDashboard P A = Resource ProjectMetadata (EphemeralSpec P A)

-- `project_variables` and `global_variables` list the variables of a project and the global ones.
module _ {P V A DB : Type 0} (dao : ProjectDao (EphemeralDashboard P A) DB) (schema : Schema P V A)
    (project_variables : String → DB → Result (List Variable))
    (global_variables : DB → Result (List Variable)) where
  unfoldable pub collect_project_variables : String → DB → Result (List Variable)
  collect_project_variables project db =
      if eqb (len project) 0 then ok [] else project_variables project db

  unfoldable pub validate : EphemeralDashboard P A → DB → Result (Unit {0})
  validate r db = do
    project_vars ← or_handled (collect_project_variables r.metadata.project db)
    global_vars ← or_handled (global_variables db)
    or_bad_request (dashboard_spec_with_vars (some schema) r.spec.spec project_vars global_vars)

  unfoldable pub create : ℕ → EphemeralDashboard P A → DB → Result (EphemeralDashboard P A) × DB
  create now r db = on_ok (validate r db) db (λ _. dao.create_entity (created now r) db)

  unfoldable pub update :
      ℕ → EphemeralDashboard P A → Parameters → DB → Result (EphemeralDashboard P A) × DB
  update now r p db = on_ok (check_path r p) db (λ f.
      on_ok (validate f db) db
        (λ _. on_ok (dao.get_entity p db) db (λ old. dao.update_entity (updated now f old) db)))

  unfoldable pub delete : Parameters → DB → Result (Unit {0}) × DB
  delete p db = dao.delete_entity p db

  unfoldable pub get : Parameters → DB → Result (EphemeralDashboard P A)
  get p db = dao.get_entity p db

  unfoldable pub list : ProjectQuery → Parameters → DB → Result (List (EphemeralDashboard P A))
  list q p db = dao.list_entities (manage_query q p) db
