-- ===== src/Service/Variable.antt =====
-- internal/api/impl/v1/variable/service.go. The spec of a variable is of a type `V`.
use perses.Prelude.{ℕ, List}
use perses.Prelude.Result.{Result}
use perses.Model.Metadata.{ProjectMetadata}
use perses.Model.Resource.{Resource}
use perses.Validate.{Schema, validate_variable}
use perses.Toolbox.{Parameters, or_bad_request}
use perses.Service.Entity.{
  ProjectDao, ProjectQuery, manage_query, on_ok, check_path, created, updated, resource_entity,
}

module _ {P V A DB : Type 0} (dao : ProjectDao (Resource ProjectMetadata V) DB)
    (schema : Schema P V A) where
  unfoldable pub create :
      ℕ → Resource ProjectMetadata V → DB → Result (Resource ProjectMetadata V) × DB
  create now r db =
      on_ok (or_bad_request (validate_variable schema r.metadata.name r.spec)) db
        (λ _. dao.create_entity (created now r) db)

  unfoldable pub update :
      ℕ → Resource ProjectMetadata V → Parameters → DB → Result (Resource ProjectMetadata V) × DB
  update now r p db = on_ok (check_path r p) db (λ f.
      on_ok (or_bad_request (schema.validate_global_variable f.spec)) db
        (λ _. on_ok (dao.get_entity p db) db (λ old. dao.update_entity (updated now f old) db)))

  unfoldable pub delete : Parameters → DB → Result (Unit {0}) × DB
  delete p db = dao.delete_entity p db

  unfoldable pub get : Parameters → DB → Result (Resource ProjectMetadata V)
  get p db = dao.get_entity p db

  unfoldable pub list : ProjectQuery → Parameters → DB → Result (List (Resource ProjectMetadata V))
  list q p db = dao.list_entities (manage_query q p) db
