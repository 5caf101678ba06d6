-- ===== src/Service/GlobalVariable.antt =====
-- internal/api/impl/v1/globalvariable/service.go. The spec of a variable is of a type `V`.
use perses.Prelude.{ℕ, List}
use perses.Prelude.Result.{Result}
use perses.Model.Metadata.{Metadata}
use perses.Model.Resource.{Resource}
use perses.Validate.{Schema, validate_variable}
use perses.Toolbox.{Parameters, or_bad_request}
use perses.Service.Entity.{
  GlobalDao, GlobalQuery, on_ok, check_name, created_global, updated_global, resource_entity,
}

module _ {P V A DB : Type 0} (dao : GlobalDao (Resource Metadata V) DB)
    (schema : Schema P V A) where
  unfoldable pub create : ℕ → Resource Metadata V → DB → Result (Resource Metadata V) × DB
  create now r db =
      on_ok (or_bad_request (validate_variable schema r.metadata.name r.spec)) db
        (λ _. dao.create_entity (created_global now r) db)

  unfoldable pub update :
      ℕ → Resource Metadata V → Parameters → DB → Result (Resource Metadata V) × DB
  update now r p db = on_ok (check_name r p) db (λ f.
      on_ok (or_bad_request (schema.validate_global_variable f.spec)) db (λ _.
        on_ok (dao.get_entity p.name db) db
          (λ old. dao.update_entity (updated_global now f old) db)))

  unfoldable pub delete : Parameters → DB → Result (Unit {0}) × DB
  delete p db = dao.delete_entity p.name db

  unfoldable pub get : Parameters → DB → Result (Resource Metadata V)
  get p db = dao.get_entity p.name db

  unfoldable pub list : GlobalQuery → Parameters → DB → Result (List (Resource Metadata V))
  list q p db = dao.list_entities q db
