-- ===== src/Service/GlobalDatasource.antt =====
-- internal/api/impl/v1/globaldatasource/service.go

use perses.Prelude.{ℕ, String, Bool, List, Option, none, some, if◌then◌else◌}
use perses.Prelude.Result.{Result, ok, ◌>>=◌}
use perses.Model.Datasource.{GlobalDatasource, filter_datasource}
use perses.Validate.{Schema, validate_datasource}
use perses.Toolbox.{Parameters, or_bad_request}
use perses.Service.Entity.{Dao, on_ok, check_name, created_global, updated_global, resource_entity}

pub record Query : Type 0 where
  pub name_prefix : String
  pub kind : String
  pub default_ : Option Bool

abbrev pub DatasourceDao : Type 0 → Type 0 → Type 0
DatasourceDao P = Dao String Query (GlobalDatasource P)

module _ {P V A DB : Type 0} (dao : DatasourceDao P DB) (schema : Schema P V A) where
  -- A default is compared with the datasources of the same kind; no list is a nil one.
  unfoldable pub list_for_default :
      GlobalDatasource P → DB → Result (Option (List (GlobalDatasource P)))
  list_for_default r db =
      if r.spec.default_
      then (dao.list_entities (record { name_prefix = ""; kind = ""; default_ = none }) db >>= λ l.
          ok (some l))
      else ok none

  unfoldable pub validate : GlobalDatasource P → DB → Result (Unit {0})
  validate r db = do list ← list_for_default r db; validate_datasource schema (λ m. m.name) r list

  unfoldable pub create : ℕ → GlobalDatasource P → DB → Result (GlobalDatasource P) × DB
  create now r db =
      on_ok (or_bad_request (validate r db)) db (λ _. dao.create_entity (created_global now r) db)

  unfoldable pub update :
      ℕ → GlobalDatasource P → Parameters → DB → Result (GlobalDatasource P) × DB
  update now r p db = on_ok (or_bad_request (validate r db)) db (λ _.
      on_ok (check_name r p) db (λ f.
        on_ok (dao.get_entity p.name db) db
          (λ old. dao.update_entity (updated_global now f old) db)))

  unfoldable pub delete : Parameters → DB → Result (Unit {0}) × DB
  delete p db = dao.delete_entity p.name db

  unfoldable pub get : Parameters → DB → Result (GlobalDatasource P)
  get p db = dao.get_entity p.name db

  unfoldable pub list : Query → Parameters → DB → Result (List (GlobalDatasource P))
  list q p db = do l ← dao.list_entities q db; ok (filter_datasource q.kind q.default_ l)
