-- ===== src/Service/Datasource.antt =====
-- internal/api/impl/v1/datasource/service.go
pub mod Writes
use Prim.Native.String.{len}
use perses.Prelude.{ℕ, String, Bool, List, Option, none, some, eqb, if◌then◌else◌}
use perses.Prelude.Result.{Result, ok, err, ◌>>=◌}
use perses.Model.Metadata.{ProjectMetadata}
use perses.Model.Datasource.{Datasource, filter_datasource}
use perses.Validate.{Schema, validate_datasource}
use perses.Toolbox.{Parameters, or_bad_request}
use perses.Service.Entity.{Dao, on_ok, check_path, created, updated, resource_entity}

pub record Query : Type 0 where
  pub name_prefix : String
  pub project : String
  pub kind : String
  pub default_ : Option Bool

unfoldable pub manage_query : Query → Parameters → Query
manage_query q p = if eqb (len q.project) 0 then record q { project = p.project } else q

abbrev pub DatasourceDao : Type 0 → Type 0 → Type 0
DatasourceDao P = Dao Parameters Query (Datasource P)

module _ {P V A DB : Type 0} (dao : DatasourceDao P DB) (schema : Schema P V A) where
  -- A default is compared with the datasources of the same project; no list is a nil one.
  unfoldable pub list_for_default : Datasource P → DB → Result (Option (List (Datasource P)))
  list_for_default r db =
      if r.spec.default_
      then (dao.list_entities
            (record { name_prefix = ""; project = r.metadata.project; kind = ""; default_ = none })
            db
          >>= λ l. ok (some l))
      else ok none

  unfoldable pub validate : Datasource P → DB → Result (Unit {0})
  validate r db = do list ← list_for_default r db; validate_datasource schema (λ m. m.name) r list

  unfoldable pub create : ℕ → Datasource P → DB → Result (Datasource P) × DB
  create now r db =
      on_ok (or_bad_request (validate r db)) db (λ _. dao.create_entity (created now r) db)

  unfoldable pub update : ℕ → Datasource P → Parameters → DB → Result (Datasource P) × DB
  update now r p db = on_ok (or_bad_request (validate r db)) db (λ _.
      on_ok (check_path r p) db
        (λ f. on_ok (dao.get_entity p db) db (λ old. dao.update_entity (updated now f old) db)))

  unfoldable pub delete : Parameters → DB → Result (Unit {0}) × DB
  delete p db = dao.delete_entity p db

  unfoldable pub get : Parameters → DB → Result (Datasource P)
  get p db = dao.get_entity p db

  unfoldable pub list : Query → Parameters → DB → Result (List (Datasource P))
  list q p db = do
    l ← dao.list_entities (manage_query q p) db
    ok (filter_datasource q.kind q.default_ l)
