-- ===== src/Service/Folder.antt =====
-- internal/api/impl/v1/folder/service.go
use perses.Prelude.{ℕ, List}
use perses.Prelude.Result.{Result}
use perses.Model.Folder.{Folder}
use perses.Toolbox.{Parameters}
use perses.Service.Entity.{
  ProjectDao, ProjectQuery, manage_query, on_ok, check_path, created, updated, resource_entity,
}

module _ {DB : Type 0} (dao : ProjectDao Folder DB) where
  unfoldable pub create : ℕ → Folder → DB → Result Folder × DB
  create now r db = dao.create_entity (created now r) db

  unfoldable pub update : ℕ → Folder → Parameters → DB → Result Folder × DB
  update now r p db =
      on_ok (check_path r p) db
        (λ f. on_ok (dao.get_entity p db) db (λ old. dao.update_entity (updated now f old) db))

  unfoldable pub delete : Parameters → DB → Result (Unit {0}) × DB
  delete p db = dao.delete_entity p db

  unfoldable pub get : Parameters → DB → Result Folder
  get p db = dao.get_entity p db

  unfoldable pub list : ProjectQuery → Parameters → DB → Result (List Folder)
  list q p db = dao.list_entities (manage_query q p) db
