-- ===== src/Service/RoleBinding.antt =====
-- internal/api/impl/v1/rolebinding/service.go
pub mod Writes
use perses.Model.Metadata.{ProjectMetadata}
use perses.Prelude.{ℕ, List, refl, ◌==◌, string_eq}
use perses.Prelude.Result.{Result, ok, err, guard, bad_request}
use perses.Model.RoleBinding.{RoleBinding}
use perses.Authorization.Native.{Lists}
use perses.Toolbox.{Parameters}
use perses.Service.Entity.{
  Entity, ProjectDao, ProjectQuery, manage_query, on_ok, check_path, created, updated,
}
use perses.Service.Refresh.{State, written}

instance abbrev pub entity : Entity ProjectMetadata RoleBinding
entity = record {
  metadata_of = λ r. r.metadata;
  with_metadata = λ m r. record r { metadata = m };
  metadata_of-with_metadata = λ m r. refl;
  with_metadata-twice = λ m n r. refl;
}

module _ {DB : Type 0} (dao : ProjectDao RoleBinding DB) (lists_of : DB → Lists) where
  unfoldable pub create : ℕ → RoleBinding → State DB → Result RoleBinding × State DB
  create now r s = written lists_of s.authz (dao.create_entity (created now r) s.db)

  -- the update in the database, which leaves the role of a binding alone
  unfoldable pub replace : ℕ → RoleBinding → Parameters → DB → Result RoleBinding × DB
  replace now r p db = on_ok (check_path r p) db (λ f. on_ok (dao.get_entity p db) db (λ old.
      on_ok (guard (f.spec.role == old.spec.role) bad_request) db
        (λ _. dao.update_entity (updated now f old) db)))

  -- An update that failed before the write leaves the database as it was and is not followed by a
  -- refresh either.
  unfoldable pub update : ℕ → RoleBinding → Parameters → State DB → Result RoleBinding × State DB
  update now r p s = written lists_of s.authz (replace now r p s.db)

  unfoldable pub delete : Parameters → State DB → Result (Unit {0}) × State DB
  delete p s = written lists_of s.authz (dao.delete_entity p s.db)

  unfoldable pub get : Parameters → State DB → Result RoleBinding
  get p s = dao.get_entity p s.db

  unfoldable pub list : ProjectQuery → Parameters → State DB → Result (List RoleBinding)
  list q p s = dao.list_entities (manage_query q p) s.db
