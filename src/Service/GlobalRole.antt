-- ===== src/Service/GlobalRole.antt =====
-- internal/api/impl/v1/globalrole/service.go

use perses.Model.Metadata.{Metadata}
use perses.Prelude.{ℕ, List, refl}
use perses.Prelude.Result.{Result}
use perses.Model.Role.{GlobalRole}
use perses.Authorization.Native.{Lists}
use perses.Toolbox.{Parameters}
use perses.Service.Entity.{
  Entity, GlobalDao, GlobalQuery, on_ok, check_name, created_global, updated_global,
}
use perses.Service.Refresh.{State, written}

instance abbrev pub entity : Entity Metadata GlobalRole
entity = record {
  metadata_of = λ r. r.metadata;
  with_metadata = λ m r. record r { metadata = m };
  metadata_of-with_metadata = λ m r. refl;
  with_metadata-twice = λ m n r. refl;
}

module _ {DB : Type 0} (dao : GlobalDao GlobalRole DB) (lists_of : DB → Lists) where
  unfoldable pub create : ℕ → GlobalRole → State DB → Result GlobalRole × State DB
  create now r s = written lists_of s.authz (dao.create_entity (created_global now r) s.db)

  -- the update in the database
  unfoldable pub replace : ℕ → GlobalRole → Parameters → DB → Result GlobalRole × DB
  replace now r p db = on_ok (check_name r p) db (λ f.
      on_ok (dao.get_entity p.name db) db (λ old. dao.update_entity (updated_global now f old) db))

  -- An update that failed before the write leaves the database as it was and is not followed by a
  -- refresh either.
  unfoldable pub update : ℕ → GlobalRole → Parameters → State DB → Result GlobalRole × State DB
  update now r p s = written lists_of s.authz (replace now r p s.db)

  unfoldable pub delete : Parameters → State DB → Result (Unit {0}) × State DB
  delete p s = written lists_of s.authz (dao.delete_entity p.name s.db)

  unfoldable pub get : Parameters → State DB → Result GlobalRole
  get p s = dao.get_entity p.name s.db

  unfoldable pub list : GlobalQuery → Parameters → State DB → Result (List GlobalRole)
  list q p s = dao.list_entities q s.db
