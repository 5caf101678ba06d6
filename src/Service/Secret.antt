-- ===== src/Service/Secret.antt =====
-- internal/api/impl/v1/secret/service.go. What is stored is encrypted, what is answered is public.
pub mod Writes
pub mod Reads
use perses.Prelude.{ℕ, List, map}
use perses.Prelude.Result.{Result, ok, err, ◌>>=◌}
use perses.Model.Metadata.{ProjectMetadata}
use perses.Model.Secret.{Secret, SecretSpec, PublicSecret, new_public_secret}
use perses.Toolbox.{Parameters}
use perses.Service.Entity.{
  ProjectDao, ProjectQuery, manage_query, on_ok, map_result, or_internal, check_path, created,
  updated, resource_entity,
}

-- `encrypt` is Encrypt with the random bytes of the call
module _ {DB : Type 0} (dao : ProjectDao Secret DB) (encrypt : SecretSpec → Result SecretSpec) where
  unfoldable pub create : ℕ → Secret → DB → Result PublicSecret × DB
  create now r db = on_ok (or_internal (encrypt r.spec)) db (λ spec.
      map_result new_public_secret (dao.create_entity (record (created now r) { spec = spec }) db))

  -- the update in the database, before its result is made public
  unfoldable pub replace : ℕ → Secret → Parameters → DB → Result Secret × DB
  replace now r p db = on_ok (check_path r p) db (λ f. on_ok (dao.get_entity p db) db (λ old.
      on_ok (or_internal (encrypt f.spec)) db
        (λ spec. dao.update_entity (record (updated now f old) { spec = spec }) db)))

  unfoldable pub update : ℕ → Secret → Parameters → DB → Result PublicSecret × DB
  update now r p db = map_result new_public_secret (replace now r p db)

  unfoldable pub delete : Parameters → DB → Result (Unit {0}) × DB
  delete p db = dao.delete_entity p db

  unfoldable pub get : Parameters → DB → Result PublicSecret
  get p db = do s ← dao.get_entity p db; ok (new_public_secret s)

  unfoldable pub list : ProjectQuery → Parameters → DB → Result (List PublicSecret)
  list q p db = do l ← dao.list_entities (manage_query q p) db; ok (map new_public_secret l)
