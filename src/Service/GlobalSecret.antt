-- ===== src/Service/GlobalSecret.antt =====
-- internal/api/impl/v1/globalsecret/service.go. What is stored is encrypted, what is answered is public.
use perses.Prelude.{ℕ, List, map}
use perses.Prelude.Result.{Result, ok, ◌>>=◌}
use perses.Model.Secret.{GlobalSecret, SecretSpec, PublicGlobalSecret, new_public_global_secret}
use perses.Toolbox.{Parameters}
use perses.Service.Entity.{
  GlobalDao, GlobalQuery, on_ok, map_result, or_internal, check_name, created_global,
  updated_global, resource_entity,
}

-- `encrypt` is Encrypt with the random bytes of the call
module _ {DB : Type 0} (dao : GlobalDao GlobalSecret DB)
    (encrypt : SecretSpec → Result SecretSpec) where
  unfoldable pub create : ℕ → GlobalSecret → DB → Result PublicGlobalSecret × DB
  create now r db = on_ok (or_internal (encrypt r.spec)) db (λ spec.
      map_result new_public_global_secret
        (dao.create_entity (record (created_global now r) { spec = spec }) db))

  -- the update in the database, before its result is made public
  unfoldable pub replace : ℕ → GlobalSecret → Parameters → DB → Result GlobalSecret × DB
  replace now r p db = on_ok (check_name r p) db (λ f. on_ok (dao.get_entity p.name db) db (λ old.
      on_ok (or_internal (encrypt f.spec)) db
        (λ spec. dao.update_entity (record (updated_global now f old) { spec = spec }) db)))

  unfoldable pub update : ℕ → GlobalSecret → Parameters → DB → Result PublicGlobalSecret × DB
  update now r p db = map_result new_public_global_secret (replace now r p db)

  unfoldable pub delete : Parameters → DB → Result (Unit {0}) × DB
  delete p db = dao.delete_entity p.name db

  unfoldable pub get : Parameters → DB → Result PublicGlobalSecret
  get p db = do s ← dao.get_entity p.name db; ok (new_public_global_secret s)

  unfoldable pub list : GlobalQuery → Parameters → DB → Result (List PublicGlobalSecret)
  list q p db = do l ← dao.list_entities q db; ok (map new_public_global_secret l)
