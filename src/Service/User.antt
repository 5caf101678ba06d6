-- ===== src/Service/User.antt =====
-- internal/api/impl/v1/user/service.go. HashAndSalt is a parameter, with the salt of the call.
pub mod Writes
use Prim.Native.String.{len}
use perses.Prelude.{ℕ, String, List, refl, map, eqb, if◌then◌else◌, not, Bool}
use perses.Prelude.Result.{Result, ok, err, guard, bad_request, ◌>>=◌}
use perses.Model.Metadata.{Metadata}
use perses.Model.User.{User, UserSpec, PublicUser, new_public_user}
use perses.Authorization.Native.{Lists}
use perses.Toolbox.{Parameters}
use perses.Service.Entity.{
  Entity, GlobalDao, GlobalQuery, on_ok, or_internal, map_result, check_name, created_global,
  updated_global,
}
use perses.Service.Refresh.{State, written}

instance abbrev pub entity : Entity Metadata User
entity = record {
  metadata_of = λ r. r.metadata;
  with_metadata = λ m r. record r { metadata = m };
  metadata_of-with_metadata = λ m r. refl;
  with_metadata-twice = λ m n r. refl;
}

unfoldable pub with_password : String → User → User
with_password hash u = record u {
  spec = record u.spec { native_provider = record { password = hash } };
}

abbrev pub or_old : String → String → String
or_old new old = if eqb (len new) 0 then old else new

-- The names of a user are kept where the request gives none.
unfoldable pub with_names : User → User → User
with_names u old = record u {
  spec = record u.spec {
    first_name = or_old u.spec.first_name old.spec.first_name;
    last_name = or_old u.spec.last_name old.spec.last_name;
  };
}

module _ {DB : Type 0} (dao : GlobalDao User DB) (lists_of : DB → Lists)
    (hash_and_salt : String → Result String) where
  unfoldable pub insert : ℕ → User → DB → Result User × DB
  insert now r db =
      on_ok (guard (not (eqb (len r.spec.native_provider.password) 0)) bad_request) db (λ _.
        on_ok (or_internal (hash_and_salt r.spec.native_provider.password)) db
          (λ hash. dao.create_entity (with_password hash (created_global now r)) db))

  unfoldable pub create : ℕ → User → State DB → Result PublicUser × State DB
  create now r s = map_result new_public_user (written lists_of s.authz (insert now r s.db))

  -- The hash of a new password, or the old one where the request gives none.
  unfoldable pub new_hash : User → User → Result String
  new_hash r old =
      if eqb (len r.spec.native_provider.password) 0
      then ok old.spec.native_provider.password
      else hash_and_salt r.spec.native_provider.password

  unfoldable pub replace : ℕ → User → Parameters → DB → Result User × DB
  replace now r p db = on_ok (check_name r p) db (λ f. on_ok (dao.get_entity p.name db) db (λ old.
      on_ok (new_hash f old) db (λ hash.
        dao.update_entity (with_names (with_password hash (updated_global now f old)) old) db)))

  unfoldable pub update : ℕ → User → Parameters → State DB → Result PublicUser × State DB
  update now r p s = map_result new_public_user (written lists_of s.authz (replace now r p s.db))

  unfoldable pub delete : Parameters → State DB → Result (Unit {0}) × State DB
  delete p s = written lists_of s.authz (dao.delete_entity p.name s.db)

  unfoldable pub get : Parameters → State DB → Result PublicUser
  get p s = do u ← dao.get_entity p.name s.db; ok (new_public_user u)

  unfoldable pub list : GlobalQuery → Parameters → State DB → Result (List PublicUser)
  list q p s = do l ← dao.list_entities q s.db; ok (map new_public_user l)
