-- ===== src/Service/Entity.antt =====
-- What the services of internal/api/impl/v1 share: the entities, the checks of an update against the
-- path, the stamps of time and version, the DAO of a kind and the query of a project.
-- deep.Copy of an entity is the entity, as values are not shared here; `time.Now` is an argument.
pub mod Updates
use Prim.Native.String.{len}
use perses.Prelude.{
  ℕ, ◌+◌, ◌%◌, ◌^◌, ◌≡◌, refl, sym, ◌∙◌, subst, ap, String, Bool, true, false, not, List, ◌==◌,
  string_eq, eqb, if◌then◌else◌, arith, ◌⊎◌, inl, inr, Bool-cases,
}
use perses.Prelude.Result.{Result, Error, ok, err, bad_request, internal}
use perses.Model.Resource.{Resource}
use perses.Model.Metadata.{
  Metadata, ProjectMetadata, create_now, update_project, update as update_metadata,
}
use perses.Toolbox.{Parameters}
use perses.Toolbox.Binding.{ok_inj}

-- An entity of some kind with its metadata, and that writing the metadata changes nothing else.
pub record Entity (M R : Type 0) : Type 0 where
  pub metadata_of : R → M
  pub with_metadata : M → R → R
  pub metadata_of-with_metadata : (m : M) (r : R) → metadata_of (with_metadata m r) ≡ m
  pub with_metadata-twice :
      (m n : M) (r : R) → with_metadata m (with_metadata n r) ≡ with_metadata m r

instance abbrev pub resource_entity : {M S : Type 0} → Entity M (Resource M S)
resource_entity = record {
  metadata_of = λ r. r.metadata;
  with_metadata = λ m r. record r { metadata = m };
  metadata_of-with_metadata = λ m r. refl;
  with_metadata-twice = λ m n r. refl;
}

-- The DAO of a kind over a database: the keys of its entities and its queries. A write hands back
-- the entity, whose name the database may have flattened.
pub record Dao (K Q R DB : Type 0) : Type 0 where
  pub create_entity : R → DB → Result R × DB
  pub update_entity : R → DB → Result R × DB
  pub delete_entity : K → DB → Result (Unit {0}) × DB
  pub get_entity : K → DB → Result R
  pub list_entities : Q → DB → Result (List R)

pub record ProjectQuery : Type 0 where
  pub name_prefix : String
  pub project : String

pub record GlobalQuery : Type 0 where
  pub name_prefix : String

abbrev pub ProjectDao : Type 0 → Type 0 → Type 0
ProjectDao = Dao Parameters ProjectQuery

abbrev pub GlobalDao : Type 0 → Type 0 → Type 0
GlobalDao = Dao String GlobalQuery

-- The query goes to the project of the path unless it names another one.
unfoldable pub manage_query : ProjectQuery → Parameters → ProjectQuery
manage_query q p = if eqb (len q.project) 0 then record q { project = p.project } else q

-- a, err := result; if err != nil { return err }, where the database stays as it is
unfoldable pub on_ok : {A B DB : Type 0} → Result A → DB → (A → Result B × DB) → Result B × DB
on_ok (err e) db next = (err e, db)
on_ok (ok a) db next = next a

-- the entity of a result made into another, such as its public struct
unfoldable pub map_result : {A B DB : Type 0} → (A → B) → Result A × DB → Result B × DB
map_result f (err e, db) = (err e, db)
map_result f (ok a, db) = (ok (f a), db)

-- if err != nil { return InternalError }
abbrev pub or_internal : {A : Type 0} → Result A → Result A
or_internal (err e) = err internal
or_internal (ok a) = ok a

pub on_ok-cases :
    {A B DB : Type 0} (r : Result A) (db : DB) (next : A → Result B × DB)
    → ((e : Error) × (r ≡ err e) × (on_ok r db next ≡ (err e, db)))
      ⊎ ((a : A) × (r ≡ ok a) × (on_ok r db next ≡ next a))
unfolding on_ok
on_ok-cases (err e) db next = inl (e, refl, refl)
on_ok-cases (ok a) db next = inr (a, refl, refl)

module _ {R : Type 0} ⦃e : Entity ProjectMetadata R⦄ where
  -- The project of an entity that is updated: that of the path where the entity names none.
  unfoldable pub with_project : R → Parameters → Result R
  with_project r p =
      if eqb (len (e.metadata_of r).project) 0
      then ok (e.with_metadata (record (e.metadata_of r) { project = p.project }) r)
      else if (e.metadata_of r).project == p.project
      then ok r
      else err bad_request

  -- both checks of an update against the path
  unfoldable pub check_path : R → Parameters → Result R
  check_path r p =
      if not ((e.metadata_of r).name == p.name) then err bad_request else with_project r p

  unfoldable pub created : ℕ → R → R
  created now r =
      e.with_metadata
        (record (e.metadata_of r) { metadata = create_now now (e.metadata_of r).metadata }) r

  unfoldable pub updated : ℕ → R → R → R
  updated now r old = e.with_metadata (update_project now (e.metadata_of r) (e.metadata_of old)) r

  -- What an update writes over `old`: the request at the place of the path, with the time of
  -- creation of `old` and its version plus one.
  pub record IsUpdate (r : R) (p : Parameters) (old new : R) : Type 0 where
    pub named : (e.metadata_of new).name ≡ p.name
    pub placed : (e.metadata_of new).project ≡ p.project
    pub kept : (e.metadata_of new).created_at ≡ (e.metadata_of old).created_at
    pub counted : (e.metadata_of new).version ≡ ((e.metadata_of old).version + 1) % 2 ^ 64
    pub same_rest : (m : ProjectMetadata) → e.with_metadata m new ≡ e.with_metadata m r

module _ {R : Type 0} ⦃e : Entity Metadata R⦄ where
  unfoldable pub check_name : R → Parameters → Result R
  check_name r p = if not ((e.metadata_of r).name == p.name) then err bad_request else ok r

  unfoldable pub created_global : ℕ → R → R
  created_global now r = e.with_metadata (create_now now (e.metadata_of r)) r

  unfoldable pub updated_global : ℕ → R → R → R
  updated_global now r old =
      e.with_metadata (update_metadata now (e.metadata_of r) (e.metadata_of old)) r

  pub record IsGlobalUpdate (r : R) (p : Parameters) (old new : R) : Type 0 where
    pub named : (e.metadata_of new).name ≡ p.name
    pub kept : (e.metadata_of new).created_at ≡ (e.metadata_of old).created_at
    pub counted : (e.metadata_of new).version ≡ ((e.metadata_of old).version + 1) % 2 ^ 64
    pub same_rest : (m : Metadata) → e.with_metadata m new ≡ e.with_metadata m r
