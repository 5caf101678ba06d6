-- ===== src/Service/Persistence.antt =====
-- internal/api/impl/v1/*/persistence.go: the DAOs of the kinds over the database in files. The codec
-- reads and writes the specs of a kind.
pub mod Reads
use perses.Prelude.{String, List, map}
use perses.Prelude.Result.{Result, ok, err, ◌>>=◌}
use perses.Model.Kind.{Kind}
use perses.Model.Metadata.{Metadata, ProjectMetadata, new_metadata, new_project_metadata}
use perses.Model.Resource.{Resource}
use perses.Toolbox.{EntityMetadata, plain, in_project, Parameters}
use perses.Database.File.{
  Document, FileSystem, Codec, project_query, global_query, create, upsert, get, query,
  delete_document, delete_by_query,
}
use perses.Database.File as File
use perses.Service.Entity.{Dao, ProjectQuery, GlobalQuery, ProjectDao, GlobalDao}

-- A document as an entity of a kind of projects, and of a global kind. The metadata has the shape
-- that the kind gives it.
abbrev project_part : EntityMetadata → ProjectMetadata
project_part (in_project m) = m
project_part (plain m) = record { metadata = m; project = "" }

abbrev global_part : EntityMetadata → Metadata
global_part (plain m) = m
global_part (in_project m) = m.metadata

unfoldable pub project_document : {S : Type 0} → Resource ProjectMetadata S → Document S
project_document r = record { kind = r.kind; metadata = in_project r.metadata; body = r.spec }

unfoldable pub project_resource : {S : Type 0} → Document S → Resource ProjectMetadata S
project_resource e = record { kind = e.kind; metadata = project_part e.metadata; spec = e.body }

unfoldable pub global_document : {S : Type 0} → Resource Metadata S → Document S
global_document r = record { kind = r.kind; metadata = plain r.metadata; body = r.spec }

unfoldable pub global_resource : {S : Type 0} → Document S → Resource Metadata S
global_resource e = record { kind = e.kind; metadata = global_part e.metadata; spec = e.body }

unfoldable pub read_as : {A B : Type 0} → (A → B) → Result A → Result B
read_as f (err e) = err e
read_as f (ok a) = ok (f a)

unfoldable pub write_as : {A B DB : Type 0} → (A → B) → Result A × DB → Result B × DB
write_as f (r, db) = (read_as f r, db)

unfoldable pub delete_all :
    {D : Type 0} → File.Dao → Kind → String → FileSystem D → Result (Unit {0}) × FileSystem D
delete_all d kind project fs = delete_by_query d (project_query kind project "") fs

module _ {S D : Type 0} (codec : Codec S D) (d : File.Dao) (kind : Kind) where
  unfoldable pub project_dao : ProjectDao (Resource ProjectMetadata S) (FileSystem D)
  project_dao = record {
    create_entity = λ r fs. write_as project_resource (create codec d (project_document r) fs);
    update_entity = λ r fs. write_as project_resource (upsert codec d (project_document r) fs);
    delete_entity =
        λ p fs. delete_document d kind (in_project (new_project_metadata p.project p.name)) fs;
    get_entity = λ p fs.
        read_as project_resource
          (get codec d kind (in_project (new_project_metadata p.project p.name)) fs);
    list_entities = λ q fs.
        read_as (map project_resource)
          (query codec d (project_query kind q.project q.name_prefix) fs);
  }

  unfoldable pub global_dao : GlobalDao (Resource Metadata S) (FileSystem D)
  global_dao = record {
    create_entity = λ r fs. write_as global_resource (create codec d (global_document r) fs);
    update_entity = λ r fs. write_as global_resource (upsert codec d (global_document r) fs);
    delete_entity = λ name fs. delete_document d kind (plain (new_metadata name)) fs;
    get_entity =
        λ name fs. read_as global_resource (get codec d kind (plain (new_metadata name)) fs);
    list_entities =
        λ q fs. read_as (map global_resource) (query codec d (global_query kind q.name_prefix) fs);
  }
