-- ===== src/Examples/Cleaning.antt =====
-- Two ephemeral dashboards at the time 10: one of the time 1 that lives for 5, one of the time 9.
use perses.Service.Entity.{on_ok}
use perses.Model.Kind.{plural_kind}
use perses.Model.Metadata.{flatten_project, new_project_metadata, new_metadata}
use perses.Prelude.Text.{has_prefix, to_lower}
use perses.Service.Project.{chain}
use perses.Prelude.{ℕ, String, ◌≡◌, refl, true, List, [], ◌∷◌, none, if◌then◌else◌, contains}
use perses.Prelude.GoMap.{lookup}
use perses.Prelude.Result.{ok}
use perses.Toolbox.{in_project, flatten_metadata}
use perses.Database.Path.{
  FilePath, path_eq, join, with_extension, base, file_name, after_dot, same_path, is_below,
  extension_of, all_elements, clean, elements, step,
}
use perses.Database.File.{
  Document, FileSystem, Dao, Codec, read_files, upsert, delete_document, generate_resource_query,
  exists, check_name, is_visited, folders_to, generate_project_resource_query, generate_id,
  lower_path, remove_file, visit, build_path, show_path, write_document, build_query, write_file,
}
use perses.Service.Persistence.{project_dao, read_as, project_resource, project_document, write_as}
use perses.Service.EphemeralDashboard.{EphemeralDashboard, EphemeralSpec}
use perses.Service.Cleaner.{execute, is_outlived, clean_each}
use perses.Service.Cleaner.Cleaned.{holds_outlived, execute-Cleans}

abbrev Stored : Type 0
Stored = Document (EphemeralSpec String String)

abbrev plain_codec : Codec (EphemeralSpec String String) Stored
plain_codec = record { marshal = ok; unmarshal = λ kind e. ok e }

abbrev db : Dao
db = record { folder = "db" ∷ []; extension = "json"; case_sensitive = true }

abbrev dashboard : String → ℕ → Stored
dashboard name updated_at = record {
  kind = "EphemeralDashboard";
  metadata = in_project (record {
    metadata = record {
      name = name;
      created_at = 1;
      updated_at = updated_at;
      version = 0;
      tags = [];
    };
    project = "p";
  });
  body = record { ttl = 5; spec = record { variables = []; datasources = []; layout = "grid" } };
}

abbrev folders : List FilePath
folders =
    ("db" ∷ [])
    ∷ ("db" ∷ "ephemeraldashboards" ∷ [])
    ∷ ("db" ∷ "ephemeraldashboards" ∷ "p" ∷ [])
    ∷ []

abbrev path : String → FilePath
path name = "db" ∷ "ephemeraldashboards" ∷ "p" ∷ name ∷ []

abbrev disk : FileSystem Stored
disk = record {
  folders = folders;
  files = (path "old.json", dashboard "old" 1) ∷ (path "new.json", dashboard "new" 9) ∷ [];
}

abbrev cleaned : FileSystem Stored
cleaned = record { folders = folders; files = (path "new.json", dashboard "new" 9) ∷ [] }

execute_run : execute (project_dao plain_codec db "EphemeralDashboard") 10 disk ≡ (ok tt, cleaned)
unfolding execute on_ok project_dao read_as perses.Database.File.query build_query exists contains
    same_path generate_project_resource_query join plural_kind lookup read_files visit is_visited
    is_below extension_of build_path check_name perses.Database.File.create delete_document
    folders_to generate_id generate_resource_query perses.Database.File.get lower_path remove_file
    show_path upsert write_document write_file after_dot base file_name with_extension
    perses.Model.Metadata.flatten flatten_project new_metadata new_project_metadata
    perses.Prelude.GoMap.delete perses.Prelude.GoMap.insert has_prefix to_lower clean_each
    is_outlived project_document project_resource write_as chain flatten_metadata clean all_elements
    elements step
execute_run = refl

execute-Cleans_example :
    (rs : List (EphemeralDashboard String String)) × ((project_dao plain_codec db
          "EphemeralDashboard").list_entities
        (record { name_prefix = ""; project = "" })
        disk
      ≡ ok rs)
    × ((p : FilePath)
        → lookup p cleaned.files
          ≡ (if holds_outlived db 10 rs p then none else lookup p disk.files))
execute-Cleans_example = execute-Cleans plain_codec db 10 disk cleaned execute_run
