-- ===== src/Examples/Files.antt =====
-- A database with one dashboard in a folder "db", whose codec keeps the documents as they are.
use perses.Prelude.Text.{has_prefix, to_lower}
use perses.Prelude.{
  String, ◌≡◌, refl, true, false, [], ◌∷◌, none, ◌⊎◌, ◌↔◌, In, if◌then◌else◌, contains,
}
use perses.Prelude.GoMap.{lookup, insert}
use perses.Prelude.Result.{Error, ok, err, key_not_found}
use perses.Model.Kind.{Kind, plural_kind}
use perses.Model.Metadata.{flatten_project}
use perses.Toolbox.{EntityMetadata, in_project, flatten_metadata}
use perses.Database.Path.{
  FilePath, path_eq, same_path, with_extension, file_name, join, base, after_dot, is_below,
  extension_of, elements, clean, all_elements, step,
}
use perses.Database.File.{
  Document, FileSystem, Dao, Codec, Query, project_query, Selection, build_query, is_visited,
  exists, create, get, query, delete_by_query, delete_document, generate_id, build_path, show_path,
  write_file, generate_project_resource_query, write_document, folders_to, generate_resource_query,
  lower_path, visit, read_files,
}
use perses.Database.File.Store.{path_of, IsLawful, Written, create-Written, delete_document-removed}
use perses.Database.File.Selected.{query-delete_by_query}
use perses.Database.File.Found.{IsSelected, IsStored, query-found}
use perses.Database.File.Keys.{parts, build_path_inj, all_names, is_name}

abbrev plain_codec : Codec String (Document String)
plain_codec = record { marshal = ok; unmarshal = λ kind e. ok e }

abbrev db : Dao
db = record { folder = "db" ∷ []; extension = "json"; case_sensitive = true }

plain_codec-IsLawful : IsLawful plain_codec db
plain_codec-IsLawful e data_ h = cc

abbrev cpu : Document String
cpu = record {
  kind = "Dashboard";
  metadata = in_project (record {
    metadata = record { name = "cpu"; created_at = 1; updated_at = 1; version = 0; tags = [] };
    project = "p";
  });
  body = "panels";
}

abbrev dashboard : Kind
dashboard = "Dashboard"

abbrev cpu_path : FilePath
cpu_path = "db" ∷ "dashboards" ∷ "p" ∷ "cpu.json" ∷ []

abbrev empty_disk : FileSystem (Document String)
empty_disk = record { folders = []; files = [] }

abbrev disk : FileSystem (Document String)
disk = record {
  folders = ("db" ∷ []) ∷ ("db" ∷ "dashboards" ∷ []) ∷ ("db" ∷ "dashboards" ∷ "p" ∷ []) ∷ [];
  files = (cpu_path, cpu) ∷ [];
}

create_run : create plain_codec db cpu empty_disk ≡ (ok cpu, disk)
unfolding create exists contains lookup write_document flatten_metadata write_file flatten_project
    folders_to insert build_path with_extension generate_id join plural_kind file_name clean
    all_elements elements step
create_run = refl

abbrev dashboards_of_p : Query
dashboards_of_p = project_query "Dashboard" "p" "c"

create-Written_example :
    ((exists disk (path_of db "Dashboard" cpu.metadata) ≡ true)
      × ((c : Error) × (create plain_codec db cpu disk ≡ (err c, disk))))
    ⊎ ((exists disk (path_of db "Dashboard" cpu.metadata) ≡ false)
        × Written plain_codec db cpu disk (create plain_codec db cpu disk))
create-Written_example = create-Written plain_codec db cpu disk plain_codec-IsLawful

delete_document-removed_example :
    ((delete_document db "Dashboard" cpu.metadata disk
        ≡ (err (key_not_found (show_path (generate_id "Dashboard" cpu.metadata))), disk))
      × (lookup (build_path db (generate_id "Dashboard" cpu.metadata)) disk.files ≡ none))
    ⊎ (((delete_document db "Dashboard" cpu.metadata disk).0 ≡ ok tt)
        × ((k : Kind) (n : EntityMetadata)
            → get plain_codec db k n (delete_document db "Dashboard" cpu.metadata disk).1 ≡ (
                if same_path (build_path db (generate_id "Dashboard" cpu.metadata)) (path_of db k n)
                then err (key_not_found (show_path (generate_id k (flatten_metadata true n))))
                else get plain_codec db k n disk)))
delete_document-removed_example =
    delete_document-removed plain_codec db "Dashboard" cpu.metadata disk

delete_run : (delete_by_query db dashboards_of_p disk).0 ≡ ok tt
unfolding delete_by_query build_query exists contains same_path generate_project_resource_query join
    plural_kind lookup clean all_elements elements step
delete_run = refl

query-delete_by_query_example :
    query plain_codec db dashboards_of_p (delete_by_query db dashboards_of_p disk).1 ≡ ok []
query-delete_by_query_example = query-delete_by_query plain_codec db dashboards_of_p disk delete_run

abbrev selection : Selection
selection = record { path_folder = "db" ∷ "dashboards" ∷ "p" ∷ []; prefix = "c" }

build_query_run : build_query db dashboards_of_p ≡ ok selection
unfolding build_query generate_project_resource_query join plural_kind lookup clean all_elements
    elements step
build_query_run = refl

query_run : query plain_codec db dashboards_of_p disk ≡ ok (cpu ∷ [])
unfolding query build_query exists contains same_path generate_project_resource_query join
    plural_kind lookup read_files visit is_visited is_below extension_of after_dot base file_name
    has_prefix generate_resource_query lower_path to_lower clean all_elements elements step
query_run = refl

query-found_example :
    ((exists disk selection.path_folder ≡ false) × (cpu ∷ [] ≡ []))
    ⊎ ((e : Document String)
        → In e (cpu ∷ []) ↔ (
            (p : FilePath) × IsSelected db selection p
            × IsStored plain_codec db "Dashboard" disk p e))
query-found_example =
    query-found plain_codec db dashboards_of_p selection disk (cpu ∷ []) build_query_run query_run

build_path_inj_example : (dashboard ≡ dashboard) × (parts cpu.metadata ≡ parts cpu.metadata)
unfolding contains all_names plural_kind lookup parts is_name
build_path_inj_example =
    build_path_inj db dashboard dashboard cpu.metadata cpu.metadata refl refl refl refl refl
