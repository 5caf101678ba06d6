-- ===== src/Examples/Projects.antt =====
-- The deletion of the project "p", which has a variable, from a database in files.
use perses.Database.Path.{
  elements, join, is_below, all_elements, same_path, file_name, clean, with_extension, step,
}
use perses.Model.Kind.{plural_kind}
use perses.Prelude.GoMap.{lookup}
use perses.Prelude.{◌≡◌, refl, true, [], ◌∷◌, none, inl, inr, string_eq, contains}
use perses.Prelude.Result.{ok, err, errorf}
use perses.Model.Role.{Role}
use perses.Model.RoleBinding.{RoleBinding}
use perses.Model.Metadata.{new_metadata}
use perses.Model.Project.{Project, ProjectSpec}
use perses.Authorization.Native.{Lists, load_all_permissions, refresh_permissions}
use perses.Authorization.Native.Access.{read}
use perses.Toolbox.{Parameters, plain, in_project}
use perses.Database.File.{
  Document, FileSystem, Dao, Codec, project_query, query, delete_by_query, keep_outside,
  build_query, generate_project_resource_query, delete_document, remove_file, folders_outside,
  build_path, remove_all, remove_selected, exists, generate_id,
}
use perses.Service.Entity.{ProjectDao}
use perses.Service.Refresh.{State}
use perses.Service.Persistence.{global_dao, delete_all}
use perses.Service.Project.{
  delete, answered, chain, refreshing, delete_last, refresh_first, delete_each,
}
use perses.Service.Project.Deletion.{file_holdings, delete-leaves_nothing}
use perses.Examples.Access.{with_ada}

abbrev pub project : Project
project = record {
  kind = "Project";
  metadata = record { name = "p"; created_at = 7; updated_at = 7; version = 0; tags = [] };
  spec = record { display = none };
}

abbrev plain_codec : Codec ProjectSpec (Document ProjectSpec)
plain_codec = record { marshal = ok; unmarshal = λ kind e. ok e }

abbrev pub db : Dao
db = record { folder = "db" ∷ []; extension = "json"; case_sensitive = true }

abbrev file_roles : ProjectDao Role (FileSystem (Document ProjectSpec))
file_roles = record {
  create_entity = λ r fs. (ok r, fs);
  update_entity = λ r fs. (ok r, fs);
  delete_entity = λ k fs. (ok tt, fs);
  get_entity = λ k fs. err (errorf "not found");
  list_entities = λ q fs. ok [];
}

abbrev file_bindings : ProjectDao RoleBinding (FileSystem (Document ProjectSpec))
file_bindings = record {
  create_entity = λ r fs. (ok r, fs);
  update_entity = λ r fs. (ok r, fs);
  delete_entity = λ k fs. (ok tt, fs);
  get_entity = λ k fs. err (errorf "not found");
  list_entities = λ q fs. ok [];
}

abbrev no_lists : FileSystem (Document ProjectSpec) → Lists
no_lists fs = read [] [] [] [] []

-- A project with a variable.
abbrev disk : State (FileSystem (Document ProjectSpec))
disk = record {
  db = record {
    folders = ("db" ∷ []) ∷ ("db" ∷ "variables" ∷ []) ∷ ("db" ∷ "variables" ∷ "p" ∷ []) ∷ [];
    files =
        (
          "db" ∷ "projects" ∷ "p.json" ∷ [],
          record { kind = "Project"; metadata = plain project.metadata; body = project.spec },
        )
        ∷ (
          "db" ∷ "variables" ∷ "p" ∷ "v.json" ∷ [],
          record {
            kind = "Variable";
            metadata = in_project (record { metadata = project.metadata; project = "p" });
            body = project.spec;
          },
        )
        ∷ [];
  };
  authz = with_ada;
}

abbrev of_p : Parameters
of_p = record { project = ""; name = "p" }

abbrev emptied : State (FileSystem (Document ProjectSpec))
emptied =
    (delete (global_dao plain_codec db "Project") file_roles file_bindings (file_holdings db)
      no_lists true of_p disk).1

delete_run :
    delete
      (global_dao plain_codec db "Project")
      file_roles
      file_bindings
      (file_holdings db)
      no_lists
      true
      of_p
      disk
    ≡ (ok tt, emptied)
unfolding delete global_dao delete_last refresh_first delete_each chain delete_all delete_by_query
    build_query exists contains same_path generate_project_resource_query join plural_kind lookup
    remove_selected remove_all folders_outside keep_outside is_below delete_document generate_id
    build_path with_extension file_name remove_file new_metadata answered refreshing
    refresh_permissions load_all_permissions clean all_elements elements step
delete_run = refl

delete-leaves_nothing_example :
    query plain_codec db (project_query "Variable" "p" "") emptied.db ≡ ok []
delete-leaves_nothing_example =
    delete-leaves_nothing plain_codec db file_roles file_bindings no_lists true of_p disk emptied
      delete_run "Variable" (inr (inr (inr (inr (inl refl))))) plain_codec
