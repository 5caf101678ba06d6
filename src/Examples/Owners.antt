-- ===== src/Examples/Owners.antt =====
-- The creation of the project "p" by "ada" in a database in files, which holds projects, roles and role
-- bindings.
use perses.Prelude.GoMap.{lookup}
use perses.Database.Path.{
  add_char, is_below, clean, join, after_dot, extension_of, with_extension, base, step, elements,
  same_path, file_name, all_elements, up,
}
use perses.Prelude.{ℕ, String, ◌≡◌, refl, true, List, [], ◌∷◌, inl, map, some, contains}
use perses.Prelude.Result.{Result, ok, err, errorf}
use perses.Model.Kind.{Kind}
use perses.Model.Metadata.{ProjectMetadata}
use perses.Model.Resource.{Resource}
use perses.Model.Role.{Role, RoleSpec}
use perses.Model.RoleBinding.{RoleBinding, RoleBindingSpec}
use perses.Model.Project.{
  Project, ProjectSpec, owner, default_owner_role, default_editor_role, default_viewer_role,
  default_owner_role_binding,
}
use perses.Authorization.Permissions.{find_role, has_permission}
use perses.Authorization.Native.{Lists, Context, token, get_username, get_user}
use perses.Authorization.Native.Access.{read}
use perses.Authorization.Native.Given.{IsUser}
use perses.Database.File.{
  Document, FileSystem, Codec, read_files, build_path, exists, write_document, folders_to,
  generate_id, write_file,
}
use perses.Service.Entity.{ProjectDao, map_result}
use perses.Service.Refresh.{State}
use perses.Service.Persistence.{
  project_dao, global_dao, write_as, read_as, project_document, global_resource, project_resource,
  global_document,
}
use perses.Service.Project.{
  create, refreshing, chain, give_permissions, bind_owner, create_roles, answered,
}
use perses.Service.Project.Deletion.{file_holdings}
use perses.Service.Project.Owner.{create-IsOwner}
use perses.Examples.Access.{claims_of_ada, ada}
use perses.Examples.Projects.{project, db}

-- what a file holds
data Body : Type 0 where
  project_body : ProjectSpec → Body
  role_body : RoleSpec → Body
  binding_body : RoleBindingSpec → Body

abbrev Disk : Type 0
Disk = FileSystem (Document Body)

abbrev with_body : {A B : Type 0} → Document A → B → Document B
with_body e body = record { kind = e.kind; metadata = e.metadata; body = body }

abbrev project_of : Document Body → Body → Result (Document ProjectSpec)
project_of e (project_body s) = ok (with_body e s)
project_of e (role_body s) = err (errorf "not a project")
project_of e (binding_body s) = err (errorf "not a project")

abbrev role_of : Document Body → Body → Result (Document RoleSpec)
role_of e (project_body s) = err (errorf "not a role")
role_of e (role_body s) = ok (with_body e s)
role_of e (binding_body s) = err (errorf "not a role")

abbrev binding_of : Document Body → Body → Result (Document RoleBindingSpec)
binding_of e (project_body s) = err (errorf "not a role binding")
binding_of e (role_body s) = err (errorf "not a role binding")
binding_of e (binding_body s) = ok (with_body e s)

abbrev project_codec : Codec ProjectSpec (Document Body)
project_codec = record {
  marshal = λ e. ok (with_body e (project_body e.body));
  unmarshal = λ kind e. project_of e e.body;
}

abbrev role_codec : Codec RoleSpec (Document Body)
role_codec = record {
  marshal = λ e. ok (with_body e (role_body e.body));
  unmarshal = λ kind e. role_of e e.body;
}

abbrev binding_codec : Codec RoleBindingSpec (Document Body)
binding_codec = record {
  marshal = λ e. ok (with_body e (binding_body e.body));
  unmarshal = λ kind e. binding_of e e.body;
}

abbrev as_role : Resource ProjectMetadata RoleSpec → Role
as_role r = record { kind = r.kind; metadata = r.metadata; spec = r.spec }

abbrev of_role : Role → Resource ProjectMetadata RoleSpec
of_role r = record { kind = r.kind; metadata = r.metadata; spec = r.spec }

abbrev as_binding : Resource ProjectMetadata RoleBindingSpec → RoleBinding
as_binding r = record { kind = r.kind; metadata = r.metadata; spec = r.spec }

abbrev of_binding : RoleBinding → Resource ProjectMetadata RoleBindingSpec
of_binding r = record { kind = r.kind; metadata = r.metadata; spec = r.spec }

abbrev roles_in_files : ProjectDao Role Disk
roles_in_files =
    let dao = project_dao role_codec db "Role" in
    record {
      create_entity = λ r fs. write_as as_role (dao.create_entity (of_role r) fs);
      update_entity = λ r fs. write_as as_role (dao.update_entity (of_role r) fs);
      delete_entity = dao.delete_entity;
      get_entity = λ k fs. read_as as_role (dao.get_entity k fs);
      list_entities = λ q fs. read_as (map as_role) (dao.list_entities q fs);
    }

abbrev bindings_in_files : ProjectDao RoleBinding Disk
bindings_in_files =
    let dao = project_dao binding_codec db "RoleBinding" in
    record {
      create_entity = λ r fs. write_as as_binding (dao.create_entity (of_binding r) fs);
      update_entity = λ r fs. write_as as_binding (dao.update_entity (of_binding r) fs);
      delete_entity = dao.delete_entity;
      get_entity = λ k fs. read_as as_binding (dao.get_entity k fs);
      list_entities = λ q fs. read_as (map as_binding) (dao.list_entities q fs);
    }

-- "ada" is the registered user, and there is nothing global.
abbrev lists_of : Disk → Lists
lists_of fs = record {
  users = ok (ada ∷ []);
  roles = roles_in_files.list_entities (record { name_prefix = ""; project = "" }) fs;
  global_roles = ok [];
  role_bindings = bindings_in_files.list_entities (record { name_prefix = ""; project = "" }) fs;
  global_role_bindings = ok [];
}

abbrev empty : State Disk
empty = record {
  db = record { folders = []; files = [] };
  authz = record { permissions = []; guest_permissions = [] };
}

abbrev of_ada : Context
of_ada = token claims_of_ada

abbrev created : State Disk
created =
    (create (global_dao project_codec db "Project") roles_in_files bindings_in_files
      (file_holdings db) lists_of true 7 of_ada project empty).1

create_run :
    create
      (global_dao project_codec db "Project")
      roles_in_files
      bindings_in_files
      (file_holdings db)
      lists_of
      true
      7
      of_ada
      project
      empty
    ≡ (ok project, created)
unfolding perses.Service.Project.create perses.Service.Project.give_permissions
    perses.Service.Persistence.global_dao perses.Service.Persistence.project_dao
    perses.Service.Persistence.write_as perses.Service.Persistence.read_as
    perses.Database.File.create perses.Database.File.exists perses.Prelude.contains
    perses.Prelude.GoMap.lookup perses.Prelude.GoMap.insert perses.Database.File.write_document
    perses.Service.Entity.map_result perses.Service.Project.refreshing
    perses.Service.Project.create_roles perses.Service.Project.chain
    perses.Service.Project.bind_owner perses.Service.Project.answered
    perses.Database.File.write_file perses.Database.File.folders_to perses.Database.File.build_path
    perses.Database.File.generate_id perses.Database.Path.join perses.Database.Path.clean
    perses.Database.Path.step perses.Database.Path.up perses.Database.Path.elements
    perses.Database.Path.all_elements perses.Database.Path.add_char
    perses.Database.Path.with_extension perses.Database.Path.file_name
    perses.Database.Path.same_path perses.Model.Kind.plural_kind
    perses.Service.Entity.created_global perses.Service.Entity.on_ok
    perses.Model.Metadata.create_now perses.Authorization.Native.get_username
    perses.Authorization.Native.get_user perses.Toolbox.flatten_metadata
    perses.Model.Metadata.flatten perses.Model.Metadata.flatten_project
    perses.Model.Project.default_owner_role perses.Model.Project.default_editor_role
    perses.Model.Project.default_viewer_role perses.Model.Project.default_owner_role_binding
    perses.Authorization.Native.refresh_permissions perses.Authorization.Native.load_all_permissions
    perses.Database.File.query perses.Database.File.build_query
    perses.Database.File.generate_project_resource_query perses.Database.File.visit
    perses.Database.File.is_visited perses.Database.File.read_files perses.Database.Path.is_below
    perses.Database.Path.base perses.Database.Path.extension_of perses.Database.Path.after_dot
    perses.Service.Persistence.global_document perses.Service.Persistence.project_document
    perses.Service.Persistence.global_resource perses.Service.Persistence.project_resource
create_run = refl

ada_name : get_username of_ada ≡ ok "ada"
unfolding get_username get_user
ada_name = refl

abbrev roles : List Role
roles = default_owner_role 7 "p" ∷ default_editor_role 7 "p" ∷ default_viewer_role 7 "p" ∷ []

abbrev bindings : List RoleBinding
bindings = default_owner_role_binding 7 "p" "ada" ∷ []

lists_run : lists_of created.db ≡ read (ada ∷ []) roles [] bindings []
unfolding perses.Service.Project.create perses.Service.Project.give_permissions
    perses.Service.Persistence.global_dao perses.Service.Persistence.project_dao
    perses.Service.Persistence.write_as perses.Service.Persistence.read_as
    perses.Database.File.create perses.Database.File.exists perses.Prelude.contains
    perses.Prelude.GoMap.lookup perses.Prelude.GoMap.insert perses.Database.File.write_document
    perses.Service.Entity.map_result perses.Service.Project.refreshing
    perses.Service.Project.create_roles perses.Service.Project.chain
    perses.Service.Project.bind_owner perses.Service.Project.answered
    perses.Database.File.write_file perses.Database.File.folders_to perses.Database.File.build_path
    perses.Database.File.generate_id perses.Database.Path.join perses.Database.Path.clean
    perses.Database.Path.step perses.Database.Path.up perses.Database.Path.elements
    perses.Database.Path.all_elements perses.Database.Path.add_char
    perses.Database.Path.with_extension perses.Database.Path.file_name
    perses.Database.Path.same_path perses.Model.Kind.plural_kind
    perses.Service.Entity.created_global perses.Service.Entity.on_ok
    perses.Model.Metadata.create_now perses.Authorization.Native.get_username
    perses.Authorization.Native.get_user perses.Toolbox.flatten_metadata
    perses.Model.Metadata.flatten perses.Model.Metadata.flatten_project
    perses.Model.Project.default_owner_role perses.Model.Project.default_editor_role
    perses.Model.Project.default_viewer_role perses.Model.Project.default_owner_role_binding
    perses.Authorization.Native.refresh_permissions perses.Authorization.Native.load_all_permissions
    perses.Database.File.query perses.Database.File.build_query
    perses.Database.File.generate_project_resource_query perses.Database.File.visit
    perses.Database.File.is_visited perses.Database.File.read_files perses.Database.Path.is_below
    perses.Database.Path.base perses.Database.Path.extension_of perses.Database.Path.after_dot
    perses.Service.Persistence.global_document perses.Service.Persistence.project_document
    perses.Service.Persistence.global_resource perses.Service.Persistence.project_resource
lists_run = refl

abbrev ada_registered : IsUser (ada ∷ []) "ada"
ada_registered = (ada, inl refl, refl)

owner_found : find_role roles "p" owner ≡ some (default_owner_role 7 "p")
unfolding find_role default_owner_role
owner_found = refl

create-IsOwner_example : has_permission created.authz.permissions "ada" "delete" "p" "Role" ≡ true
create-IsOwner_example =
    create-IsOwner (global_dao project_codec db "Project") roles_in_files bindings_in_files
      (file_holdings db) lists_of 7 of_ada "ada" project project empty created (ada ∷ []) roles []
      bindings [] ada_name refl create_run lists_run ada_registered (λ x fs gs h. owner_found)
      (λ y fs h. inl refl) "delete" "Role"
