-- ===== src/Examples/Roles.antt =====
-- Updates of the role "viewer", of its binding and of the user "ada".
use perses.Prelude.{[], ◌∷◌}
use perses.Prelude.Result.{ok}
use perses.Model.Role.{Role}
use perses.Model.RoleBinding.{RoleBinding}
use perses.Model.User.{User}
use perses.Authorization.Native.{Lists}
use perses.Toolbox.{Parameters}
use perses.Service.Entity.{Dao, ProjectDao, GlobalDao, IsUpdate}
use perses.Service.Entity.Updates.{Replaces}
use perses.Service.Refresh.{State}
use perses.Service.Refresh.Updates.{Updates}
use perses.Service.Role as Role
use perses.Service.Role.{entity}
use perses.Service.Role.Writes.{update-IsUpdate}
use perses.Service.RoleBinding as RoleBinding
use perses.Service.RoleBinding.Writes.{KeepsRole, update-KeepsRole}
use perses.Service.User as User
use perses.Service.User.Writes.{IsUserUpdate, replace-IsUserUpdate}
use perses.Examples.Access.{with_ada, viewer, ada, ada_views}

-- A database of one entity, whatever its key.
abbrev pub one_entity : {K Q R : Type 0} → Dao K Q R R
one_entity = record {
  create_entity = λ r db. (ok r, r);
  update_entity = λ r db. (ok r, r);
  delete_entity = λ k db. (ok tt, db);
  get_entity = λ k db. ok db;
  list_entities = λ q db. ok (db ∷ []);
}

abbrev no_lists : {DB : Type 0} → DB → Lists
no_lists db = record {
  users = ok [];
  roles = ok [];
  global_roles = ok [];
  role_bindings = ok [];
  global_role_bindings = ok [];
}

abbrev of_viewer : Parameters
of_viewer = record { project = "p"; name = "viewer" }

abbrev roles : ProjectDao Role Role
roles = one_entity

abbrev start : State Role
start = record { db = viewer; authz = with_ada }

update-IsUpdate_example :
    Updates roles no_lists of_viewer
      (IsUpdate viewer of_viewer)
      start
      (Role.update roles no_lists 7 viewer of_viewer start)
update-IsUpdate_example = update-IsUpdate roles no_lists 7 viewer of_viewer start

abbrev of_binding : Parameters
of_binding = record { project = "p"; name = "binding" }

abbrev bindings : ProjectDao RoleBinding RoleBinding
bindings = one_entity

abbrev bound : State RoleBinding
bound = record { db = ada_views; authz = with_ada }

update-KeepsRole_example :
    Updates bindings no_lists of_binding
      (KeepsRole ada_views of_binding)
      bound
      (RoleBinding.update bindings no_lists 7 ada_views of_binding bound)
update-KeepsRole_example = update-KeepsRole bindings no_lists 7 ada_views of_binding bound

abbrev users : GlobalDao User User
users = one_entity

abbrev of_ada : Parameters
of_ada = record { project = ""; name = "ada" }

replace-IsUserUpdate_example :
    Replaces users "ada"
      (IsUserUpdate ok ada of_ada)
      ada
      (User.replace users no_lists ok 7 ada of_ada ada)
replace-IsUserUpdate_example = replace-IsUserUpdate users no_lists ok 7 ada of_ada ada
