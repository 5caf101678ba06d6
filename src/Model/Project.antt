-- ===== src/Model/Project.antt =====
-- pkg/model/api/v1/project.go, and the roles that come with a project, pkg/model/api/v1/utils/default.go.
use perses.Prelude.{String, [], ◌∷◌, Option, some, not, ◌==◌, string_eq, if◌then◌else◌, ℕ}
use perses.Prelude.Result.{Result, ok, err, errorf}
use perses.Model.Unmarshal.{unmarshal}
use perses.Model.Metadata.{Metadata, ProjectMetadata}
use perses.Model.Resource.{Resource}
use perses.Model.Datasource.{Display}
use perses.Model.Permission.{Permission, wildcard_action, wildcard_scope}
use perses.Model.Role.{Role}
use perses.Model.RoleBinding.{RoleBinding}

pub record ProjectSpec : Type 0 where
  pub display : Option Display

abbrev pub Project : Type 0
Project = Resource Metadata ProjectSpec

unfoldable pub validate : Project → Result Project
validate p =
    if not (p.kind == "Project") then err (errorf "invalid kind for a Project type") else ok p

unfoldable pub unmarshal_project : Result Project → Project → Result (Unit {0}) × Project
unmarshal_project = unmarshal validate

-- The metadata of what comes with a project; `now` is time.Now.
abbrev default_metadata : ℕ → String → String → ProjectMetadata
default_metadata now project name = record {
  metadata = record { name = name; created_at = now; updated_at = now; version = 0; tags = [] };
  project = project;
}

abbrev pub owner : String
owner = "owner"

abbrev pub everything : Permission
everything = record { actions = wildcard_action ∷ []; scopes = wildcard_scope ∷ [] }

unfoldable pub default_owner_role : ℕ → String → Role
default_owner_role now project = record {
  kind = "Role";
  metadata = default_metadata now project owner;
  spec = record { permissions = some (everything ∷ []) };
}

unfoldable pub default_editor_role : ℕ → String → Role
default_editor_role now project = record {
  kind = "Role";
  metadata = default_metadata now project "editor";
  spec = record {
    permissions = some (
        record {
          actions = wildcard_action ∷ [];
          scopes = "Dashboard" ∷ "Datasource" ∷ "Folder" ∷ "Secret" ∷ "Variable" ∷ [];
        }
        ∷ record { actions = "read" ∷ []; scopes = "Project" ∷ "Role" ∷ "RoleBinding" ∷ [] }
        ∷ []);
  };
}

unfoldable pub default_viewer_role : ℕ → String → Role
default_viewer_role now project = record {
  kind = "Role";
  metadata = default_metadata now project "viewer";
  spec = record {
    permissions = some (record { actions = "read" ∷ []; scopes = wildcard_scope ∷ [] } ∷ []);
  };
}

unfoldable pub default_owner_role_binding : ℕ → String → String → RoleBinding
default_owner_role_binding now project username = record {
  kind = "RoleBinding";
  metadata = default_metadata now project owner;
  spec = record { role = owner; subjects = some (record { kind = "User"; name = username } ∷ []) };
}
