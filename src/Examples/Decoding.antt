-- ===== src/Examples/Decoding.antt =====
-- Decoding of kinds, scopes and roles.
use perses.Prelude.{◌≡◌, ◌↔◌, [], ◌∷◌, some, In, ◌⊎◌, elems}
use perses.Prelude.Text.{to_lower}
use perses.Prelude.Result.{Error, ok, err}
use perses.Model.Kind.{kinds, get_kind}
use perses.Model.Kind.Laws.{get_kind-eq-ok}
use perses.Model.Permission.{scopes, get_scope}
use perses.Model.Permission.Laws.{get_scope-eq-ok}
use perses.Model.Role.{Role, unmarshal_role}
use perses.Model.Role.Laws.{IsLocal, unmarshal_role_lem}

get_kind-eq-ok_example :
    (get_kind "dashboard" ≡ ok "Dashboard")
    ↔ (In "Dashboard" kinds × (to_lower "dashboard" ≡ to_lower "Dashboard"))
get_kind-eq-ok_example = get_kind-eq-ok "dashboard" "Dashboard"

get_scope-eq-ok_example :
    (get_scope "ROLE" ≡ ok "Role") ↔ (In "Role" scopes × (to_lower "ROLE" ≡ to_lower "Role"))
get_scope-eq-ok_example = get_scope-eq-ok "ROLE" "Role"

abbrev empty_role : Role
empty_role = record {
  kind = "Role";
  metadata = record {
    metadata = record { name = "r"; created_at = 0; updated_at = 0; version = 0; tags = [] };
    project = "p";
  };
  spec = record { permissions = some [] };
}

abbrev local_role : Role
local_role = record empty_role {
  spec = record {
    permissions = some (record { actions = "read" ∷ []; scopes = "Dashboard" ∷ [] } ∷ []);
  };
}

unmarshal_role_lem_example :
    ((r : Role) × (unmarshal_role (ok local_role) empty_role ≡ (ok tt, r))
      × (r.kind ≡ "Role")
      × IsLocal (elems r.spec.permissions))
    ⊎ ((e : Error) × (unmarshal_role (ok local_role) empty_role ≡ (err e, empty_role)))
unmarshal_role_lem_example = unmarshal_role_lem (ok local_role) empty_role
