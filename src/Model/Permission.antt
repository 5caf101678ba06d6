-- ===== src/Model/Permission.antt =====
-- pkg/model/api/v1/role: actions, scopes and permissions. `validate` of an action or a scope checks
-- the value with `GetAction` or `GetScope`, but keeps the spelling that was decoded.
pub mod Laws
use Prim.Native.String.{len}
use perses.Prelude.{String, Bool, List, [], ◌∷◌, eqb, contains, string_eq, length, if◌then◌else◌}
use perses.Prelude.Text.{to_lower, by_lower}
use perses.Prelude.Result.{Result, ok, err, errorf, or_error, ◌>>=◌}
use perses.Model.Unmarshal.{unmarshal}

-- type Action string
abbrev pub Action : Type 0
Action = String

abbrev pub read_action : Action
read_action = "read"

abbrev pub create_action : Action
create_action = "create"

abbrev pub update_action : Action
update_action = "update"

abbrev pub delete_action : Action
delete_action = "delete"

abbrev pub wildcard_action : Action
wildcard_action = "*"

abbrev pub actions : List Action
actions = read_action ∷ create_action ∷ update_action ∷ delete_action ∷ wildcard_action ∷ []

unfoldable pub get_action : String → Result Action
get_action action = or_error (by_lower (to_lower action) actions) (errorf "no associated struct")

unfoldable pub validate_action : Action → Result Action
validate_action k =
    if eqb (len k) 0 then err (errorf "kind cannot be empty") else do _ ← get_action k; ok k

unfoldable pub unmarshal_action : Result Action → Action → Result (Unit {0}) × Action
unmarshal_action = unmarshal validate_action

-- type Scope string
abbrev pub Scope : Type 0
Scope = String

abbrev pub project_scope : Scope
project_scope = "Project"

abbrev pub wildcard_scope : Scope
wildcard_scope = "*"

abbrev pub scopes : List Scope
scopes =
    "Dashboard" ∷ "Datasource" ∷ "EphemeralDashboard" ∷ "Folder" ∷ "GlobalDatasource" ∷ "GlobalRole"
    ∷ "GlobalRoleBinding" ∷ "GlobalSecret" ∷ "GlobalVariable" ∷ project_scope ∷ "Role"
    ∷ "RoleBinding" ∷ "Secret" ∷ "User" ∷ "Variable" ∷ wildcard_scope ∷ []

unfoldable pub get_scope : String → Result Scope
get_scope scope = or_error (by_lower (to_lower scope) scopes) (errorf "unknown scope used")

unfoldable pub validate_scope : Scope → Result Scope
validate_scope k =
    if eqb (len k) 0 then err (errorf "scope cannot be empty") else do _ ← get_scope k; ok k

unfoldable pub unmarshal_scope : Result Scope → Scope → Result (Unit {0}) × Scope
unmarshal_scope = unmarshal validate_scope

abbrev pub global_scopes : List Scope
global_scopes =
    "GlobalDatasource" ∷ "GlobalRole" ∷ "GlobalRoleBinding" ∷ "GlobalSecret" ∷ "GlobalVariable"
    ∷ "User" ∷ []

unfoldable pub is_global_scope : Scope → Bool
is_global_scope scope = contains global_scopes scope

pub record Permission : Type 0 where
  pub actions : List Action
  pub scopes : List Scope

unfoldable pub validate_permission : Permission → Result Permission
validate_permission p =
    if eqb (length p.actions) 0
    then err (errorf "permission actions cannot be empty")
    else if eqb (length p.scopes) 0
    then err (errorf "permission scopes cannot be empty")
    else ok p

unfoldable pub unmarshal_permission :
    Result Permission → Permission → Result (Unit {0}) × Permission
unmarshal_permission = unmarshal validate_permission
