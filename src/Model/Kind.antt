-- ===== src/Model/Kind.antt =====
-- pkg/model/api/v1/kind.go: the kinds of resources, read without regard to case.
pub mod Laws
use Prim.Native.String.{len}
use perses.Prelude.{
  String, Bool, List, [], ◌∷◌, none, some, eqb, contains, string_eq, if◌then◌else◌,
}
use perses.Prelude.GoMap.{GoMap, lookup}
use perses.Prelude.Text.{to_lower, by_lower}
use perses.Prelude.Result.{Result, err, errorf, or_error}
use perses.Model.Unmarshal.{unmarshal}

-- type Kind string
abbrev pub Kind : Type 0
Kind = String

abbrev pub kinds : List Kind
kinds =
    "Dashboard" ∷ "Datasource" ∷ "EphemeralDashboard" ∷ "Folder" ∷ "GlobalDatasource" ∷ "GlobalRole"
    ∷ "GlobalRoleBinding" ∷ "GlobalSecret" ∷ "GlobalVariable" ∷ "Project" ∷ "Role" ∷ "RoleBinding"
    ∷ "Secret" ∷ "User" ∷ "Variable" ∷ []

abbrev pub plural_kind_map : GoMap Kind String
plural_kind_map =
    ("Dashboard", "dashboards")
    ∷ ("Datasource", "datasources")
    ∷ ("EphemeralDashboard", "ephemeraldashboards")
    ∷ ("Folder", "folders")
    ∷ ("GlobalDatasource", "globaldatasources")
    ∷ ("GlobalRole", "globalroles")
    ∷ ("GlobalRoleBinding", "globalrolebindings")
    ∷ ("GlobalSecret", "globalsecrets")
    ∷ ("GlobalVariable", "globalvariables")
    ∷ ("Project", "projects")
    ∷ ("Role", "roles")
    ∷ ("RoleBinding", "rolebindings")
    ∷ ("Secret", "secrets")
    ∷ ("User", "users")
    ∷ ("Variable", "variables")
    ∷ []

-- PluralKindMap[kind]: the empty text where there is no entry.
unfoldable pub plural_kind : Kind → String
plural_kind kind = elim (lookup kind plural_kind_map) [ none ↦ "" | some p ↦ p ]

unfoldable pub get_kind : String → Result Kind
get_kind kind = or_error (by_lower (to_lower kind) kinds) (errorf "unknown kind used")

-- The receiver becomes the kind that was found.
unfoldable pub validate : Kind → Result Kind
validate k = if eqb (len k) 0 then err (errorf "kind cannot be empty") else get_kind k

unfoldable pub unmarshal_kind : Result Kind → Kind → Result (Unit {0}) × Kind
unmarshal_kind = unmarshal validate

abbrev pub global_kinds : List Kind
global_kinds =
    "GlobalDatasource" ∷ "GlobalRole" ∷ "GlobalRoleBinding" ∷ "GlobalSecret" ∷ "GlobalVariable"
    ∷ "Project" ∷ "User" ∷ []

-- The cases of a switch over the kinds themselves.
unfoldable pub is_global : Kind → Bool
is_global kind = contains global_kinds kind
