-- ===== src/Model/Role.antt =====
-- pkg/model/api/v1/role.go: a role grants permissions within its project, a global role in every
-- project. A Go slice may be nil, which `reflect.DeepEqual` tells from an empty one.
pub mod Laws
use perses.Prelude.{
  String, Bool, true, false, List, [], ◌∷◌, Option, none, some, Slice, elems, ◌==◌, string_eq, not,
  if◌then◌else◌,
}
use perses.Prelude.Result.{Result, ok, err, errorf, ◌>>=◌, ◌>>◌, guard}
use perses.Model.Unmarshal.{unmarshal}
use perses.Model.Kind.{Kind}
use perses.Model.Metadata.{Metadata, ProjectMetadata}
use perses.Model.Permission.{Permission, Scope, is_global_scope}

pub record RoleSpec : Type 0 where
  pub permissions : Slice Permission

pub record GlobalRole : Type 0 where
  pub kind : Kind
  pub metadata : Metadata
  pub spec : RoleSpec

pub record Role : Type 0 where
  pub kind : Kind
  pub metadata : ProjectMetadata
  pub spec : RoleSpec

-- reflect.DeepEqual(spec, RoleSpec{})
unfoldable pub is_zero_spec : RoleSpec → Bool
is_zero_spec spec = elim spec.permissions [ none ↦ true | some _ ↦ false ]

unfoldable pub validate_global : GlobalRole → Result GlobalRole
validate_global g =
    if not (g.kind == "GlobalRole")
    then err (errorf "invalid kind for a GlobalRole type")
    else if is_zero_spec g.spec
    then err (errorf "spec cannot be empty")
    else ok g

unfoldable pub unmarshal_global_role :
    Result GlobalRole → GlobalRole → Result (Unit {0}) × GlobalRole
unmarshal_global_role = unmarshal validate_global

-- the inner loop, over the scopes of one permission
unfoldable pub validate_scopes : List Scope → Result (Unit {0})
validate_scopes [] = ok tt
validate_scopes (scope ∷ rest) = do
  guard (not (is_global_scope scope)) (errorf "invalid scope for a Role scope")
  validate_scopes rest

unfoldable pub validate_permissions : List Permission → Result (Unit {0})
validate_permissions [] = ok tt
validate_permissions (permission ∷ rest) = do
  validate_scopes permission.scopes
  validate_permissions rest

unfoldable pub validate : Role → Result Role
validate r =
    if not (r.kind == "Role")
    then err (errorf "invalid kind for a Role type")
    else if is_zero_spec r.spec
    then err (errorf "spec cannot be empty")
    else do validate_permissions (elems r.spec.permissions); ok r

unfoldable pub unmarshal_role : Result Role → Role → Result (Unit {0}) × Role
unmarshal_role = unmarshal validate
