-- ===== src/Model/RoleBinding.antt =====
-- pkg/model/api/v1/rolebinding.go: a binding gives a role to its subjects.
use Prim.Native.String.{len}
use perses.Prelude.{
  String, Bool, true, false, List, [], ◌∷◌, none, some, Slice, elems, ◌==◌, string_eq, not, ◌&&◌,
  ◌||◌, eqb, length, if◌then◌else◌,
}
use perses.Prelude.Result.{Result, ok, err, errorf}
use perses.Model.Unmarshal.{unmarshal}
use perses.Model.Kind.{Kind}
use perses.Model.Metadata.{Metadata, ProjectMetadata}

pub record Subject : Type 0 where
  pub kind : Kind
  pub name : String

unfoldable pub validate_subject : Subject → Result Subject
validate_subject s =
    if not (s.kind == "User")
    then err (errorf "invalid kind for a Subject kind")
    else if eqb (len s.name) 0
    then err (errorf "subject name cannot be empty")
    else ok s

unfoldable pub unmarshal_subject : Result Subject → Subject → Result (Unit {0}) × Subject
unmarshal_subject = unmarshal validate_subject

pub record RoleBindingSpec : Type 0 where
  pub role : String
  pub subjects : Slice Subject

has_subject : Kind → String → List Subject → Bool
has_subject kind name [] = false
has_subject kind name (sub ∷ rest) =
    sub.kind == kind && sub.name == name || has_subject kind name rest

unfoldable pub has : RoleBindingSpec → Kind → String → Bool
unfolding has_subject
has r kind name = has_subject kind name (elems r.subjects)

unfoldable pub validate_spec : RoleBindingSpec → Result RoleBindingSpec
validate_spec r =
    if eqb (len r.role) 0
    then err (errorf "rolebinding role cannot be empty")
    else if eqb (length (elems r.subjects)) 0
    then err (errorf "rolebinding subjects cannot be empty")
    else ok r

unfoldable pub unmarshal_spec :
    Result RoleBindingSpec → RoleBindingSpec → Result (Unit {0}) × RoleBindingSpec
unmarshal_spec = unmarshal validate_spec

-- reflect.DeepEqual(spec, RoleBindingSpec{})
unfoldable pub is_zero_spec : RoleBindingSpec → Bool
is_zero_spec spec = spec.role == "" && elim spec.subjects [ none ↦ true | some _ ↦ false ]

pub record GlobalRoleBinding : Type 0 where
  pub kind : Kind
  pub metadata : Metadata
  pub spec : RoleBindingSpec

unfoldable pub validate_global : GlobalRoleBinding → Result GlobalRoleBinding
validate_global g =
    if not (g.kind == "GlobalRoleBinding")
    then err (errorf "invalid kind for a GlobalRoleBinding type")
    else if is_zero_spec g.spec
    then err (errorf "spec cannot be empty")
    else ok g

unfoldable pub unmarshal_global :
    Result GlobalRoleBinding → GlobalRoleBinding → Result (Unit {0}) × GlobalRoleBinding
unmarshal_global = unmarshal validate_global

pub record RoleBinding : Type 0 where
  pub kind : Kind
  pub metadata : ProjectMetadata
  pub spec : RoleBindingSpec

unfoldable pub validate : RoleBinding → Result RoleBinding
validate r =
    if not (r.kind == "RoleBinding")
    then err (errorf "invalid kind for a RoleBinding type")
    else if is_zero_spec r.spec
    then err (errorf "spec cannot be empty")
    else ok r

unfoldable pub unmarshal_role_binding :
    Result RoleBinding → RoleBinding → Result (Unit {0}) × RoleBinding
unmarshal_role_binding = unmarshal validate
