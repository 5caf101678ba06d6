-- ===== src/Validate.antt =====
-- internal/api/validate/validate.go: what is checked of a datasource, a variable and a dashboard before
-- it is stored. The schemas of the plugins (internal/api/plugin/schema) and ValidateAndExtract of
-- another repository are parameters.
pub mod Defaults
use Prim.Native.Char.{Char, code}
use Prim.Native.String.{len}
use perses.Prelude.{
  ℕ, String, Bool, true, false, not, ◌&&◌, ◌||◌, List, [], ◌∷◌, Option, none, some, ◌==◌, string_eq,
  eqb, leb, contains, if◌then◌else◌,
}
use perses.Prelude.GoMap.{GoMap}
use perses.Prelude.Result.{Result, ok, err, errorf, ◌>>=◌, ◌>>◌}
use perses.Model.Resource.{Resource}
use perses.Model.Metadata.{Metadata}
use perses.Model.Datasource.{Plugin, DatasourceSpec}
use perses.VariableOrder.Dependencies.{Variable, build_variable_order, is_builtin_variable}

-- schema.Schema and datasource.ValidateAndExtract; `V` is the type of the spec of a variable and `A`
-- that of the annotations and panels of a dashboard.
pub record Schema (P V A : Type 0) : Type 0 where
  pub validate_and_extract : P → Result (Unit {0})
  pub validate_datasource : Plugin P → String → Result (Unit {0})
  pub validate_global_variable : V → Result (Unit {0})
  pub validate_dashboard_variables : List Variable → Result (Unit {0})
  pub validate_dashboard_annotations : A → Result (Unit {0})
  pub validate_panels : A → Result (Unit {0})

-- The spec of a dashboard, with its datasources in the order of `range`.
pub record DashboardSpec (P A : Type 0) : Type 0 where
  pub variables : List Variable
  pub datasources : GoMap String (DatasourceSpec P)
  pub layout : A

is_digit : Char → Bool
is_digit c = leb b'0' (code c) && leb (code c) b'9'

-- \w
is_word : Char → Bool
unfolding is_digit
is_word c =
    is_digit c
    || leb b'A' (code c) && leb (code c) b'Z'
    || leb b'a' (code c) && leb (code c) b'z'
    || eqb (code c) b'_'

all_word : String → Bool
unfolding is_word
all_word String.[] = true
all_word (String.◌∷◌ c s) = is_word c && all_word s

-- variableNameRegexp.MatchString, ^\w*?[^0-9]\w*$
unfoldable pub match_variable_name : String → Bool
unfolding is_digit is_word all_word
match_variable_name String.[] = false
match_variable_name (String.◌∷◌ c s) =
    let rest = match_variable_name s in not (is_digit c) && all_word s || is_word c && rest

unfoldable pub validate_variable_name : String → Result (Unit {0})
validate_variable_name variable =
    if not (match_variable_name variable)
    then err (errorf "variable name is not valid")
    else if is_builtin_variable variable
    then err (errorf "variable name can not have builtin variable prefix: __")
    else ok tt

unfoldable pub validate_variable_names : List Variable → Result (Unit {0})
validate_variable_names [] = ok tt
validate_variable_names (v ∷ vs) = do validate_variable_name v.name; validate_variable_names vs

-- `none` is a panic or an endless loop of BuildVariableOrder, which do not happen.
unfoldable pub ordered : {X : Type 0} → Option (Result X) → Result (Unit {0})
ordered none = err (errorf "panic")
ordered (some (err e)) = err e
ordered (some (ok x)) = ok tt

-- The loop over the datasources of which some may be the default of the kind of their plugin already.
module _ {M P : Type 0} (name_of : M → String) where
  unfoldable pub check_defaults :
      String → String → List (Resource M (DatasourceSpec P)) → Result (Unit {0})
  check_defaults name kind [] = ok tt
  check_defaults name kind (dts ∷ rest) =
      let next = check_defaults name kind rest in
      if name == name_of dts.metadata
      then next
      else if dts.spec.default_ && dts.spec.plugin.kind == kind
      then err (errorf "datasource cannot be a default because there is already one defined")
      else next

  unfoldable pub validate_unicity_of_default_dts :
      Resource M (DatasourceSpec P) → List (Resource M (DatasourceSpec P)) → Result (Unit {0})
  validate_unicity_of_default_dts entity list =
      if not entity.spec.default_
      then ok tt
      else check_defaults (name_of entity.metadata) entity.spec.plugin.kind list

module _ {P V A : Type 0} (schema : Schema P V A) where
  unfoldable pub validate_datasource_plugin : Plugin P → String → Result (Unit {0})
  validate_datasource_plugin plugin name = do
    schema.validate_and_extract plugin.spec
    schema.validate_datasource plugin name

  -- Datasource; a nil list is `none`
  unfoldable pub validate_datasource :
      {M : Type 0}
      → (M → String)
      → Resource M (DatasourceSpec P)
      → Option (List (Resource M (DatasourceSpec P)))
      → Result (Unit {0})
  validate_datasource name_of entity none =
      validate_datasource_plugin entity.spec.plugin (name_of entity.metadata)
  validate_datasource name_of entity (some list) = do
    validate_datasource_plugin entity.spec.plugin (name_of entity.metadata)
    validate_unicity_of_default_dts name_of entity list

  unfoldable pub validate_variable : String → V → Result (Unit {0})
  validate_variable name spec = do validate_variable_name name; schema.validate_global_variable spec

  -- The loop over spec.Datasources, with the kinds in defaultDts.
  unfoldable pub check_local_defaults :
      GoMap String (DatasourceSpec P) → List String → Result (Unit {0})
  check_local_defaults [] default_dts = ok tt
  check_local_defaults ((name, dts) ∷ rest) default_dts = do
    validate_datasource_plugin dts.plugin name
    elim dts.default_ [
      | false ↦ check_local_defaults rest default_dts
      | true ↦ elim (contains default_dts dts.plugin.kind) [
        | true ↦
            err (
              errorf "can not be defined as default datasource: there is already a default defined")
        | false ↦ check_local_defaults rest (dts.plugin.kind ∷ default_dts)
      ]
    ]

-- if sch != nil { ... }
unfoldable pub check_schema :
    {P V A : Type 0} → Option (Schema P V A) → DashboardSpec P A → Result (Unit {0})
check_schema none spec = ok tt
check_schema (some schema) spec = do
  schema.validate_dashboard_variables spec.variables
  schema.validate_dashboard_annotations spec.layout
  schema.validate_panels spec.layout

-- The loop over spec.Datasources; a datasource is validated by a nil schema too, which panics.
unfoldable pub check_datasources :
    {P V A : Type 0} → Option (Schema P V A) → GoMap String (DatasourceSpec P) → Result (Unit {0})
check_datasources none [] = ok tt
check_datasources none (dts ∷ rest) = err (errorf "panic")
check_datasources (some schema) datasources = check_local_defaults schema datasources []

module _ {P V A : Type 0} (sch : Option (Schema P V A)) where
  unfoldable pub validate_dashboard_spec : DashboardSpec P A → Result (Unit {0})
  validate_dashboard_spec spec = do
    validate_variable_names spec.variables
    check_schema sch spec
    check_datasources sch spec.datasources

  unfoldable pub dashboard_spec : DashboardSpec P A → Result (Unit {0})
  dashboard_spec spec = do
    ordered (build_variable_order spec.variables [] [])
    validate_dashboard_spec spec

  unfoldable pub dashboard_spec_with_vars :
      DashboardSpec P A → List Variable → List Variable → Result (Unit {0})
  dashboard_spec_with_vars spec projects globals = do
    ordered (build_variable_order spec.variables projects globals)
    validate_dashboard_spec spec
