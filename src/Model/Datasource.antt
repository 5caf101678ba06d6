-- ===== src/Model/Datasource.antt =====
-- pkg/model/api/v1/datasource.go. The spec of a plugin is of a type `P`; its package is a parameter.
use Prim.Native.String.{len}
use perses.Prelude.{
  String, Bool, true, false, not, ◌&&◌, ◌||◌, List, [], ◌∷◌, Option, none, some, ◌==◌, string_eq,
  eqb, if◌then◌else◌,
}
use perses.Prelude.Result.{Result, ok, err, errorf}
use perses.Model.Unmarshal.{unmarshal}
use perses.Model.Metadata.{Metadata, ProjectMetadata}
use perses.Model.Resource.{Resource}

pub record Display : Type 0 where
  pub name : String
  pub description : String

pub record Plugin (P : Type 0) : Type 0 where
  pub kind : String
  pub spec : P

pub record DatasourceSpec (P : Type 0) : Type 0 where
  pub display : Option Display
  pub default_ : Bool
  pub plugin : Plugin P

abbrev pub Datasource : Type 0 → Type 0
Datasource P = Resource ProjectMetadata (DatasourceSpec P)

abbrev pub GlobalDatasource : Type 0 → Type 0
GlobalDatasource P = Resource Metadata (DatasourceSpec P)

unfoldable pub same_default : Option Bool → Bool → Bool
same_default none b = true
same_default (some true) b = b
same_default (some false) b = not b

module _ {M P : Type 0} where
  -- The datasources of the plugin kind and with the default flag that are asked for.
  unfoldable pub filter_datasource :
      String
      → Option Bool
      → List (Resource M (DatasourceSpec P))
      → List (Resource M (DatasourceSpec P))
  filter_datasource kind default_dts [] = []
  filter_datasource kind default_dts (d ∷ ds) =
      let rest = filter_datasource kind default_dts ds in
      if not (eqb (len kind) 0) && not (kind == d.spec.plugin.kind)
        || not (same_default default_dts d.spec.default_)
      then rest
      else d ∷ rest

-- `is_zero` is reflect.DeepEqual(spec, datasource.Spec{})
module _ {P : Type 0} (is_zero : DatasourceSpec P → Bool) where
  unfoldable pub validate_global : GlobalDatasource P → Result (GlobalDatasource P)
  validate_global d =
      if not (d.kind == "GlobalDatasource")
      then err (errorf "invalid kind for a GlobalDatasource type")
      else if is_zero d.spec
      then err (errorf "spec cannot be empty")
      else ok d

  unfoldable pub validate : Datasource P → Result (Datasource P)
  validate d =
      if not (d.kind == "Datasource")
      then err (errorf "invalid kind for a Datasource type")
      else if is_zero d.spec
      then err (errorf "spec cannot be empty")
      else ok d

  unfoldable pub unmarshal_global_datasource :
      Result (GlobalDatasource P) → GlobalDatasource P → Result (Unit {0}) × GlobalDatasource P
  unmarshal_global_datasource = unmarshal validate_global

  unfoldable pub unmarshal_datasource :
      Result (Datasource P) → Datasource P → Result (Unit {0}) × Datasource P
  unmarshal_datasource = unmarshal validate
