-- ===== src/Examples/Dashboards.antt =====
-- A default datasource and a dashboard with one variable, in a database of one entity.
use perses.Prelude.{ℕ, String, true, false, ◌≡◌, List, [], ◌∷◌, none, ◌↔◌}
use perses.Prelude.Result.{Result, ok}
use perses.Model.Metadata.{ProjectMetadata}
use perses.Model.Datasource.{Datasource}
use perses.Validate.{Schema, validate_unicity_of_default_dts}
use perses.Validate.Defaults.{IsOnlyDefault, validate_unicity_of_default_dts_iff}
use perses.Toolbox.{Parameters}
use perses.Service.Entity.{ProjectDao, IsUpdate, resource_entity}
use perses.Service.Entity.Updates.{Replaces}
use perses.Service.Datasource as Datasource
use perses.Service.Datasource.{DatasourceDao}
use perses.Service.Datasource.Writes.{IsChecked, update-IsChecked}
use perses.Service.Dashboard as Dashboard
use perses.Service.Dashboard.{Dashboard, Config}
use perses.Service.Dashboard.Writes.{HasOrder, update-HasOrder}
use perses.VariableOrder.Dependencies.{Variable}
use perses.Examples.Roles.{one_entity}

abbrev accepting : Schema ℕ ℕ ℕ
accepting = record {
  validate_and_extract = λ p. ok tt;
  validate_datasource = λ p name. ok tt;
  validate_global_variable = λ v. ok tt;
  validate_dashboard_variables = λ vs. ok tt;
  validate_dashboard_annotations = λ a. ok tt;
  validate_panels = λ a. ok tt;
}

abbrev in_p : String → ProjectMetadata
in_p name = record {
  metadata = record { name = name; created_at = 1; updated_at = 1; version = 0; tags = [] };
  project = "p";
}

abbrev metrics : Datasource ℕ
metrics = record {
  kind = "Datasource";
  metadata = in_p "metrics";
  spec = record {
    display = none;
    default_ = true;
    plugin = record { kind = "Prometheus"; spec = 0 };
  };
}

abbrev name_of : ProjectMetadata → String
name_of m = m.name

validate_unicity_of_default_dts_iff_example :
    (validate_unicity_of_default_dts name_of metrics (metrics ∷ []) ≡ ok tt)
    ↔ (metrics.spec.default_ ≡ true → IsOnlyDefault name_of "metrics" "Prometheus" (metrics ∷ []))
validate_unicity_of_default_dts_iff_example =
    validate_unicity_of_default_dts_iff name_of metrics (metrics ∷ [])

abbrev datasources : DatasourceDao ℕ (Datasource ℕ)
datasources = one_entity

abbrev of_metrics : Parameters
of_metrics = record { project = "p"; name = "metrics" }

update-IsChecked_example :
    Replaces datasources of_metrics
      (λ old new.
        IsUpdate metrics of_metrics old new
        × IsChecked datasources accepting metrics metrics of_metrics)
      metrics
      (Datasource.update datasources accepting 7 metrics of_metrics metrics)
update-IsChecked_example = update-IsChecked datasources accepting 7 metrics of_metrics metrics

abbrev hosts : Dashboard ℕ ℕ
hosts = record {
  kind = "Dashboard";
  metadata = in_p "hosts";
  spec = record {
    variables = record { name = "host"; used = [] } ∷ [];
    datasources = [];
    layout = 0;
  };
}

abbrev dashboards : ProjectDao (Dashboard ℕ ℕ) (Dashboard ℕ ℕ)
dashboards = one_entity

abbrev of_hosts : Parameters
of_hosts = record { project = "p"; name = "hosts" }

abbrev of_project : String → Dashboard ℕ ℕ → Result (List Variable)
of_project project db = ok []

abbrev everywhere : Dashboard ℕ ℕ → Result (List Variable)
everywhere db = ok []

abbrev allowing : Config
allowing = record { is_datasource_disable = false; is_variable_disable = false }

abbrev no_rules : Dashboard ℕ ℕ → Result (Unit {0})
no_rules r = ok tt

update-HasOrder_example :
    Replaces dashboards of_hosts
      (λ old new.
        IsUpdate hosts of_hosts old new
        × HasOrder dashboards accepting of_project everywhere allowing no_rules hosts new)
      hosts
      (Dashboard.update dashboards accepting of_project everywhere allowing no_rules 7 hosts
        of_hosts hosts)
update-HasOrder_example =
    update-HasOrder dashboards accepting of_project everywhere allowing no_rules 7 hosts of_hosts
      hosts
