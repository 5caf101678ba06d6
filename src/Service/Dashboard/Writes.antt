-- ===== src/Service/Dashboard/Writes.antt =====
-- A dashboard is stored only when its variables have an order.

use perses.Prelude.{ℕ, String, ◌≡◌, refl, List, Option, none, some, inr}
use perses.Prelude.Result.{Result, ok, err, >>=-eq-ok, >>-eq-ok}
use perses.Model.Metadata.{update_project}
use perses.VariableOrder.Dependencies.{Variable, build_variable_order}
use perses.Validate.{Schema, ordered, dashboard_spec_with_vars, validate_dashboard_spec}
use perses.ApiErrors.{or_handled, or_handled-eq-ok}
use perses.Toolbox.{Parameters, or_bad_request}
use perses.Service.Entity.{ProjectDao, IsUpdate, updated, resource_entity}
use perses.Service.Entity.Updates.{Replaces, on_ok-Replaces, updated-IsUpdate, or_bad_request-eq-ok}
use perses.Service.Dashboard.{Dashboard, Config, collect_project_variables, validate, update}

ordered-eq-ok :
    {X : Type 0} (o : Option (Result X)) → ordered o ≡ ok tt → (x : X) × (o ≡ some (ok x))
unfolding ordered
ordered-eq-ok none h = cc
ordered-eq-ok (some (err e)) h = cc
ordered-eq-ok (some (ok x)) h = (x, refl)

module _ {P V A DB : Type 0} (dao : ProjectDao (Dashboard P A) DB) (schema : Schema P V A)
    (project_variables : String → DB → Result (List Variable))
    (global_variables : DB → Result (List Variable)) (config : Config)
    (custom_rules : Dashboard P A → Result (Unit {0})) where
  -- The variables of the dashboard, together with those of its project and the global ones, were
  -- put in an order, and the schemas accept its spec.
  abbrev pub HasOrder : DB → Dashboard P A → Type 0
  HasOrder db r =
      (projects : List Variable) × (globals : List Variable) × (order : List (List String))
      × (collect_project_variables dao schema project_variables global_variables config custom_rules
            r.metadata.project db
          ≡ ok projects)
      × (global_variables db ≡ ok globals)
      × (build_variable_order r.spec.variables projects globals ≡ some (ok order))
      × (validate_dashboard_spec (some schema) r.spec ≡ ok tt)

  validate-HasOrder :
      (r : Dashboard P A) (db : DB)
      → validate dao schema project_variables global_variables config custom_rules r db ≡ ok tt
      → HasOrder db r
  unfolding validate dashboard_spec_with_vars
  validate-HasOrder r db h =
      let (projects, p, h1) =
        >>=-eq-ok
          (or_handled (
            collect_project_variables dao schema project_variables global_variables config
              custom_rules r.metadata.project db))
          _ h in
      let (globals, g, h2) = >>=-eq-ok (or_handled (global_variables db)) _ h1 in
      let (spec_ok, h3) =
        >>-eq-ok (or_bad_request (dashboard_spec_with_vars (some schema) r.spec projects globals)) _
          h2 in
      let (built, rest) =
        >>-eq-ok (ordered (build_variable_order r.spec.variables projects globals)) _
          (or_bad_request-eq-ok _ spec_ok) in
      let (order, o) =
        ordered-eq-ok (build_variable_order r.spec.variables projects globals) built in
      (projects, globals, order, or_handled-eq-ok _ p, or_handled-eq-ok _ g, o, rest)

  -- An update of a dashboard fails and changes nothing, or the dashboard exists and is replaced by the
  -- request at the place of the path, whose variables have an order together with those of the
  -- project and the global ones, and whose spec the schemas accept.
  pub update-HasOrder :
      (now : ℕ) (r : Dashboard P A) (p : Parameters) (db : DB)
      → Replaces dao p
          (λ old new. IsUpdate r p old new × HasOrder db new)
          db
          (update dao schema project_variables global_variables config custom_rules now r p db)
  unfolding update Replaces updated update_project
  update-HasOrder now r p db =
      on_ok-Replaces dao p (λ old new. IsUpdate r p old new × HasOrder db new) db _ _
        (λ f q.
          on_ok-Replaces dao p (λ old new. IsUpdate r p old new × HasOrder db new) db _ _
            (λ t v.
              on_ok-Replaces dao p (λ old new. IsUpdate r p old new × HasOrder db new) db _ _
                (λ old g. inr (
                  old,
                  updated now f old,
                  g,
                  (updated-IsUpdate now r f p q old, validate-HasOrder f db v),
                  refl,
                ))))
