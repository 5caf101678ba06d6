-- ===== src/Service/Cleaner.antt =====
-- internal/api/dashboard/cleaner.go: the task that deletes the ephemeral dashboards whose time to live
-- has passed since they were last updated.
pub mod Cleaned
use perses.Prelude.{ℕ, ◌+◌, Bool, List, [], ◌∷◌, ltb, if◌then◌else◌}
use perses.Prelude.Result.{Result, ok}
use perses.Toolbox.{Parameters}
use perses.Service.Entity.{ProjectDao, on_ok}
use perses.Service.EphemeralDashboard.{EphemeralDashboard}
use perses.Service.Project.{chain}

-- UpdatedAt.Add(TTL).Before(currentTime)
unfoldable pub is_outlived : {P A : Type 0} → ℕ → EphemeralDashboard P A → Bool
is_outlived now r = ltb (r.metadata.updated_at + r.spec.ttl) now

abbrev pub place_of : {P A : Type 0} → EphemeralDashboard P A → Parameters
place_of r = record { project = r.metadata.project; name = r.metadata.name }

module _ {P A DB : Type 0} (dao : ProjectDao (EphemeralDashboard P A) DB) where
  unfoldable pub clean_each : ℕ → List (EphemeralDashboard P A) → DB → Result (Unit {0}) × DB
  clean_each now [] db = (ok tt, db)
  clean_each now (r ∷ rest) db =
      if is_outlived now r
      then chain (dao.delete_entity (place_of r) db) (λ _ after. clean_each now rest after)
      else clean_each now rest db

  -- Execute at the time `now`
  unfoldable pub execute : ℕ → DB → Result (Unit {0}) × DB
  execute now db =
      on_ok (dao.list_entities (record { name_prefix = ""; project = "" }) db) db
        (λ dashboards. clean_each now dashboards db)
