-- ===== src/Service/Refresh.antt =====
-- The services whose writes change permissions: each write that succeeded is followed by a refresh of
-- the permissions, whose failure is only logged. `lists_of` are the lists that the refresh reads.
pub mod Updates
use perses.Prelude.Result.{Result, ok, err}
use perses.Authorization.Native.{Native, Lists, refresh_permissions}

pub record State (DB : Type 0) : Type 0 where
  pub db : DB
  pub authz : Native

module _ {DB : Type 0} (lists_of : DB → Lists) where
  -- if err := s.authz.RefreshPermissions(); err != nil { log }
  unfoldable pub refreshed : State DB → State DB
  refreshed s = record s { authz = (refresh_permissions (lists_of s.db) s.authz).1 }

  -- The result of a write of the database, with the refresh after a success.
  unfoldable pub written : {A : Type 0} → Native → Result A × DB → Result A × State DB
  written n (err e, db) = (err e, record { db = db; authz = n })
  written n (ok a, db) = (ok a, refreshed (record { db = db; authz = n }))
