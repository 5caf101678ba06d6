-- ===== src/Service/Role/Writes.antt =====
-- What an update of a role hands to the database.
use perses.Prelude.{ℕ}
use perses.Model.Role.{Role}
use perses.Authorization.Native.{Lists}
use perses.Toolbox.{Parameters}
use perses.Service.Entity.{ProjectDao, IsUpdate, updated}
use perses.Service.Entity.Updates.{on_ok-Replaces, replace-Replaces, updated-IsUpdate}
use perses.Service.Refresh.{State}
use perses.Service.Refresh.Updates.{Updates, written-Updates}
use perses.Service.Role.{entity, replace, update}

-- An update of a role fails and changes nothing, or the role exists under the name and project of
-- the path, and what is written over it has that name and project, the spec of the request, the
-- time of creation of the old role and its version plus one; a refresh follows the write.
pub update-IsUpdate :
    {DB : Type 0} (dao : ProjectDao Role DB) (lists_of : DB → Lists) (now : ℕ) (r : Role)
    (p : Parameters) (s : State DB)
    → Updates dao lists_of p (IsUpdate r p) s (update dao lists_of now r p s)
unfolding update replace
update-IsUpdate dao lists_of now r p s = written-Updates dao lists_of p (IsUpdate r p) s _ (
    on_ok-Replaces dao p (IsUpdate r p) s.db _ _ (λ f q.
      replace-Replaces dao p (IsUpdate r p) s.db (updated now f) (updated-IsUpdate now r f p q)))
