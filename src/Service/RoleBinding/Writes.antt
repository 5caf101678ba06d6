-- ===== src/Service/RoleBinding/Writes.antt =====
-- What an update of a role binding hands to the database.
use perses.Prelude.{ℕ, ◌≡◌, refl, inr, string_eq}
use perses.Prelude.Result.{guard-eq-ok, bad_request}
use perses.Model.RoleBinding.{RoleBinding}
use perses.Authorization.Native.{Lists}
use perses.Toolbox.{Parameters}
use perses.Service.Entity.{ProjectDao, IsUpdate, updated}
use perses.Service.Entity.Updates.{Replaces, on_ok-Replaces, updated-IsUpdate}
use perses.Service.Refresh.{State}
use perses.Service.Refresh.Updates.{Updates, written-Updates}
use perses.Service.RoleBinding.{entity, replace, update}

-- The update of a binding keeps its role.
abbrev pub KeepsRole : RoleBinding → Parameters → RoleBinding → RoleBinding → Type 0
KeepsRole r p old new = IsUpdate r p old new × (new.spec.role ≡ old.spec.role)

-- An update of a role binding fails and changes nothing, or the binding exists under the name and
-- project of the path and is replaced by the request with the time of creation of the old binding
-- and its version plus one, with the same role as before; a refresh follows the write.
pub update-KeepsRole :
    {DB : Type 0} (dao : ProjectDao RoleBinding DB) (lists_of : DB → Lists) (now : ℕ)
    (r : RoleBinding) (p : Parameters) (s : State DB)
    → Updates dao lists_of p (KeepsRole r p) s (update dao lists_of now r p s)
unfolding update replace Replaces updated
update-KeepsRole dao lists_of now r p s = written-Updates dao lists_of p (KeepsRole r p) s _ (
    on_ok-Replaces dao p (KeepsRole r p) s.db _ _ (λ f q.
      on_ok-Replaces dao p (KeepsRole r p) s.db _ _ (λ old g.
        on_ok-Replaces dao p (KeepsRole r p) s.db _ _ (λ t h.
          let role =
            (string_eq.beq_iff f.spec.role old.spec.role).0 (guard-eq-ok _ bad_request h) in
          inr (old, updated now f old, g, (updated-IsUpdate now r f p q old, role), refl)))))
