-- ===== src/Service/Refresh/Updates.antt =====
-- From an update in the database to one that is followed by a refresh.
use perses.Prelude.{◌≡◌, ap, ◌⊎◌, inl, inr}
use perses.Prelude.Result.{Result, Error, ok, err}
use perses.Authorization.Native.{Lists}
use perses.Service.Entity.{Dao}
use perses.Service.Entity.Updates.{Replaces}
use perses.Service.Refresh.{State, written}

-- An update fails and changes nothing, or the entity exists, is replaced by a new one which stands in
-- the relation `P` to it, and a write that succeeds is followed by a refresh.
unfoldable pub Updates :
    {K Q R DB : Type 0}
    → Dao K Q R DB
    → (DB → Lists)
    → K
    → (R → R → Type 0)
    → State DB
    → Result R × State DB
    → Type 0
Updates {R = R} dao lists_of k P s out =
    ((c : Error) × (out ≡ (err c, s)))
    ⊎ ((old : R) × (new : R) × (dao.get_entity k s.db ≡ ok old)
        × P old new
        × (out ≡ written lists_of s.authz (dao.update_entity new s.db)))

pub written-Updates :
    {K Q R DB : Type 0} (dao : Dao K Q R DB) (lists_of : DB → Lists) (k : K) (P : R → R → Type 0)
    (s : State DB) (out : Result R × DB)
    → Replaces dao k P s.db out
    → Updates dao lists_of k P s (written lists_of s.authz out)
unfolding Replaces Updates written
written-Updates dao lists_of k P s out (inl (c, q)) = inl (c, ap (written lists_of s.authz) q)
written-Updates dao lists_of k P s out (inr (old, new, g, h, q)) =
    inr (old, new, g, h, ap (written lists_of s.authz) q)
