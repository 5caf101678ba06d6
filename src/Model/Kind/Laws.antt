-- ===== src/Model/Kind/Laws.antt =====
-- Reading a kind: exactly the known kinds, up to case, and in their own spelling.
use perses.Prelude.{String, ◌≡◌, refl, ◌↔◌, In, true}
use perses.Prelude.Text.{to_lower, by_lower, by_lower-eq-some, is_switch}
use perses.Prelude.Result.{ok, errorf, or_error-eq-ok}
use perses.Model.Kind.{Kind, kinds, get_kind}

kinds-is_switch : is_switch kinds kinds ≡ true
unfolding is_switch by_lower to_lower
kinds-is_switch = refl

-- A text is read as the kind `k` exactly when `k` is one of the kinds and the two differ at most
-- in the case of their letters.
pub get_kind-eq-ok :
    (s : String) (k : Kind) → (get_kind s ≡ ok k) ↔ (In k kinds × (to_lower s ≡ to_lower k))
unfolding get_kind
get_kind-eq-ok s k =
    let found = or_error-eq-ok (by_lower (to_lower s) kinds) (errorf "unknown kind used") k in
    let switch = by_lower-eq-some kinds kinds-is_switch s k in
    (λ h. switch.0 (found.0 h), λ h. found.1 (switch.1 h))
