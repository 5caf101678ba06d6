-- ===== src/Model/Permission/Laws.antt =====
-- Reading scopes, and what their validation lets through.
use perses.Prelude.{String, ◌≡◌, refl, ◌↔◌, In, true}
use perses.Prelude.Text.{to_lower, by_lower, by_lower-eq-some, is_switch}
use perses.Prelude.Result.{ok, errorf, or_error-eq-ok}
use perses.Model.Permission.{Scope, scopes, get_scope}

scopes-is_switch : is_switch scopes scopes ≡ true
unfolding is_switch by_lower to_lower
scopes-is_switch = refl

-- A text is read as the scope `c` exactly when `c` is one of the scopes and the two differ at most
-- in the case of their letters.
pub get_scope-eq-ok :
    (s : String) (c : Scope) → (get_scope s ≡ ok c) ↔ (In c scopes × (to_lower s ≡ to_lower c))
unfolding get_scope
get_scope-eq-ok s c =
    let found = or_error-eq-ok (by_lower (to_lower s) scopes) (errorf "unknown scope used") c in
    let switch = by_lower-eq-some scopes scopes-is_switch s c in
    (λ h. switch.0 (found.0 h), λ h. found.1 (switch.1 h))
