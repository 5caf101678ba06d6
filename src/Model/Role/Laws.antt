-- ===== src/Model/Role/Laws.antt =====
-- What decoding a role guarantees.
use perses.Prelude.{
  ◌≡◌, subst, ◌⊎◌, inl, inr, Bool, true, false, List, [], ◌∷◌, In, elems, not, arith, string_eq,
}
use perses.Prelude.Result.{Result, ok, err, Error, >>-eq-ok, guard-eq-ok}
use perses.Model.Unmarshal.{unmarshal_cases}
use perses.Model.Permission.{Permission, Scope, is_global_scope}
use perses.Model.Role.{Role, validate_scopes, validate_permissions, validate, unmarshal_role}

-- No permission names a global scope.
abbrev pub IsLocal : List Permission → Type 0
IsLocal ps = (p : Permission) → In p ps → (s : Scope) → In s p.scopes → is_global_scope s ≡ false

not-eq-true : (b : Bool) → not b ≡ true → b ≡ false
not-eq-true b h = ground arith

validate_scopes-ok :
    (l : List Scope) → validate_scopes l ≡ ok tt → (s : Scope) → In s l → is_global_scope s ≡ false
unfolding validate_scopes
validate_scopes-ok [] h s i = absurd i
validate_scopes-ok (x ∷ l) h s (inl e) =
    rw e (not-eq-true _ (guard-eq-ok _ _ (>>-eq-ok _ (validate_scopes l) h).0))
validate_scopes-ok (x ∷ l) h s (inr i) =
    validate_scopes-ok l (>>-eq-ok _ (validate_scopes l) h).1 s i

validate_permissions-ok : (ps : List Permission) → validate_permissions ps ≡ ok tt → IsLocal ps
unfolding validate_permissions
validate_permissions-ok [] h p i s j = absurd i
validate_permissions-ok (q ∷ ps) h p (inl e) s j =
    validate_scopes-ok q.scopes (>>-eq-ok _ (validate_permissions ps) h).0 s
      (subst (λ (x : Permission). In s x.scopes) e j)
validate_permissions-ok (q ∷ ps) h p (inr i) s j =
    validate_permissions-ok ps (>>-eq-ok _ (validate_permissions ps) h).1 p i s j

validate_parts :
    (t r : Role)
    → validate t ≡ ok r
    → (t ≡ r) × (t.kind ≡ "Role") × (validate_permissions (elems t.spec.permissions) ≡ ok tt)
unfolding validate
validate_parts t r h = ground (arith, string_eq.beq_iff t.kind "Role")

-- Only a role of the right kind whose permissions name no global scope passes.
pub validate-ok :
    (t r : Role) → validate t ≡ ok r → (r.kind ≡ "Role") × IsLocal (elems r.spec.permissions)
validate-ok t r h =
    let (same, k, ps) = validate_parts t r h in
    subst (λ (x : Role). (x.kind ≡ "Role") × IsLocal (elems x.spec.permissions)) same
      (k, validate_permissions-ok _ ps)

-- Decoding a role either fails and leaves the receiver as it was, or stores a role of the kind
-- "Role" whose permissions name no global scope.
pub unmarshal_role_lem :
    (decoded : Result Role) (receiver : Role)
    → ((r : Role) × (unmarshal_role decoded receiver ≡ (ok tt, r))
        × (r.kind ≡ "Role")
        × IsLocal (elems r.spec.permissions))
      ⊎ ((e : Error) × (unmarshal_role decoded receiver ≡ (err e, receiver)))
unfolding unmarshal_role
unmarshal_role_lem decoded receiver = elim (unmarshal_cases validate decoded receiver) [
  | inl (t, r, _, h, e) ↦ inl (r, e, (validate-ok t r h).0, (validate-ok t r h).1)
  | inr failed ↦ inr failed
]
