-- ===== src/Service/Project/Steps.antt =====
-- The steps of the operations on projects that succeeded.
use perses.Prelude.{◌≡◌, refl, sym, ◌∙◌, ap}
use perses.Prelude.Result.{Result, ok, err}
use perses.Authorization.Native.{Native, Lists, refresh_permissions}
use perses.Service.Entity.{on_ok, map_result}
use perses.Service.Refresh.{State}
use perses.Service.Project.{chain, call_failing, answered, refreshing}

pub chain-eq-ok :
    {A B DB : Type 0} (out : Result A × DB) (next : A → DB → Result B × DB) {b : B} {after : DB}
    → chain out next ≡ (ok b, after)
    → (a : A) × (db : DB) × (out ≡ (ok a, db)) × (next a db ≡ (ok b, after))
unfolding chain
chain-eq-ok (err e, db) next h = cc
chain-eq-ok (ok a, db) next h = (a, db, refl, h)

pub answered-eq-ok :
    {A DB : Type 0} (b : A) (db : DB) (out : Result (Unit {0}) × Native) {a : A} {after : State DB}
    → answered b db out ≡ (ok a, after)
    → (b ≡ a) × (db ≡ after.db) × (after.authz ≡ out.1)
unfolding answered
answered-eq-ok b db (err e, n) h = cc
answered-eq-ok b db (ok _, n) h = (cc, ap (λ x. x.1.db) h, ap (λ x. x.1.authz) (sym h))

pub refreshing-eq-ok :
    {A DB : Type 0} (lists_of : DB → Lists) (n : Native) (out : Result A × DB) {a : A}
    {after : State DB}
    → refreshing lists_of n out ≡ (ok a, after)
    → (out ≡ (ok a, after.db)) × (after.authz ≡ (refresh_permissions (lists_of after.db) n).1)
unfolding refreshing
refreshing-eq-ok lists_of n (err e, db) h = cc
refreshing-eq-ok lists_of n (ok b, db) h =
    let (same, same_db, authz) = answered-eq-ok b db (refresh_permissions (lists_of db) n) h in
    (cc, authz ∙ ap (λ x. (refresh_permissions (lists_of x) n).1) same_db)

pub map_result-eq-ok :
    {A B DB : Type 0} (f : A → B) (out : Result A × DB) {b : B} {after : DB}
    → map_result f out ≡ (ok b, after)
    → (a : A) × (out ≡ (ok a, after)) × (f a ≡ b)
unfolding map_result
map_result-eq-ok f (err e, db) h = cc
map_result-eq-ok f (ok a, db) h = (a, cc, cc)

pub on_ok-eq-ok :
    {A B DB : Type 0} (r : Result A) (db : DB) (next : A → Result B × DB) {b : B} {after : DB}
    → on_ok r db next ≡ (ok b, after)
    → (a : A) × (r ≡ ok a) × (next a ≡ (ok b, after))
unfolding on_ok
on_ok-eq-ok (err e) db next h = cc
on_ok-eq-ok (ok a) db next h = (a, refl, h)

pub call_failing-eq-ok :
    {A DB : Type 0} (out : Result A × DB) {a : A} {after : DB}
    → call_failing out ≡ (ok a, after)
    → out ≡ (ok a, after)
call_failing-eq-ok (err e, db) h = cc
call_failing-eq-ok (ok a, db) h = h
