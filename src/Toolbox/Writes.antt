-- ===== src/Toolbox/Writes.antt =====
-- Create and Update reach the service only with the permission on the project that the entity they
-- hand over belongs to, and Delete with the permission at its path.
use perses.Prelude.{
  String, ◌≡◌, refl, sym, ◌∙◌, subst, Bool, true, false, not, Option, none, some, if◌then◌else◌,
  ◌⊎◌, inl, inr, arith, Bool-cases, ◌↔◌, ap, string_eq,
}
use perses.Prelude.Result.{Result, Error, ok, err, forbidden, >>=-eq-ok, >>-eq-ok, Result-cases}
use perses.Model.Permission.{
  Action, Scope, get_scope, create_action, update_action, delete_action, is_global_scope,
  project_scope,
}
use perses.Model.User.{wildcard_project}
use perses.Toolbox.{
  Authorization, Request, Parameters, EntityMetadata, Entity, Service, extract_parameters, bind,
  project_name, allows, check_permission, require, create, update, delete, reply, reply_no_content,
  checked,
}
use perses.Toolbox.Binding.{
  Agrees, bind-Agrees, allows-project_name, project_of, has_place, is_in_project, ok_inj,
}

-- Without authorization everything is permitted; with it, the kind has a scope and the
-- authorization allows the action on the entity's project.
unfoldable pub Permitted : Authorization → String → Action → (Scope → String) → Type 0
Permitted authz kind action project =
    (authz.is_enabled ≡ false)
    ⊎ ((scope : Scope) × (get_scope kind ≡ ok scope)
        × (allows authz scope action (project scope) ≡ true))

require-ok : (b : Bool) → require b ≡ ok tt → b ≡ true
require-ok b h = ground arith

check_permission-Permitted :
    (authz : Authorization) (kind : String) (m : Option EntityMetadata) (p : Parameters)
    (action : Action)
    → check_permission authz kind m p action ≡ ok tt
    → Permitted authz kind action (λ s. project_name s m p)
unfolding Permitted check_permission
check_permission-Permitted authz kind m p action h = elim (Bool-cases authz.is_enabled) [
  | inl e ↦
      let (scope, q, k) = >>=-eq-ok (get_scope kind) _ (enabled authz.is_enabled e _ h) in
      inr (scope, q, require-ok _ k)
  | inr e ↦ inl e
]
  where
    enabled :
        (b : Bool)
        → b ≡ true
        → (k : Result (Unit {0})) → (if not b then ok tt else k) ≡ ok tt
        → k ≡ ok tt
    enabled b e k h = ground arith

-- The permission asked for is the one on the entity's project.
entity-Permitted :
    (authz : Authorization) (kind : String) (m : EntityMetadata) (p : Parameters) (action : Action)
    → Agrees p m
    → ((scope : Scope) → get_scope kind ≡ ok scope → has_place scope m ≡ true)
    → Permitted authz kind action (λ s. project_name s (some m) p)
    → Permitted authz kind action (λ s. project_of s m)
unfolding Permitted
entity-Permitted authz kind m p action a place (inl e) = inl e
entity-Permitted authz kind m p action a place (inr (scope, q, k)) =
    inr (scope, q, sym (allows-project_name authz scope action m p a (place scope q)) ∙ k)

has_place-same :
    (scope : Scope) (m m' : EntityMetadata)
    → is_in_project m' ≡ is_in_project m
    → has_place scope m ≡ true
    → has_place scope m' ≡ true
unfolding has_place
has_place-same scope m m' e h = ground arith

-- The permission to delete at a path for a kind of some scope.
pub MayDeleteIn : Authorization → Scope → Parameters → Type 0
MayDeleteIn authz scope p =
    ((is_global_scope scope ≡ true)
      × (authz.has_permission delete_action wildcard_project scope ≡ true))
    ⊎ ((is_global_scope scope ≡ false)
        × (scope ≡ project_scope)
        × (authz.has_permission delete_action p.name scope ≡ true))
    ⊎ ((is_global_scope scope ≡ false)
        × (scope ≡ project_scope → ⊥)
        × (authz.has_permission delete_action p.project scope ≡ true))

pub MayDelete : Authorization → String → Parameters → Type 0
MayDelete authz kind p =
    (authz.is_enabled ≡ false)
    ⊎ ((scope : Scope) × (get_scope kind ≡ ok scope) × MayDeleteIn authz scope p)

allows-delete :
    (authz : Authorization) (scope : Scope) (p : Parameters)
    → (allows authz scope delete_action (project_name scope none p) ≡ true)
      ↔ MayDeleteIn authz scope p
unfolding MayDeleteIn allows project_name
allows-delete authz scope p = ground (arith, string_eq.beq_iff scope project_scope)

check_permission-scope :
    (authz : Authorization) (kind : String) (p : Parameters) (scope : Scope)
    → authz.is_enabled ≡ true
    → get_scope kind ≡ ok scope
    → check_permission authz kind none p delete_action
      ≡ require (allows authz scope delete_action (project_name scope none p))
unfolding check_permission
check_permission-scope authz kind p scope on q = rw (on, q) refl

check_permission-delete :
    (authz : Authorization) (kind : String) (p : Parameters)
    → (MayDelete authz kind p × (check_permission authz kind none p delete_action ≡ ok tt))
      ⊎ ((MayDelete authz kind p → ⊥)
          × (e : Error) × (check_permission authz kind none p delete_action ≡ err e))
unfolding MayDelete check_permission
check_permission-delete authz kind p = elim (Bool-cases authz.is_enabled) [
  | inr off ↦ inl (inl off, rw (off, check_permission) refl)
  | inl on ↦ elim (Result-cases (get_scope kind)) [
    | inr (e, q) ↦ inr (
      (λ may. elim may [ inl off ↦ both on off | inr (scope, k, _) ↦ neither e scope q k ]),
      e,
      rw (on, q, check_permission) refl,
    )
    | inl (scope, q) ↦
        elim (Bool-cases (allows authz scope delete_action (project_name scope none p))) [
          | inl yes_ ↦ inl (
            inr (scope, q, (allows-delete authz scope p).0 yes_),
            check_permission-scope authz kind p scope on q ∙ ap require yes_,
          )
          | inr no_ ↦ inr (
            (λ may. elim may [
              | inl off ↦ both on off
              | inr (other, k, m) ↦
                  both
                    ((allows-delete authz scope p).1
                      (subst (λ x. MayDeleteIn authz x p) (ok_inj other scope (sym k ∙ q)) m))
                    no_
            ]),
            forbidden,
            check_permission-scope authz kind p scope on q ∙ ap require no_,
          )
        ]
  ]
]
  where
    both : {b : Bool} → b ≡ true → b ≡ false → ⊥
    both t f = cc

    neither : (e : Error) (scope : Scope) → get_scope kind ≡ err e → get_scope kind ≡ ok scope → ⊥
    neither e scope q k = cc

module _ {S K DB : Type 0} (service : Service S K DB) (authz : Authorization) (kind : String)
    (sensitive : Bool) where
  -- What a write with a decoded entity comes to.
  checked-Permitted :
      (r : Request) (decoded entity : Entity S) (action : Action)
      → ((scope : Scope) → get_scope kind ≡ ok scope → has_place scope decoded.metadata ≡ true)
      → checked service authz kind sensitive r (ok decoded) action ≡ ok entity
      → (bind sensitive r (ok decoded) ≡ ok entity)
        × Permitted authz kind action (λ s. project_of s entity.metadata)
  checked-Permitted r decoded entity action place h =
      let (bound, b, rest) = >>=-eq-ok (bind sensitive r (ok decoded)) _ h in
      let (c, q) =
        >>-eq-ok (check_permission authz kind (some bound.metadata) _ action) (ok bound) rest in
      let (a, same) = bind-Agrees sensitive r decoded bound b in
      subst
        (λ x.
          (bind sensitive r (ok decoded) ≡ ok x)
          × Permitted authz kind action (λ s. project_of s x.metadata))
        (ok_inj bound entity q)
        (
          b,
          entity-Permitted authz kind bound.metadata (extract_parameters r sensitive) action a
              (λ scope k. has_place-same scope decoded.metadata bound.metadata same (place scope k))
              (check_permission-Permitted authz kind (some bound.metadata) _ action c),
        )

  pub create-Permitted :
      (r : Request) (decoded : Entity S) (db : DB)
      → ((scope : Scope) → get_scope kind ≡ ok scope → has_place scope decoded.metadata ≡ true)
      → ((e : Error) × (create service authz kind sensitive r (ok decoded) db ≡ (err e, db)))
        ⊎ ((entity : Entity S) × (create service authz kind sensitive r (ok decoded) db
              ≡ reply (service.create_entity entity db))
            × (bind sensitive r (ok decoded) ≡ ok entity)
            × Permitted authz kind create_action (λ s. project_of s entity.metadata))
  unfolding create
  create-Permitted r decoded db place =
      elim (Result-cases (checked service authz kind sensitive r (ok decoded) create_action)) [
        | inl (entity, q) ↦
            let (b, p) = checked-Permitted r decoded entity create_action place q in
            inr (entity, rw (q, create) refl, b, p)
        | inr (e, q) ↦ inl (e, rw (q, create) refl)
      ]

  pub update-Permitted :
      (r : Request) (decoded : Entity S) (db : DB)
      → ((scope : Scope) → get_scope kind ≡ ok scope → has_place scope decoded.metadata ≡ true)
      → ((e : Error) × (update service authz kind sensitive r (ok decoded) db ≡ (err e, db)))
        ⊎ ((entity : Entity S) × (update service authz kind sensitive r (ok decoded) db
              ≡ reply (service.update_entity entity (extract_parameters r sensitive) db))
            × (bind sensitive r (ok decoded) ≡ ok entity)
            × Permitted authz kind update_action (λ s. project_of s entity.metadata))
  unfolding update
  update-Permitted r decoded db place =
      elim (Result-cases (checked service authz kind sensitive r (ok decoded) update_action)) [
        | inl (entity, q) ↦
            let (b, p) = checked-Permitted r decoded entity update_action place q in
            inr (entity, rw (q, update) refl, b, p)
        | inr (e, q) ↦ inl (e, rw (q, update) refl)
      ]

  -- Delete returns what the service answers for the parameters of the path exactly when the user may
  -- delete there: authorization is disabled, or the kind has a scope and the permission to delete is
  -- given everywhere for a global scope, in the project that is named for the scope of projects, and
  -- in the project of the path for any other. Otherwise it fails and leaves the store as it was.
  pub delete-Permitted :
      (r : Request) (db : DB)
      → (MayDelete authz kind (extract_parameters r sensitive)
          × (delete service authz kind sensitive r db
              ≡ reply_no_content (service.delete_entity (extract_parameters r sensitive) db)))
        ⊎ ((MayDelete authz kind (extract_parameters r sensitive) → ⊥)
            × (e : Error) × (delete service authz kind sensitive r db ≡ (err e, db)))
  unfolding delete
  delete-Permitted r db =
      elim (check_permission-delete authz kind (extract_parameters r sensitive)) [
        | inl (may, q) ↦ inl (may, rw (q, delete) refl)
        | inr (may_not, e, q) ↦ inr (may_not, e, rw (q, delete) refl)
      ]
