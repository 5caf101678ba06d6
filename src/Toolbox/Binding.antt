-- ===== src/Toolbox/Binding.antt =====
-- What the binding of a request ensures: the entity agrees with the parameters of the path, so that the
-- permission asked for is the one on the project that the entity belongs to.
use Prim.Native.String.{len}
use perses.Prelude.{
  String, ◌≡◌, refl, ◌∙◌, subst, Bool, true, false, not, ◌||◌, some, ◌==◌, string_eq, eqb,
  if◌then◌else◌, ◌⊎◌, arith,
}
use perses.Prelude.Text.{to_lower}
use perses.Prelude.Result.{Result, ok, err, >>=-eq-ok, unsupported_media_type}
use perses.Model.Permission.{Action, Scope, is_global_scope, project_scope}
use perses.Toolbox.{
  Authorization, Request, Parameters, EntityMetadata, plain, in_project, Entity, extract_parameters,
  validate_versus_parameter, validate_metadata, flatten_metadata, bind, or_bad_request, get_name,
  get_metadata_project, project_name, allows, is_json_content_type,
}

-- The project that an entity belongs to, which is its own name for a project.
unfoldable pub project_of : Scope → EntityMetadata → String
project_of scope m = if scope == project_scope then get_name m else get_metadata_project m

unfoldable pub is_in_project : EntityMetadata → Bool
is_in_project (plain m) = false
is_in_project (in_project m) = true

-- The kind is global or that of projects, or its entities are in a project.
unfoldable pub has_place : Scope → EntityMetadata → Bool
has_place scope m = is_global_scope scope || scope == project_scope || is_in_project m

value_agrees :
    (sensitive : Bool) (param value v : String)
    → validate_versus_parameter sensitive param value ≡ ok v
    → (eqb (len (if not sensitive then to_lower param else param)) 0 ≡ true)
      ⊎ ((if not sensitive then to_lower param else param) ≡ v)
unfolding validate_versus_parameter
value_agrees sensitive param value v h =
    ground (arith, string_eq.beq_iff value (to_lower param), string_eq.beq_iff value param)

pub record Agrees (p : Parameters) (m : EntityMetadata) : Type 0 where
  pub named : (eqb (len p.name) 0 ≡ true) ⊎ (p.name ≡ get_name m)
  pub placed :
      is_in_project m ≡ true → (eqb (len p.project) 0 ≡ true) ⊎ (p.project ≡ get_metadata_project m)

lowered : Bool → String → String
lowered sensitive s = if not sensitive then to_lower s else s

parameter_name :
    (r : Request) (sensitive : Bool)
    → (extract_parameters r sensitive).name ≡ lowered sensitive r.param_name
unfolding extract_parameters lowered
parameter_name r true = refl
parameter_name r false = refl

parameter_project :
    (r : Request) (sensitive : Bool)
    → (extract_parameters r sensitive).project ≡ lowered sensitive r.param_project
unfolding extract_parameters lowered
parameter_project r true = refl
parameter_project r false = refl

pub ok_inj : {A : Type 0} (a b : A) → ok a ≡ ok b → a ≡ b
ok_inj a b h = cc

metadata-Agrees :
    (sensitive : Bool) (r : Request) (m m' : EntityMetadata)
    → validate_metadata sensitive r m ≡ ok m'
    → Agrees (extract_parameters r sensitive) m' × (is_in_project m' ≡ is_in_project m)
unfolding validate_metadata is_in_project lowered
metadata-Agrees sensitive r (plain m) m' h =
    let (name, e, f) = >>=-eq-ok (validate_versus_parameter sensitive r.param_name m.name) _ h in
    subst (λ x. Agrees (extract_parameters r sensitive) x × (is_in_project x ≡ false))
      (ok_inj _ _ f)
      (
        record {
          named = ground (
            arith,
            value_agrees sensitive r.param_name m.name name e,
            parameter_name r sensitive,
          );
          placed = λ q. absurd (ground arith);
        },
        refl,
      )
metadata-Agrees sensitive r (in_project m) m' h =
    let (project, d, h1) =
      >>=-eq-ok (validate_versus_parameter sensitive r.param_project m.project) _ h in
    let (name, e, f) = >>=-eq-ok (validate_versus_parameter sensitive r.param_name m.name) _ h1 in
    subst (λ x. Agrees (extract_parameters r sensitive) x × (is_in_project x ≡ true)) (ok_inj _ _ f)
      (
        record {
          named = ground (
            arith,
            value_agrees sensitive r.param_name m.name name e,
            parameter_name r sensitive,
          );
          placed = λ q. ground (
            arith,
            value_agrees sensitive r.param_project m.project project d,
            parameter_project r sensitive,
          );
        },
        refl,
      )

flatten_place :
    (sensitive : Bool) (m : EntityMetadata)
    → is_in_project (flatten_metadata sensitive m) ≡ is_in_project m
unfolding is_in_project flatten_metadata
flatten_place sensitive (plain m) = refl
flatten_place sensitive (in_project m) = refl

pub allows-project_name :
    (authz : Authorization) (scope : Scope) (action : Action) (m : EntityMetadata) (p : Parameters)
    → Agrees p m
    → has_place scope m ≡ true
    → allows authz scope action (project_name scope (some m) p)
      ≡ allows authz scope action (project_of scope m)
unfolding allows project_name project_of has_place
allows-project_name authz scope action m p a h = ground (arith, a.named, a.placed)

or_bad_request-ok : {A : Type 0} (m : Result A) (a : A) → or_bad_request m ≡ ok a → m ≡ ok a
or_bad_request-ok m a h = ground arith

unsupported :
    {A : Type 0} (t : Bool) (m : Result A) (a : A)
    → (if not t then err unsupported_media_type else m) ≡ ok a
    → m ≡ ok a
unsupported t m a h = ground arith

-- What a bound entity keeps of the decoded one.
pub bind-Agrees :
    {S : Type 0} (sensitive : Bool) (r : Request) (decoded entity : Entity S)
    → bind sensitive r (ok decoded) ≡ ok entity
    → Agrees (extract_parameters r sensitive) entity.metadata
      × (is_in_project entity.metadata ≡ is_in_project decoded.metadata)
unfolding bind
bind-Agrees sensitive r decoded entity h =
    let (m, e, f) =
      >>=-eq-ok
        (or_bad_request
          (validate_metadata sensitive r (flatten_metadata sensitive decoded.metadata)))
        _ (unsupported (is_json_content_type r) _ entity h) in
    let (a, q) =
      metadata-Agrees sensitive r (flatten_metadata sensitive decoded.metadata) m
        (or_bad_request-ok _ m e) in
    subst
      (λ x.
        Agrees (extract_parameters r sensitive) x.metadata
        × (is_in_project x.metadata ≡ is_in_project decoded.metadata))
      (ok_inj _ _ f) (a, q ∙ flatten_place sensitive decoded.metadata)
