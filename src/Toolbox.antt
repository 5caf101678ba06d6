-- ===== src/Toolbox.antt =====
-- internal/api/toolbox: what every endpoint of the API does with a request: it decodes the entity,
-- checks it against the path, asks for the permission and calls the service of the kind. The
-- authorization is an interface; `perses.Authorization.Native` is one that fills it. Echo's
-- decoding of the body and the query is given by its result.
pub mod Listing
pub mod Binding
pub mod Writes
pub mod Lists
pub mod Visible
pub mod Native
use Prim.Native.Char.{Char}
use Prim.Native.String.{len}
use perses.Prelude.{
  String, Bool, true, false, not, ◌&&◌, ◌||◌, Option, none, some, ◌==◌, string_eq, eqb,
  if◌then◌else◌, List,
}
use perses.Prelude.Text.{to_lower, contains_text}
use perses.Prelude.Result.{
  Result, Error, ok, err, errorf, bad_request, forbidden, unsupported_media_type, ◌>>=◌, ◌>>◌,
}
use perses.Model.Permission.{
  Action, Scope, get_scope, is_global_scope, project_scope, create_action, update_action,
  delete_action, read_action,
}
use perses.Model.User.{wildcard_project}
use perses.Model.Metadata.{Metadata, ProjectMetadata, flatten, flatten_project}

-- authorization.Authorization, for the context of one request.
pub record Authorization : Type 0 where
  pub is_enabled : Bool
  pub has_permission : Action → String → Scope → Bool
  pub has_create_project_permission : String → Bool
  pub get_user_projects : Action → Scope → Result (List String)

-- The parts of echo.Context that are read: a header and two path parameters.
pub record Request : Type 0 where
  pub content_type : String
  pub param_project : String
  pub param_name : String

pub record Parameters : Type 0 where
  pub project : String
  pub name : String

unfoldable pub extract_parameters : Request → Bool → Parameters
extract_parameters r case_sensitive =
    if not case_sensitive
    then record { project = to_lower r.param_project; name = to_lower r.param_name }
    else record { project = r.param_project; name = r.param_name }

unfoldable pub is_json_content_type : Request → Bool
is_json_content_type r =
    if eqb (len r.content_type) 0 then false else contains_text r.content_type "application/json"

-- api.Metadata of the resources that a request can hold.
pub data EntityMetadata : Type 0 where
  plain : Metadata → EntityMetadata
  in_project : ProjectMetadata → EntityMetadata

abbrev pub get_name : EntityMetadata → String
get_name (plain m) = m.name
get_name (in_project m) = m.name

abbrev pub get_metadata_project : EntityMetadata → String
get_metadata_project (plain m) = ""
get_metadata_project (in_project m) = m.project

unfoldable pub flatten_metadata : Bool → EntityMetadata → EntityMetadata
flatten_metadata sensitive (plain m) = plain (flatten sensitive m)
flatten_metadata sensitive (in_project m) = in_project (flatten_project sensitive m)

-- The metadata value after the check; an empty one takes the value of the parameter.
unfoldable pub validate_versus_parameter : Bool → String → String → Result String
validate_versus_parameter case_sensitive param value =
    let param_value = if not case_sensitive then to_lower param else param in
    if eqb (len param_value) 0
    then ok value
    else if eqb (len value) 0
    then ok param_value
    else if value == param_value
    then ok value
    else err (errorf "parameter value does not match provided metadata value")

unfoldable pub validate_metadata : Bool → Request → EntityMetadata → Result EntityMetadata
validate_metadata sensitive r (plain m) = do
  name ← validate_versus_parameter sensitive r.param_name m.name
  ok (plain (record m { name = name }))
validate_metadata sensitive r (in_project m) = do
  project ← validate_versus_parameter sensitive r.param_project m.project
  name ← validate_versus_parameter sensitive r.param_name m.name
  ok (in_project (record { metadata = record m.metadata { name = name }; project = project }))

pub record Entity (S : Type 0) : Type 0 where
  pub metadata : EntityMetadata
  pub spec : S

-- HandleBadRequestError(err.Error())
abbrev pub or_bad_request {ℓ} : {A : Type ℓ} → Result A → Result A
or_bad_request (ok a) = ok a
or_bad_request (err e) = err bad_request

-- bind, with the result of ctx.Bind
unfoldable pub bind : {S : Type 0} → Bool → Request → Result (Entity S) → Result (Entity S)
bind sensitive r decoded = if not (is_json_content_type r) then err unsupported_media_type else do
  entity ← or_bad_request decoded
  metadata ←
      or_bad_request (validate_metadata sensitive r (flatten_metadata sensitive entity.metadata))
  ok (record entity { metadata = metadata })

-- if ok := ...; !ok { return HandleForbiddenError(...) }
abbrev pub require : Bool → Result (Unit {0})
require true = ok tt
require false = err forbidden

-- The name of the project whose permission is asked for; no entity is a nil one.
unfoldable pub project_name : Scope → Option EntityMetadata → Parameters → String
project_name scope none p = if scope == project_scope then p.name else p.project
project_name scope (some m) p =
    if scope == project_scope
    then if eqb (len p.name) 0 then get_name m else p.name
    else if eqb (len p.project) 0
    then get_metadata_project m
    else p.project

unfoldable pub allows : Authorization → Scope → Action → String → Bool
allows authz scope action project =
    if is_global_scope scope
    then authz.has_permission action wildcard_project scope
    else if scope == project_scope && action == create_action
    then authz.has_create_project_permission project
    else authz.has_permission action project scope

unfoldable pub check_permission :
    Authorization → String → Option EntityMetadata → Parameters → Action → Result (Unit {0})
check_permission authz kind entity p action = if not authz.is_enabled then ok tt else do
  scope ← get_scope kind
  require (allows authz scope action (project_name scope entity p))

unfoldable pub check_permission_list : Authorization → Parameters → Scope → Result (Unit {0})
check_permission_list authz p scope =
    let project = if scope == project_scope then p.name else p.project in
    if not authz.is_enabled
    then ok tt
    else if is_global_scope scope
    then require (authz.has_permission read_action wildcard_project scope)
    else if eqb (len project) 0
    then ok tt
    else require (authz.has_permission read_action project scope)

pub data Reply (K : Type 0) : Type 0 where
  json : K → Reply K
  no_content : Reply K

-- What the writes of a service do to the store.
pub record Service (S K DB : Type 0) : Type 0 where
  pub create_entity : Entity S → DB → Result K × DB
  pub update_entity : Entity S → Parameters → DB → Result K × DB
  pub delete_entity : Parameters → DB → Result (Unit {0}) × DB
  pub get_entity : Parameters → DB → Result K

abbrev pub reply : {K DB : Type 0} → Result K × DB → Result (Reply K) × DB
reply (ok k, db) = (ok (json k), db)
reply (err e, db) = (err e, db)

abbrev pub reply_no_content : {K DB : Type 0} → Result (Unit {0}) × DB → Result (Reply K) × DB
reply_no_content (ok k, db) = (ok no_content, db)
reply_no_content (err e, db) = (err e, db)

module _ {S K DB : Type 0} (service : Service S K DB) (authz : Authorization) (kind : String)
    (sensitive : Bool) where
  -- the first steps of Create and Update
  abbrev pub checked : Request → Result (Entity S) → Action → Result (Entity S)
  checked r decoded action = do
    entity ← bind sensitive r decoded
    check_permission authz kind (some entity.metadata) (extract_parameters r sensitive) action
        >> ok entity

  unfoldable pub create : Request → Result (Entity S) → DB → Result (Reply K) × DB
  create r decoded db = elim (checked r decoded create_action) [
    | err e ↦ (err e, db)
    | ok entity ↦ reply (service.create_entity entity db)
  ]

  unfoldable pub update : Request → Result (Entity S) → DB → Result (Reply K) × DB
  update r decoded db = elim (checked r decoded update_action) [
    | err e ↦ (err e, db)
    | ok entity ↦ reply (service.update_entity entity (extract_parameters r sensitive) db)
  ]

  unfoldable pub delete : Request → DB → Result (Reply K) × DB
  delete r db =
      let p = extract_parameters r sensitive in
      elim (check_permission authz kind none p delete_action) [
        | err e ↦ (err e, db)
        | ok _ ↦ reply_no_content (service.delete_entity p db)
      ]

  unfoldable pub get : Request → DB → Result (Reply K)
  get r db =
      let p = extract_parameters r sensitive in
      elim (check_permission authz kind none p read_action) [
        | err e ↦ err e
        | ok _ ↦ service.get_entity p db >>= λ k. ok (json k)
      ]
