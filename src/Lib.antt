-- ===== src/Lib.antt =====
-- Perses: the resources of its API, who may do what with them, and in which order the variables of a
-- dashboard are computed.
--
-- A request reaches an endpoint of the toolbox, which decodes the entity (Model), compares it with
-- the path, asks the authorization for the permission, and calls the service of the kind. The native
-- authorization keeps a cache of the permissions that roles and role bindings give to users. A
-- service validates the entity, fills in what the server owns (the times, the version, the encrypted
-- parts) and writes it through its DAO to the database, here that of files. When a dashboard is
-- saved, the references between its variables have to have an order.
--
-- Files, and the code that each models:
--   Model/Kind          pkg/model/api/v1/kind.go: kinds, `get_kind` is GetKind
--   Model/Permission    pkg/model/api/v1/role: actions, scopes, permissions
--   Model/Role          pkg/model/api/v1/role.go
--   Model/RoleBinding   pkg/model/api/v1/rolebinding.go
--   Model/Metadata      pkg/model/api/v1/metadata.go
--   Model/User          pkg/model/api/v1/user.go
--   Model/Unmarshal     the shape that all UnmarshalJSON and UnmarshalYAML methods share
--   Authorization/Permissions   internal/api/authorization/native/permissions.go: the cache of
--                       permissions as a map from users to maps from projects to lists
--   Authorization/Native        internal/api/authorization/native/native.go: the state is the cache
--                       and the permissions of guests; `has_request_permission` is HasPermission
--   VariableOrder/Dependencies  pkg/model/api/v1/utils/variable_build_order.go up to buildGraph
--   VariableOrder/Graph         the graph of that file and its order in groups
--   Toolbox             internal/api/toolbox/toolbox.go: Create, Update, Delete and Get
--   Toolbox/Listing     internal/api/toolbox/list.go; Toolbox/Visible is about the rows it answers
--   Toolbox/Native      the native authorization as the authorization of the toolbox
--   Model/Resource      the instances of metadata that the services read and write
--   Model/Folder        pkg/model/api/v1/folder.go, with the dashboards a folder names
--   Model/Secret        pkg/model/api/v1/secret.go and pkg/model/api/v1/secret, with its public form
--   Model/Datasource    pkg/model/api/v1/datasource.go
--   Model/Project       pkg/model/api/v1/project.go, pkg/model/api/v1/utils/default.go
--   Model/Duration      pkg/model/api/v1/common/duration.go: String; numbers are `pos` or `negsuc`
--   Crypto              internal/api/crypto/crypto.go
--   Validate            internal/api/validate/validate.go
--   ApiErrors           internal/api/interface/error.go, internal/api/database/model/error.go
--   Database/Path, Database/File   internal/api/database/file: the disk is a list of files, each a
--                       path, which filepath.Join cleaned, and an entity
--   Prelude/Text, Prelude/Lower    the functions of Go's `strings`, with the table of lower case letters
--   Service/Entity      `Dao`, what a service asks of its DAO, and the checks that the services share
--   Service/Refresh     the services that reload the authorization after a write
--   Service/Persistence internal/api/impl/v1/<kind>/persistence.go over the file
--                       database, as a `Dao`
--   Service/<Kind>      internal/api/impl/v1/<kind>/service.go
--   Service/Project     internal/api/impl/v1/project/service.go: create makes the creator the owner,
--                       delete removes what the project holds
--   Service/Cleaner     internal/api/dashboard/cleaner.go: the deletion of ephemeral dashboards
--   PluginTree          internal/api/plugin/tree/tree.go: the tree is a map from nodes to maps from
--                       versions to instances; semver.Compare is a parameter
--
-- How the code is written here. A Go map is an association list without repeated keys, whose order
-- is that of `range`; a theorem for every list holds for every order. A `(value, error)` result is
-- a `Result`; code that changes a store returns it with the result. A call through a nil pointer is
-- `none`. The dependency counters of the graph are 64-bit words with wrap-around, and the theorems
-- ask for fewer than 2 ^ 64 dependencies, which makes the counters exact. The loop of buildOrder
-- runs on fuel, one round for each node; every round builds a node or ends the loop, so that the
-- fuel is enough. The walk through a folder runs on fuel, one round for each item, and each round
-- takes one away. A printed number has fuel for the 20 digits of a 64-bit word. The disk of the
-- file database does not fail. Random bytes, AES, base64, the hash of a password, the schemas of
-- plugins and the custom rules of a lint are parameters. The decoders of JSON, YAML and of the web
-- framework, ValidateID and the lists that the database returns to the endpoints are given by their
-- results.
--
-- Not modelled: the lock of the cache (an operation is one step), log messages and the texts of
-- errors, the scan of plugin specs by reflection (a variable comes with the references found in
-- it), the raw queries, the custom lint rules, credentials read from files, the loading of plugins,
-- authentication, the proxy, discovery, the Kubernetes and SQL backends, the command line, the
-- client, the SDK and the user interface.
pub mod Prelude
pub mod Model
pub mod Authorization
pub mod VariableOrder
pub mod Toolbox
pub mod PluginTree
pub mod Crypto
pub mod Validate
pub mod ApiErrors
pub mod Database
pub mod Service
pub mod Examples
