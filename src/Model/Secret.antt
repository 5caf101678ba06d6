-- ===== src/Model/Secret.antt =====
-- pkg/model/api/v1/secret.go, public_secret.go and secret/: secrets with their ways to authenticate,
-- and the public structs that the API answers with, whose hidden texts are printed as a token.
-- A nil pointer is `none`.
pub mod Hiding
use Prim.Native.String.{len}
use perses.Prelude.{
  ℕ, String, Bool, true, false, not, ◌&&◌, ◌||◌, List, Option, none, some, eqb, if◌then◌else◌,
}
use perses.Prelude.GoMap.{GoMap}
use perses.Prelude.Text.{trim_space}
use perses.Prelude.Result.{Result, ok, err, errorf}
use perses.Model.Unmarshal.{unmarshal}
use perses.Model.Kind.{Kind}
use perses.Model.Metadata.{Metadata, ProjectMetadata}
use perses.Model.Resource.{Resource}

pub record BasicAuth : Type 0 where
  pub username : String
  pub password : String
  pub password_file : String

pub record Authorization : Type 0 where
  pub type_ : String
  pub credentials : String
  pub credentials_file : String

pub record OAuth : Type 0 where
  pub client_id : String
  pub client_secret : String
  pub client_secret_file : String
  pub token_url : String
  pub scopes : List String
  pub endpoint_params : GoMap String (List String)
  pub auth_style : ℕ

pub record TlsConfig : Type 0 where
  pub ca : String
  pub cert : String
  pub key : String
  pub ca_file : String
  pub cert_file : String
  pub key_file : String
  pub server_name : String
  pub insecure_skip_verify : Bool
  pub min_version : String
  pub max_version : String

pub record SecretSpec : Type 0 where
  pub basic_auth : Option BasicAuth
  pub authorization : Option Authorization
  pub oauth : Option OAuth
  pub tls_config : Option TlsConfig

abbrev pub Secret : Type 0
Secret = Resource ProjectMetadata SecretSpec

abbrev pub GlobalSecret : Type 0
GlobalSecret = Resource Metadata SecretSpec

abbrev is_empty : String → Bool
is_empty s = eqb (len s) 0

unfoldable pub validate_basic_auth : BasicAuth → Result BasicAuth
validate_basic_auth b =
    if is_empty b.username || is_empty b.password && is_empty b.password_file
    then err (errorf "when using basicAuth, username and password/passwordFile cannot be empty")
    else if not (is_empty b.password) && not (is_empty b.password_file)
    then err (errorf "at most one of basicAuth password & passwordFile must be configured")
    else ok b

unfoldable pub validate_authorization : Authorization → Result Authorization
validate_authorization a =
    let type_ = trim_space a.type_ in
    if not (is_empty a.credentials) && not (is_empty a.credentials_file)
    then err
        (errorf "at most one of authorization credentials & credentialsFile must be configured")
    else ok (record a { type_ = if is_empty type_ then "Bearer" else type_ })

unfoldable pub validate_oauth : OAuth → Result OAuth
validate_oauth o =
    if is_empty o.client_id
      || is_empty o.client_secret && is_empty o.client_secret_file
      || is_empty o.token_url
    then err (
        errorf
          "when using oauth, clientID, clientSecret/clientSecretFile, and tokenURL cannot be empty")
    else if not (is_empty o.client_secret) && not (is_empty o.client_secret_file)
    then err (errorf "at most one of oauth clientSecret & clientSecretFile must be configured")
    else ok o

abbrev is_given : {A : Type 0} → Option A → Bool
is_given none = false
is_given (some a) = true

unfoldable pub validate_spec : SecretSpec → Result SecretSpec
validate_spec s =
    if is_given s.basic_auth && is_given s.authorization && is_given s.oauth
    then err (errorf "basicAuth, authorization and oauth are mutually exclusive, use one of them")
    else ok s

unfoldable pub unmarshal_spec : Result SecretSpec → SecretSpec → Result (Unit {0}) × SecretSpec
unmarshal_spec = unmarshal validate_spec

unfoldable pub unmarshal_basic_auth : Result BasicAuth → BasicAuth → Result (Unit {0}) × BasicAuth
unmarshal_basic_auth = unmarshal validate_basic_auth

unfoldable pub unmarshal_authorization :
    Result Authorization → Authorization → Result (Unit {0}) × Authorization
unmarshal_authorization = unmarshal validate_authorization

unfoldable pub unmarshal_oauth : Result OAuth → OAuth → Result (Unit {0}) × OAuth
unmarshal_oauth = unmarshal validate_oauth

-- The public structs, with `H` for the type of the hidden texts: Hidden, or what is printed of one.
pub record PublicBasicAuth (H : Type 0) : Type 0 where
  pub username : String
  pub password : H
  pub password_file : String

pub record PublicAuthorization (H : Type 0) : Type 0 where
  pub type_ : String
  pub credentials : H
  pub credentials_file : String

pub record PublicOAuth (H : Type 0) : Type 0 where
  pub client_id : H
  pub client_secret : H
  pub client_secret_file : String
  pub token_url : String
  pub scopes : List String
  pub endpoint_params : GoMap String (List String)
  pub auth_style : ℕ

pub record PublicTlsConfig (H : Type 0) : Type 0 where
  pub ca : H
  pub cert : H
  pub key : H
  pub ca_file : String
  pub cert_file : String
  pub key_file : String
  pub server_name : String
  pub insecure_skip_verify : Bool
  pub min_version : String
  pub max_version : String

pub record PublicSecretSpec (H : Type 0) : Type 0 where
  pub basic_auth : Option (PublicBasicAuth H)
  pub authorization : Option (PublicAuthorization H)
  pub oauth : Option (PublicOAuth H)
  pub tls_config : Option (PublicTlsConfig H)

pub record Hidden : Type 0 where
  pub text : String

abbrev hidden : String → Hidden
hidden s = record { text = s }

-- MarshalJSON and MarshalText
unfoldable pub marshal_hidden : Hidden → String
marshal_hidden h = if eqb (len h.text) 0 then "" else "<secret>"

unfoldable pub new_public_basic_auth : Option BasicAuth → Option (PublicBasicAuth Hidden)
new_public_basic_auth none = none
new_public_basic_auth (some b) = some (record {
  username = b.username;
  password = hidden b.password;
  password_file = b.password_file;
})

unfoldable pub new_public_authorization : Option Authorization → Option (PublicAuthorization Hidden)
new_public_authorization none = none
new_public_authorization (some a) = some (record {
  type_ = a.type_;
  credentials = hidden a.credentials;
  credentials_file = a.credentials_file;
})

unfoldable pub new_public_oauth : Option OAuth → Option (PublicOAuth Hidden)
new_public_oauth none = none
new_public_oauth (some o) = some (record {
  client_id = hidden o.client_id;
  client_secret = hidden o.client_secret;
  client_secret_file = o.client_secret_file;
  token_url = o.token_url;
  scopes = o.scopes;
  endpoint_params = o.endpoint_params;
  auth_style = o.auth_style;
})

unfoldable pub new_public_tls_config : Option TlsConfig → Option (PublicTlsConfig Hidden)
new_public_tls_config none = none
new_public_tls_config (some t) = some (record {
  ca = hidden t.ca;
  cert = hidden t.cert;
  key = hidden t.key;
  ca_file = t.ca_file;
  cert_file = t.cert_file;
  key_file = t.key_file;
  server_name = t.server_name;
  insecure_skip_verify = t.insecure_skip_verify;
  min_version = t.min_version;
  max_version = t.max_version;
})

unfoldable pub new_public_secret_spec : SecretSpec → PublicSecretSpec Hidden
new_public_secret_spec s = record {
  basic_auth = new_public_basic_auth s.basic_auth;
  authorization = new_public_authorization s.authorization;
  oauth = new_public_oauth s.oauth;
  tls_config = new_public_tls_config s.tls_config;
}

-- PublicProjectMetadata and PublicMetadata have the fields of the metadata they copy.
abbrev pub PublicSecret : Type 0
PublicSecret = Resource ProjectMetadata (PublicSecretSpec Hidden)

abbrev pub PublicGlobalSecret : Type 0
PublicGlobalSecret = Resource Metadata (PublicSecretSpec Hidden)

unfoldable pub new_public_secret : Secret → PublicSecret
new_public_secret s = record {
  kind = s.kind;
  metadata = s.metadata;
  spec = new_public_secret_spec s.spec;
}

unfoldable pub new_public_global_secret : GlobalSecret → PublicGlobalSecret
new_public_global_secret s = record {
  kind = s.kind;
  metadata = s.metadata;
  spec = new_public_secret_spec s.spec;
}
