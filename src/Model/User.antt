-- ===== src/Model/User.antt =====
-- pkg/model/api/v1/user.go
use perses.Prelude.{String, List, ◌==◌, string_eq, not, if◌then◌else◌}
use perses.Prelude.Result.{Result, ok, err, errorf}
use perses.Model.Unmarshal.{unmarshal}
use perses.Model.Kind.{Kind}
use perses.Model.Metadata.{Metadata}
use perses.Model.Secret.{Hidden}

abbrev pub wildcard_project : String
wildcard_project = "*"

pub record NativeProvider : Type 0 where
  pub password : String

pub record OauthProvider : Type 0 where
  pub issuer : String
  pub email : String
  pub subject : String

pub record UserSpec : Type 0 where
  pub first_name : String
  pub last_name : String
  pub native_provider : NativeProvider
  pub oauth_providers : List OauthProvider

pub record User : Type 0 where
  pub kind : Kind
  pub metadata : Metadata
  pub spec : UserSpec

unfoldable pub validate : User → Result User
validate u = if not (u.kind == "User") then err (errorf "invalid kind for a User type") else ok u

unfoldable pub unmarshal_user : Result User → User → Result (Unit {0}) × User
unmarshal_user = unmarshal validate

-- pkg/model/api/v1/public_user.go, with PublicMetadata and PublicNativeProvider by their fields
pub record PublicUserSpec : Type 0 where
  pub first_name : String
  pub last_name : String
  pub password : Hidden
  pub oauth_providers : List OauthProvider

pub record PublicUser : Type 0 where
  pub kind : Kind
  pub metadata : Metadata
  pub spec : PublicUserSpec

unfoldable pub new_public_user : User → PublicUser
new_public_user u = record {
  kind = u.kind;
  metadata = u.metadata;
  spec = record {
    first_name = u.spec.first_name;
    last_name = u.spec.last_name;
    password = record { text = u.spec.native_provider.password };
    oauth_providers = u.spec.oauth_providers;
  };
}
