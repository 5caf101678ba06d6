-- ===== src/Model/Secret/Hiding.antt =====
-- What is printed of a secret, and a secret without its hidden texts.
use Prim.Native.String.{len}
use perses.Prelude.{◌≡◌, refl, String, Option, none, some, eqb, if◌then◌else◌, inl, inr, Bool-cases}
use perses.Model.Secret.{
  BasicAuth, Authorization, OAuth, TlsConfig, SecretSpec, Hidden, marshal_hidden, PublicBasicAuth,
  PublicAuthorization, PublicOAuth, PublicTlsConfig, PublicSecretSpec, new_public_basic_auth,
  new_public_authorization, new_public_oauth, new_public_tls_config, new_public_secret_spec,
}

unfoldable pub redact_text : String → String
redact_text t = if eqb (len t) 0 then "" else "x"

unfoldable pub redact_basic_auth : Option BasicAuth → Option BasicAuth
redact_basic_auth none = none
redact_basic_auth (some b) = some (record b { password = redact_text b.password })

unfoldable pub redact_authorization : Option Authorization → Option Authorization
redact_authorization none = none
redact_authorization (some a) = some (record a { credentials = redact_text a.credentials })

unfoldable pub redact_oauth : Option OAuth → Option OAuth
redact_oauth none = none
redact_oauth (some o) =
    some (record o {
      client_id = redact_text o.client_id;
      client_secret = redact_text o.client_secret;
    })

unfoldable pub redact_tls_config : Option TlsConfig → Option TlsConfig
redact_tls_config none = none
redact_tls_config (some t) =
    some (record t { ca = redact_text t.ca; cert = redact_text t.cert; key = redact_text t.key })

-- The secret with every hidden text that is not empty replaced by the same one.
unfoldable pub redact : SecretSpec → SecretSpec
redact s = record {
  basic_auth = redact_basic_auth s.basic_auth;
  authorization = redact_authorization s.authorization;
  oauth = redact_oauth s.oauth;
  tls_config = redact_tls_config s.tls_config;
}

print_basic_auth : Option (PublicBasicAuth Hidden) → Option (PublicBasicAuth String)
print_basic_auth none = none
print_basic_auth (some b) = some (record {
  username = b.username;
  password = marshal_hidden b.password;
  password_file = b.password_file;
})

print_authorization : Option (PublicAuthorization Hidden) → Option (PublicAuthorization String)
print_authorization none = none
print_authorization (some a) = some (record {
  type_ = a.type_;
  credentials = marshal_hidden a.credentials;
  credentials_file = a.credentials_file;
})

print_oauth : Option (PublicOAuth Hidden) → Option (PublicOAuth String)
print_oauth none = none
print_oauth (some o) = some (record {
  client_id = marshal_hidden o.client_id;
  client_secret = marshal_hidden o.client_secret;
  client_secret_file = o.client_secret_file;
  token_url = o.token_url;
  scopes = o.scopes;
  endpoint_params = o.endpoint_params;
  auth_style = o.auth_style;
})

print_tls_config : Option (PublicTlsConfig Hidden) → Option (PublicTlsConfig String)
print_tls_config none = none
print_tls_config (some t) = some (record {
  ca = marshal_hidden t.ca;
  cert = marshal_hidden t.cert;
  key = marshal_hidden t.key;
  ca_file = t.ca_file;
  cert_file = t.cert_file;
  key_file = t.key_file;
  server_name = t.server_name;
  insecure_skip_verify = t.insecure_skip_verify;
  min_version = t.min_version;
  max_version = t.max_version;
})

-- The fields of a public secret as encoding/json prints them.
pub print : PublicSecretSpec Hidden → PublicSecretSpec String
print s = record {
  basic_auth = print_basic_auth s.basic_auth;
  authorization = print_authorization s.authorization;
  oauth = print_oauth s.oauth;
  tls_config = print_tls_config s.tls_config;
}

redact_text-marshal :
    (t : String)
    → marshal_hidden (record { text = redact_text t }) ≡ marshal_hidden (record { text = t })
unfolding redact_text marshal_hidden
redact_text-marshal t = elim (Bool-cases (eqb (len t) 0)) [ inl z ↦ rw z refl | inr z ↦ rw z refl ]

print_basic_auth-redact :
    (o : Option BasicAuth)
    → print_basic_auth (new_public_basic_auth (redact_basic_auth o))
      ≡ print_basic_auth (new_public_basic_auth o)
unfolding print_basic_auth new_public_basic_auth redact_basic_auth
print_basic_auth-redact none = refl
print_basic_auth-redact (some b) = rw (redact_text-marshal b.password) refl

print_authorization-redact :
    (o : Option Authorization)
    → print_authorization (new_public_authorization (redact_authorization o))
      ≡ print_authorization (new_public_authorization o)
unfolding print_authorization new_public_authorization redact_authorization
print_authorization-redact none = refl
print_authorization-redact (some a) = rw (redact_text-marshal a.credentials) refl

print_oauth-redact :
    (o : Option OAuth)
    → print_oauth (new_public_oauth (redact_oauth o)) ≡ print_oauth (new_public_oauth o)
unfolding print_oauth new_public_oauth redact_oauth
print_oauth-redact none = refl
print_oauth-redact (some o) =
    rw (redact_text-marshal o.client_id, redact_text-marshal o.client_secret) refl

print_tls_config-redact :
    (o : Option TlsConfig)
    → print_tls_config (new_public_tls_config (redact_tls_config o))
      ≡ print_tls_config (new_public_tls_config o)
unfolding print_tls_config new_public_tls_config redact_tls_config
print_tls_config-redact none = refl
print_tls_config-redact (some t) =
    rw (redact_text-marshal t.ca, redact_text-marshal t.cert, redact_text-marshal t.key) refl

pub print-redact :
    (s : SecretSpec) → print (new_public_secret_spec (redact s)) ≡ print (new_public_secret_spec s)
unfolding print new_public_secret_spec redact
print-redact s =
    rw
      (
        print_basic_auth-redact s.basic_auth,
        print_authorization-redact s.authorization,
        print_oauth-redact s.oauth,
        print_tls_config-redact s.tls_config,
      )
      refl
