-- ===== src/Crypto.antt =====
-- internal/api/crypto/crypto.go: how the texts of secrets are encrypted and decrypted. AES in its two
-- modes, base64 and the source of random bytes are parameters; a nonce is a number.
pub mod Roundtrip
pub mod Hiding
use Prim.Native.String.{len}
use perses.Prelude.{
  ℕ, String, Bool, true, false, not, ◌&&◌, ◌||◌, Option, none, some, eqb, leb, ltb, if◌then◌else◌,
}
use perses.Prelude.Result.{Result, ok, err, errorf, ◌>>=◌, ◌>>◌}
use perses.Model.Secret.{BasicAuth, Authorization, OAuth, TlsConfig, SecretSpec}

-- What crypto/aes, crypto/cipher and encoding/base64 give; `C` is the type of byte strings. A sealed
-- or encrypted text begins with its nonce; opening fails on a text that is not authentic.
pub record Cipher (C : Type 0) : Type 0 where
  pub new_gcm : Result (Unit {0})
  pub seal : ℕ → String → C
  pub open_sealed : C → Option String
  pub cfb_encrypt : ℕ → String → C
  pub cfb_decrypt : C → String
  pub size : C → ℕ
  pub nonce_size : ℕ
  pub block_size : ℕ
  pub encode : C → String
  pub decode : String → Result C

-- The calls of encrypt by Encrypt, each of which reads its own nonce.
pub data Field : Type 0 where
  password credentials client_id client_secret key : Field

abbrev opened : Option String → String
opened none = ""
opened (some text) = text

module _ {C : Type 0} (cipher : Cipher C) (using_authenticated_encryption : Bool) where
  unfoldable pub encrypt_gcm : Result ℕ → String → Result String
  encrypt_gcm random text = do
    cipher.new_gcm
    nonce ← random
    ok (cipher.encode (cipher.seal nonce text))

  unfoldable pub encrypt_cfb : Result ℕ → String → Result String
  encrypt_cfb random text = do iv ← random; ok (cipher.encode (cipher.cfb_encrypt iv text))

  unfoldable pub encrypt_text : Result ℕ → String → Result String
  encrypt_text random text =
      if eqb (len text) 0
      then ok ""
      else if using_authenticated_encryption
      then encrypt_gcm random text
      else encrypt_cfb random text

  unfoldable pub decrypt_gcm : C → Result String
  decrypt_gcm c = do
    cipher.new_gcm
    ok (if leb cipher.nonce_size (cipher.size c) then opened (cipher.open_sealed c) else "")

  unfoldable pub decrypt_cfb : C → Result String
  decrypt_cfb c =
      if ltb (cipher.size c) cipher.block_size
      then err (errorf "ciphertext too short")
      else ok (cipher.cfb_decrypt c)

  -- the plaintext of GCM, or the old format where that is empty
  unfoldable pub fall_back : C → String → Result (String × Bool)
  fall_back c plaintext =
      if eqb (len plaintext) 0
      then (decrypt_cfb c >>= λ legacy. ok (legacy, using_authenticated_encryption))
      else ok (plaintext, false)

  unfoldable pub decrypt_text : String → Result (String × Bool)
  decrypt_text text =
      if eqb (len text) 0
      then ok ("", false)
      else do c ← cipher.decode text; plaintext ← decrypt_gcm c; fall_back c plaintext

  module _ (random : Field → Result ℕ) where
    unfoldable pub encrypt_basic_auth : Option BasicAuth → Result (Option BasicAuth)
    encrypt_basic_auth none = ok none
    encrypt_basic_auth (some b) = do
      p ← encrypt_text (random password) b.password
      ok (some (record b { password = p }))

    unfoldable pub encrypt_authorization : Option Authorization → Result (Option Authorization)
    encrypt_authorization none = ok none
    encrypt_authorization (some a) = do
      c ← encrypt_text (random credentials) a.credentials
      ok (some (record a { credentials = c }))

    unfoldable pub encrypt_oauth : Option OAuth → Result (Option OAuth)
    encrypt_oauth none = ok none
    encrypt_oauth (some o) = do
      i ← encrypt_text (random client_id) o.client_id
      s ← encrypt_text (random client_secret) o.client_secret
      ok (some (record o { client_id = i; client_secret = s }))

    unfoldable pub encrypt_tls_config : Option TlsConfig → Result (Option TlsConfig)
    encrypt_tls_config none = ok none
    encrypt_tls_config (some t) = do
      k ← encrypt_text (random key) t.key
      ok (some (record t { key = k }))

    unfoldable pub encrypt : SecretSpec → Result SecretSpec
    encrypt s = do
      b ← encrypt_basic_auth s.basic_auth
      a ← encrypt_authorization s.authorization
      o ← encrypt_oauth s.oauth
      t ← encrypt_tls_config s.tls_config
      ok (record { basic_auth = b; authorization = a; oauth = o; tls_config = t })

  unfoldable pub decrypt_basic_auth : Option BasicAuth → Result (Option BasicAuth × Bool)
  decrypt_basic_auth none = ok (none, false)
  decrypt_basic_auth (some b) = do
    (p, legacy) ← decrypt_text b.password
    ok (some (record b { password = p }), legacy)

  unfoldable pub decrypt_authorization : Option Authorization → Result (Option Authorization × Bool)
  decrypt_authorization none = ok (none, false)
  decrypt_authorization (some a) = do
    (c, legacy) ← decrypt_text a.credentials
    ok (some (record a { credentials = c }), legacy)

  unfoldable pub decrypt_oauth : Option OAuth → Result (Option OAuth × Bool)
  decrypt_oauth none = ok (none, false)
  decrypt_oauth (some o) = do
    (i, legacy) ← decrypt_text o.client_id
    (s, also) ← decrypt_text o.client_secret
    ok (some (record o { client_id = i; client_secret = s }), legacy || also)

  unfoldable pub decrypt_tls_config : Option TlsConfig → Result (Option TlsConfig × Bool)
  decrypt_tls_config none = ok (none, false)
  decrypt_tls_config (some t) = do
    (k, legacy) ← decrypt_text t.key
    ok (some (record t { key = k }), legacy)

  -- Decrypt, with whether a text has to be encrypted again
  unfoldable pub decrypt : SecretSpec → Result (SecretSpec × Bool)
  decrypt s = do
    (b, first) ← decrypt_basic_auth s.basic_auth
    (a, second) ← decrypt_authorization s.authorization
    (o, third) ← decrypt_oauth s.oauth
    (t, fourth) ← decrypt_tls_config s.tls_config
    ok (
      record { basic_auth = b; authorization = a; oauth = o; tls_config = t },
      first || second || third || fourth,
    )
