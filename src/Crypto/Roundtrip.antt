-- ===== src/Crypto/Roundtrip.antt =====
-- What was encrypted in one mode is decrypted in either, and the old format is recognised.
use Prim.Native.String.{len}
use perses.Prelude.{
  ℕ, ◌≡◌, refl, sym, ◌∙◌, subst, ◌<◌, String, Bool, true, false, not, ◌&&◌, ◌||◌, Option, none,
  some, eqb, leb, ltb, arith, inl, inr, Bool-cases, string_eq,
}
use perses.Prelude.Text.{empty_text}
use perses.Prelude.Result.{Result, ok, >>=-eq-ok, >>-eq-ok}
use perses.Model.Secret.{BasicAuth, Authorization, OAuth, TlsConfig, SecretSpec}
use perses.Toolbox.Binding.{ok_inj}
use perses.Crypto.{
  Cipher, Field, password, credentials, client_id, client_secret, key, encrypt_gcm, encrypt_cfb,
  encrypt_text, decrypt_gcm, decrypt_cfb, fall_back, decrypt_text, encrypt_basic_auth,
  encrypt_authorization, encrypt_oauth, encrypt_tls_config, encrypt, decrypt_basic_auth,
  decrypt_authorization, decrypt_oauth, decrypt_tls_config, decrypt,
}

-- base64 and AES give back what they were given; a text of CFB is not authentic for GCM.
pub record IsCipher {C : Type 0} (cipher : Cipher C) : Type 0 where
  pub gcm_exists : cipher.new_gcm ≡ ok tt
  pub decodes : (c : C) → cipher.decode (cipher.encode c) ≡ ok c
  pub encodes : (c : C) → 0 < cipher.size c → 0 < len (cipher.encode c)
  pub opens : (n : ℕ) (t : String) → cipher.open_sealed (cipher.seal n t) ≡ some t
  pub sealed_size :
      (n : ℕ) (t : String) → leb cipher.nonce_size (cipher.size (cipher.seal n t)) ≡ true
  pub sealed_some : (n : ℕ) (t : String) → 0 < cipher.size (cipher.seal n t)
  pub rejects : (n : ℕ) (t : String) → cipher.open_sealed (cipher.cfb_encrypt n t) ≡ none
  pub deciphers : (n : ℕ) (t : String) → cipher.cfb_decrypt (cipher.cfb_encrypt n t) ≡ t
  pub cfb_size :
      (n : ℕ) (t : String) → ltb (cipher.size (cipher.cfb_encrypt n t)) cipher.block_size ≡ false
  pub cfb_some : (n : ℕ) (t : String) → 0 < cipher.size (cipher.cfb_encrypt n t)

abbrev is_secret : String → Bool
is_secret t = not (eqb (len t) 0)

abbrev basic_auth_secret : Option BasicAuth → Bool
basic_auth_secret none = false
basic_auth_secret (some b) = is_secret b.password

abbrev authorization_secret : Option Authorization → Bool
authorization_secret none = false
authorization_secret (some a) = is_secret a.credentials

abbrev oauth_secret : Option OAuth → Bool
oauth_secret none = false
oauth_secret (some o) = is_secret o.client_id || is_secret o.client_secret

abbrev tls_config_secret : Option TlsConfig → Bool
tls_config_secret none = false
tls_config_secret (some t) = is_secret t.key

-- Some text of the secret is encrypted.
abbrev pub has_secret : SecretSpec → Bool
has_secret s =
    basic_auth_secret s.basic_auth
    || authorization_secret s.authorization
    || oauth_secret s.oauth
    || tls_config_secret s.tls_config

-- the old format, where the new one is in use
abbrev pub is_legacy : Bool → Bool → Bool
is_legacy wrote reads = reads && not wrote

module _ {C : Type 0} (cipher : Cipher C) (law : IsCipher cipher) (wrote reads : Bool) where
  sealed :
      (n : ℕ) (t : String)
      → eqb (len t) 0 ≡ false
      → decrypt_text cipher reads (cipher.encode (cipher.seal n t)) ≡ ok (t, false)
  unfolding decrypt_text decrypt_gcm fall_back
  sealed n t h = ground (
    arith,
    law.gcm_exists,
    law.decodes (cipher.seal n t),
    law.encodes (cipher.seal n t) (law.sealed_some n t),
    law.opens n t,
    law.sealed_size n t,
  )

  rejected : (n : ℕ) (t : String) → decrypt_gcm cipher reads (cipher.cfb_encrypt n t) ≡ ok ""
  unfolding decrypt_gcm
  rejected n t = elim (Bool-cases (leb cipher.nonce_size (cipher.size (cipher.cfb_encrypt n t)))) [
    | inl b ↦ rw (law.gcm_exists, b, law.rejects n t) refl
    | inr b ↦ rw (law.gcm_exists, b) refl
  ]

  ciphered :
      (n : ℕ) (t : String)
      → decrypt_text cipher reads (cipher.encode (cipher.cfb_encrypt n t)) ≡ ok (t, reads)
  unfolding decrypt_text decrypt_cfb fall_back
  ciphered n t =
      let b : eqb (len (cipher.encode (cipher.cfb_encrypt n t))) 0 ≡ false =
        ground (arith, law.encodes (cipher.cfb_encrypt n t) (law.cfb_some n t)) in
      rw
        (b, law.decodes (cipher.cfb_encrypt n t), rejected n t, law.cfb_size n t, law.deciphers n t)
        refl

  none_read : decrypt_text cipher reads "" ≡ ok ("", false)
  unfolding decrypt_text
  none_read = refl

  pub decrypt_text-encrypt_text :
      (random : Result ℕ) (t e : String)
      → encrypt_text cipher wrote random t ≡ ok e
      → decrypt_text cipher reads e ≡ ok (t, is_legacy wrote reads && is_secret t)
  unfolding encrypt_text encrypt_gcm encrypt_cfb
  decrypt_text-encrypt_text random t e h = elim (Bool-cases (eqb (len t) 0)) [
    | inl z ↦
        subst (λ x. decrypt_text cipher reads x ≡ ok (t, is_legacy wrote reads && is_secret t))
          (ok_inj "" e (rw (z, encrypt_text) at h)) (nothing z)
    | inr z ↦ elim (Bool-cases wrote) [
      | inl w ↦
          let g : encrypt_gcm cipher wrote random t ≡ ok e = rw (z, w, encrypt_text) at h in
          let (n, r, q) = >>=-eq-ok random _ (>>-eq-ok cipher.new_gcm _ g).1 in
          subst (λ x. decrypt_text cipher reads x ≡ ok (t, is_legacy wrote reads && is_secret t))
            (ok_inj _ e q) (rw (w, z) (sealed n t z ∙ ground arith))
      | inr w ↦
          let g : encrypt_cfb cipher wrote random t ≡ ok e = rw (z, w, encrypt_text) at h in
          let (n, r, q) = >>=-eq-ok random _ g in
          subst (λ x. decrypt_text cipher reads x ≡ ok (t, is_legacy wrote reads && is_secret t))
            (ok_inj _ e q) (rw (w, z) (ciphered n t ∙ ground arith))
    ]
  ]
    where
      nothing :
          eqb (len t) 0 ≡ true
          → decrypt_text cipher reads "" ≡ ok (t, is_legacy wrote reads && is_secret t)
      nothing z = rw (empty_text t z) (none_read ∙ ground arith)

  module _ (random : Field → Result ℕ) where
    basic_auth_back :
        (o e : Option BasicAuth)
        → encrypt_basic_auth cipher wrote random o ≡ ok e
        → decrypt_basic_auth cipher reads e ≡ ok (o, is_legacy wrote reads && basic_auth_secret o)
    unfolding encrypt_basic_auth decrypt_basic_auth
    basic_auth_back none e h = rw (sym (ok_inj none e h)) (ground arith)
    basic_auth_back (some b) e h =
        let (p, q, k) = >>=-eq-ok (encrypt_text cipher wrote (random password) b.password) _ h in
        rw (sym (ok_inj _ e k), decrypt_text-encrypt_text (random password) b.password p q) refl

    authorization_back :
        (o e : Option Authorization)
        → encrypt_authorization cipher wrote random o ≡ ok e
        → decrypt_authorization cipher reads e
          ≡ ok (o, is_legacy wrote reads && authorization_secret o)
    unfolding encrypt_authorization decrypt_authorization
    authorization_back none e h = rw (sym (ok_inj none e h)) (ground arith)
    authorization_back (some a) e h =
        let (p, q, k) =
          >>=-eq-ok (encrypt_text cipher wrote (random credentials) a.credentials) _ h in
        rw (sym (ok_inj _ e k), decrypt_text-encrypt_text (random credentials) a.credentials p q)
          refl

    oauth_back :
        (o e : Option OAuth)
        → encrypt_oauth cipher wrote random o ≡ ok e
        → decrypt_oauth cipher reads e ≡ ok (o, is_legacy wrote reads && oauth_secret o)
    unfolding encrypt_oauth decrypt_oauth
    oauth_back none e h = rw (sym (ok_inj none e h)) (ground arith)
    oauth_back (some a) e h =
        let (i, q, k) = >>=-eq-ok (encrypt_text cipher wrote (random client_id) a.client_id) _ h in
        let (s, r, l) =
          >>=-eq-ok (encrypt_text cipher wrote (random client_secret) a.client_secret) _ k in
        rw
          (
            sym (ok_inj _ e l),
            decrypt_text-encrypt_text (random client_id) a.client_id i q,
            decrypt_text-encrypt_text (random client_secret) a.client_secret s r,
          )
          (ground arith)

    tls_config_back :
        (o e : Option TlsConfig)
        → encrypt_tls_config cipher wrote random o ≡ ok e
        → decrypt_tls_config cipher reads e ≡ ok (o, is_legacy wrote reads && tls_config_secret o)
    unfolding encrypt_tls_config decrypt_tls_config
    tls_config_back none e h = rw (sym (ok_inj none e h)) (ground arith)
    tls_config_back (some a) e h =
        let (p, q, k) = >>=-eq-ok (encrypt_text cipher wrote (random key) a.key) _ h in
        rw (sym (ok_inj _ e k), decrypt_text-encrypt_text (random key) a.key p q) refl

    -- Decrypting an encrypted secret gives it back, in whichever of its two formats it was written,
    -- and asks for a new encryption exactly when some text of it was written in the old format while
    -- the new one is in use. AES and base64 are lawful.
    pub decrypt-encrypt :
        (s e : SecretSpec)
        → encrypt cipher wrote random s ≡ ok e
        → decrypt cipher reads e ≡ ok (s, is_legacy wrote reads && has_secret s)
    unfolding encrypt decrypt
    decrypt-encrypt s e h =
        let (b, q1, h1) = >>=-eq-ok (encrypt_basic_auth cipher wrote random s.basic_auth) _ h in
        let (a, q2, h2) =
          >>=-eq-ok (encrypt_authorization cipher wrote random s.authorization) _ h1 in
        let (o, q3, h3) = >>=-eq-ok (encrypt_oauth cipher wrote random s.oauth) _ h2 in
        let (t, q4, h4) = >>=-eq-ok (encrypt_tls_config cipher wrote random s.tls_config) _ h3 in
        rw
          (
            sym (ok_inj _ e h4),
            basic_auth_back s.basic_auth b q1,
            authorization_back s.authorization a q2,
            oauth_back s.oauth o q3,
            tls_config_back s.tls_config t q4,
          )
          (ground arith)
