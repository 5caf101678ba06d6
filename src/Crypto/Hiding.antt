-- ===== src/Crypto/Hiding.antt =====
-- What the API prints of an encrypted secret depends on none of its texts.
use Prim.Native.String.{len}
use perses.Prelude.{
  ℕ, ◌≡◌, refl, sym, ◌∙◌, ap, String, Bool, false, Option, none, some, eqb, arith, inl, inr,
  Bool-cases,
}
use perses.Prelude.Result.{Result, ok, >>=-eq-ok, >>-eq-ok}
use perses.Model.Secret.{
  BasicAuth, Authorization, OAuth, TlsConfig, SecretSpec, new_public_secret_spec,
}
use perses.Model.Secret.Hiding.{
  redact_text, redact_basic_auth, redact_authorization, redact_oauth, redact_tls_config, redact,
  print, print-redact,
}
use perses.Toolbox.Binding.{ok_inj}
use perses.Crypto.{
  Cipher, Field, password, credentials, client_id, client_secret, key, encrypt_gcm, encrypt_cfb,
  encrypt_text, encrypt_basic_auth, encrypt_authorization, encrypt_oauth, encrypt_tls_config,
  encrypt,
}
use perses.Crypto.Roundtrip.{IsCipher}

module _ {C : Type 0} (cipher : Cipher C) (law : IsCipher cipher) (authenticated : Bool) where
  redact_text-encrypt_text :
      (random : Result ℕ) (t e : String)
      → encrypt_text cipher authenticated random t ≡ ok e
      → redact_text e ≡ redact_text t
  unfolding encrypt_text encrypt_gcm encrypt_cfb redact_text
  redact_text-encrypt_text random t e h = elim (Bool-cases (eqb (len t) 0)) [
    | inl z ↦ rw (z, sym (ok_inj "" e (rw (z, encrypt_text) at h))) refl
    | inr z ↦ elim (Bool-cases authenticated) [
      | inl w ↦
          let g : encrypt_gcm cipher authenticated random t ≡ ok e = rw (z, w, encrypt_text) at h in
          let (n, r, q) = >>=-eq-ok random _ (>>-eq-ok cipher.new_gcm _ g).1 in
          let long : eqb (len (cipher.encode (cipher.seal n t))) 0 ≡ false =
            ground (arith, law.encodes (cipher.seal n t) (law.sealed_some n t)) in
          rw (z, sym (ok_inj _ e q), long) refl
      | inr w ↦
          let g : encrypt_cfb cipher authenticated random t ≡ ok e = rw (z, w, encrypt_text) at h in
          let (n, r, q) = >>=-eq-ok random _ g in
          let long : eqb (len (cipher.encode (cipher.cfb_encrypt n t))) 0 ≡ false =
            ground (arith, law.encodes (cipher.cfb_encrypt n t) (law.cfb_some n t)) in
          rw (z, sym (ok_inj _ e q), long) refl
    ]
  ]

  module _ (random : Field → Result ℕ) where
    basic_auth_hidden :
        (o e : Option BasicAuth)
        → encrypt_basic_auth cipher authenticated random o ≡ ok e
        → redact_basic_auth e ≡ redact_basic_auth o
    unfolding encrypt_basic_auth redact_basic_auth
    basic_auth_hidden none e h = rw (sym (ok_inj none e h)) refl
    basic_auth_hidden (some b) e h =
        let (p, q, k) =
          >>=-eq-ok (encrypt_text cipher authenticated (random password) b.password) _ h in
        rw (sym (ok_inj _ e k), redact_text-encrypt_text (random password) b.password p q) refl

    authorization_hidden :
        (o e : Option Authorization)
        → encrypt_authorization cipher authenticated random o ≡ ok e
        → redact_authorization e ≡ redact_authorization o
    unfolding encrypt_authorization redact_authorization
    authorization_hidden none e h = rw (sym (ok_inj none e h)) refl
    authorization_hidden (some a) e h =
        let (c, q, k) =
          >>=-eq-ok (encrypt_text cipher authenticated (random credentials) a.credentials) _ h in
        rw (sym (ok_inj _ e k), redact_text-encrypt_text (random credentials) a.credentials c q)
          refl

    oauth_hidden :
        (o e : Option OAuth)
        → encrypt_oauth cipher authenticated random o ≡ ok e
        → redact_oauth e ≡ redact_oauth o
    unfolding encrypt_oauth redact_oauth
    oauth_hidden none e h = rw (sym (ok_inj none e h)) refl
    oauth_hidden (some o) e h =
        let (i, q, k) =
          >>=-eq-ok (encrypt_text cipher authenticated (random client_id) o.client_id) _ h in
        let (s, r, l) =
          >>=-eq-ok (encrypt_text cipher authenticated (random client_secret) o.client_secret) _
            k in
        rw
          (
            sym (ok_inj _ e l),
            redact_text-encrypt_text (random client_id) o.client_id i q,
            redact_text-encrypt_text (random client_secret) o.client_secret s r,
          )
          refl

    tls_config_hidden :
        (o e : Option TlsConfig)
        → encrypt_tls_config cipher authenticated random o ≡ ok e
        → redact_tls_config e ≡ redact_tls_config o
    unfolding encrypt_tls_config redact_tls_config
    tls_config_hidden none e h = rw (sym (ok_inj none e h)) refl
    tls_config_hidden (some t) e h =
        let (x, q, k) = >>=-eq-ok (encrypt_text cipher authenticated (random key) t.key) _ h in
        rw (sym (ok_inj _ e k), redact_text-encrypt_text (random key) t.key x q) refl

    pub redact-encrypt :
        (s e : SecretSpec) → encrypt cipher authenticated random s ≡ ok e → redact e ≡ redact s
    unfolding encrypt redact
    redact-encrypt s e h =
        let (b, q1, h1) =
          >>=-eq-ok (encrypt_basic_auth cipher authenticated random s.basic_auth) _ h in
        let (a, q2, h2) =
          >>=-eq-ok (encrypt_authorization cipher authenticated random s.authorization) _ h1 in
        let (o, q3, h3) = >>=-eq-ok (encrypt_oauth cipher authenticated random s.oauth) _ h2 in
        let (t, q4, h4) =
          >>=-eq-ok (encrypt_tls_config cipher authenticated random s.tls_config) _ h3 in
        rw
          (
            sym (ok_inj _ e h4),
            basic_auth_hidden s.basic_auth b q1,
            authorization_hidden s.authorization a q2,
            oauth_hidden s.oauth o q3,
            tls_config_hidden s.tls_config t q4,
          )
          refl

    -- What is printed of an encrypted secret is what would be printed of the request with all its
    -- hidden texts replaced by one and the same: neither the texts nor their encryption show.
    pub print-encrypt :
        (s e : SecretSpec)
        → encrypt cipher authenticated random s ≡ ok e
        → print (new_public_secret_spec e) ≡ print (new_public_secret_spec (redact s))
    print-encrypt s e h =
        sym (print-redact e) ∙ ap (λ x. print (new_public_secret_spec x)) (redact-encrypt s e h)
