-- ===== src/Sender/Secure.antt =====
-- `NewSecureHTTPSender` of pkg/sender/http_sender.go. The configuration of TLS is that of the
-- client's transport; without one, the client uses the default transport.
use tailpost.Base.{
  Bool, true, false, not, [], Option, none, some, bytes, eqs, ◌≡◌, arith, if◌then◌else◌, Result, ok,
  err, ◌>>=◌,
}
use tailpost.Base.Int.{ℤ, pos, negsuc}
use tailpost.Config.{TlsConfig, AuthConfig, EncryptionConfig, Config}
use tailpost.Security.Auth.{AuthProvider, AuthError, new_auth_provider}
use tailpost.Security.Encryption.{
  Ciphers, Env, EncryptionProvider, EncryptionError, new_encryption_provider, with_key,
}
use tailpost.Security.Tls.{TlsEnv, Tls, TlsError, create_tls_config}
use tailpost.Sender.{Sender}

-- `panicked`: `make([]string, 0, size)` with a negative size.
pub data SecureError : Type 0 where
  panicked : SecureError
  creating_tls_config : TlsError → SecureError
  creating_auth_provider : AuthError → SecureError
  creating_encryption_provider : EncryptionError → SecureError

abbrev pub is_negative : ℤ → Bool
is_negative (pos n) = false
is_negative (negsuc n) = true

abbrev pub is_some {ℓ} : {A : Type ℓ} → Option A → Bool
is_some none = false
is_some (some x) = true

module _ (tls_env : TlsEnv) (ciphers : Ciphers) (env : Env) where
  pub record SecureSender : Type 0 where
    pub base : Sender
    pub client_tls : Option (Tls tls_env)
    pub auth_provider : Option AuthProvider
    pub encryption_provider : Option EncryptionProvider

  -- The three optional parts, each made under the test of the source.
  unfoldable pub client_tls_of : TlsConfig → Result SecureError (Option (Tls tls_env))
  client_tls_of c =
      if c.enabled
      then elim (create_tls_config tls_env c) [ err e ↦ err (creating_tls_config e) | ok t ↦ ok t ]
      else ok none

  unfoldable pub auth_provider_of : AuthConfig → Result SecureError (Option AuthProvider)
  auth_provider_of c =
      if not (eqs c.type "none")
      then elim (new_auth_provider env.read_file c) [
        | err e ↦ err (creating_auth_provider e)
        | ok p ↦ ok p
      ]
      else ok none

  unfoldable pub encryption_provider_of :
      EncryptionConfig → Result SecureError (Option EncryptionProvider)
  encryption_provider_of c =
      if c.enabled
      then elim (new_encryption_provider ciphers env c) [
        | err e ↦ err (creating_encryption_provider e)
        | ok p ↦ ok p
      ]
      else ok none

  -- The fields that are set before the parts are made; neither size nor interval is defaulted.
  abbrev base_of : Config → Sender
  base_of c = record {
    server_url = bytes c.server_url;
    batch_size = c.batch_size;
    flush_interval = c.flush_interval;
    batch = [];
    dispatched = [];
    stop_closed = false;
    loop_flushed = false;
    stopped_closed = false;
  }

  -- `NewSecureHTTPSender`.
  unfoldable pub new_secure_http_sender : Config → Result SecureError SecureSender
  new_secure_http_sender c = if is_negative c.batch_size then err panicked else do
    t ← client_tls_of c.security.tls
    a ← auth_provider_of c.security.auth
    e ← encryption_provider_of c.security.encryption
    ok (record { base = base_of c; client_tls = t; auth_provider = a; encryption_provider = e })

  tls_made_iff :
      (c : TlsConfig) (o : Option (Tls tls_env)) → client_tls_of c ≡ ok o → is_some o ≡ c.enabled
  unfolding client_tls_of create_tls_config
  tls_made_iff c o h = ground arith

  auth_made_iff :
      (c : AuthConfig) (o : Option AuthProvider)
      → auth_provider_of c ≡ ok o
      → is_some o ≡ not (eqs c.type "none")
  unfolding auth_provider_of new_auth_provider
  auth_made_iff c o h = ground arith

  encryption_made_iff :
      (c : EncryptionConfig) (o : Option EncryptionProvider)
      → encryption_provider_of c ≡ ok o
      → is_some o ≡ c.enabled
  unfolding encryption_provider_of new_encryption_provider with_key
  encryption_made_iff c o h = ground arith

  -- A sender with security features that is made has each part exactly if the configuration asks for
  -- it: it never falls back to plain text, to no authentication or to the default transport.
  pub new_secure_http_sender_parts :
      (c : Config) (s : SecureSender)
      → new_secure_http_sender c ≡ ok s
      → (is_some s.client_tls ≡ c.security.tls.enabled)
        × (is_some s.auth_provider ≡ not (eqs c.security.auth.type "none"))
        × (is_some s.encryption_provider ≡ c.security.encryption.enabled)
  unfolding new_secure_http_sender
  new_secure_http_sender_parts c s h = ground (
    arith,
    tls_made_iff c.security.tls s.client_tls,
    auth_made_iff c.security.auth s.auth_provider,
    encryption_made_iff c.security.encryption s.encryption_provider,
  )
