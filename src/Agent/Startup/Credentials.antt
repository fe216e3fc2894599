-- ===== src/Agent/Startup/Credentials.antt =====
-- The providers that `NewAuthProvider` of pkg/security/auth.go and the constructors that call it make,
-- beside a list of what each type of the configuration asks for.
use tailpost.Base.{
  true, Option, none, some, String, Bytes, bytes, map, eqs, ◌≡◌, refl, arith, Result, ok, false,
  subst, sym,
}
use tailpost.Config.{AuthConfig, SecurityConfig, TlsConfig, EncryptionConfig, Config}
use tailpost.Security.Auth.{
  ReadFile, AuthProvider, basic, token, oauth2, header, new_auth_provider, new_token_auth_provider,
  byte_pair,
}
use tailpost.Security.Text.{trim_space}
use tailpost.Security.Encryption.{Ciphers, Env, EncryptionProvider, new_encryption_provider}
use tailpost.Security.Tls.{TlsEnv, Tls, create_tls_config}
use tailpost.Sender.Secure.{
  SecureSender, client_tls_of, auth_provider_of, encryption_provider_of, new_secure_http_sender,
}
use tailpost.Health.{HealthServer, new_health_server, new_secure_health_server, with_provider}

-- The provider that the configuration names, with its credentials.
pub record IsConfigured (read_file : ReadFile) (c : AuthConfig) (o : Option AuthProvider)
    : Type 0 where
  pub no_provider : c.type ≡ "none" → o ≡ none
  pub pair : c.type ≡ "basic" → o ≡ some (basic (bytes c.username) (bytes c.password))
  pub from_file :
      c.type ≡ "token"
      → (text : Bytes) × (read_file c.token_file ≡ some text) × (o ≡ some (token (trim_space text)))
  pub client :
      c.type ≡ "oauth2"
      → o
        ≡ some (
            oauth2 (record {
              client_id = c.client_id;
              client_secret = c.client_secret;
              token_url = c.token_url;
              scopes = c.scopes;
            }))
  pub fields : c.type ≡ "header" → o ≡ some (header (map byte_pair c.headers))

ok_value : {E A : Type 0} (x y : A) (r : Result E A) → r ≡ ok x → r ≡ ok y → y ≡ x
ok_value x y r h k = cc

module _ (read_file : ReadFile) (c : AuthConfig) (o : Option AuthProvider)
    (made : new_auth_provider read_file c ≡ ok o) where
  token_made :
      c.type ≡ "token"
      → (text : Bytes) × (read_file c.token_file ≡ some text) × (o ≡ some (token (trim_space text)))
  unfolding new_auth_provider new_token_auth_provider
  token_made e = go (read_file c.token_file) refl
    where
      go :
          (f : Option Bytes)
          → read_file c.token_file ≡ f
          → (text : Bytes) × (read_file c.token_file ≡ some text)
            × (o ≡ some (token (trim_space text)))
      go none q = absurd (let k = rw (e, new_token_auth_provider, q) at made in cc)
      go (some text) q = (text, q, (let k = rw (e, new_token_auth_provider, q) at made in cc))

  pub new_auth_provider-IsConfigured : IsConfigured read_file c o
  unfolding new_auth_provider
  new_auth_provider-IsConfigured = record {
    no_provider = λ e. (let k = rw e at made in cc);
    pair = λ e. (let k = rw e at made in cc);
    from_file = token_made;
    client = λ e. (let k = rw e at made in cc);
    fields = λ e. (let k = rw e at made in cc);
  }

without_provider :
    (read_file : ReadFile) (c : AuthConfig)
    → eqs c.type "none" ≡ true
    → IsConfigured read_file c none
unfolding new_auth_provider
without_provider read_file c e = new_auth_provider-IsConfigured read_file c none (rw e refl)

-- What a sender with security features takes from its configuration.
pub record IsSecured (tls_env : TlsEnv) (ciphers : Ciphers) (env : Env) (c : Config)
    (s : SecureSender tls_env ciphers env) : Type 0 where
  pub url : s.base.server_url ≡ bytes c.server_url
  pub credentials : IsConfigured env.read_file c.security.auth s.auth_provider
  pub transport :
      c.security.tls.enabled ≡ true → create_tls_config tls_env c.security.tls ≡ ok s.client_tls
  pub key :
      c.security.encryption.enabled ≡ true
      → new_encryption_provider ciphers env c.security.encryption ≡ ok s.encryption_provider

module _ (tls_env : TlsEnv) (ciphers : Ciphers) (env : Env) where
  asked_provider :
      (c : AuthConfig) (o : Option AuthProvider)
      → auth_provider_of tls_env ciphers env c ≡ ok o
      → new_auth_provider env.read_file c ≡ ok o
  unfolding auth_provider_of new_auth_provider
  asked_provider c o h = ground arith

  asked_transport :
      (c : TlsConfig) (o : Option (Tls tls_env))
      → client_tls_of tls_env ciphers env c ≡ ok o
      → c.enabled ≡ true
      → create_tls_config tls_env c ≡ ok o
  unfolding client_tls_of
  asked_transport c o h e = ground arith

  asked_key :
      (c : EncryptionConfig) (o : Option EncryptionProvider)
      → encryption_provider_of tls_env ciphers env c ≡ ok o
      → c.enabled ≡ true
      → new_encryption_provider ciphers env c ≡ ok o
  unfolding encryption_provider_of
  asked_key c o h e = ground arith

  -- The parts of a sender that was made.
  secure_parts :
      (c : Config) (s : SecureSender tls_env ciphers env)
      → new_secure_http_sender tls_env ciphers env c ≡ ok s
      → (s.base.server_url ≡ bytes c.server_url)
        × (auth_provider_of tls_env ciphers env c.security.auth ≡ ok s.auth_provider)
        × (client_tls_of tls_env ciphers env c.security.tls ≡ ok s.client_tls)
        × (encryption_provider_of tls_env ciphers env c.security.encryption
            ≡ ok s.encryption_provider)
  unfolding new_secure_http_sender
  secure_parts c s h = ground arith

  pub new_secure_http_sender-IsSecured :
      (c : Config) (s : SecureSender tls_env ciphers env)
      → new_secure_http_sender tls_env ciphers env c ≡ ok s
      → IsSecured tls_env ciphers env c s
  new_secure_http_sender-IsSecured c s h =
      let (url, auth, transport, key) = secure_parts c s h in
      record {
        url = url;
        credentials =
            new_auth_provider-IsConfigured env.read_file c.security.auth s.auth_provider
              (asked_provider c.security.auth s.auth_provider auth);
        transport = asked_transport c.security.tls s.client_tls transport;
        key = asked_key c.security.encryption s.encryption_provider key;
      }

-- What the health server takes from the configuration.
pub record IsGuarded (read_file : ReadFile) (addr : String) (c : SecurityConfig) (v : HealthServer)
    : Type 0 where
  pub address : v.listen_addr ≡ addr
  pub credentials : IsConfigured read_file c.auth v.auth_provider
  pub certificate :
      c.tls.enabled ≡ true
      → (v.use_tls ≡ true) × (v.cert_file ≡ c.tls.cert_file) × (v.key_file ≡ c.tls.key_file)

health_parts :
    (read_file : ReadFile) (addr : String) (c : SecurityConfig) (v : HealthServer)
    → new_secure_health_server read_file addr c ≡ ok v
    → (v.listen_addr ≡ addr)
      × (new_auth_provider read_file c.auth ≡ ok v.auth_provider)
      × (c.tls.enabled ≡ true
          → (v.use_tls ≡ true) × (v.cert_file ≡ c.tls.cert_file) × (v.key_file ≡ c.tls.key_file))
unfolding new_secure_health_server with_provider new_auth_provider
health_parts read_file addr c v h = (ground arith, ground arith, λ e. ground arith)

pub new_secure_health_server-IsGuarded :
    (read_file : ReadFile) (addr : String) (c : SecurityConfig) (v : HealthServer)
    → new_secure_health_server read_file addr c ≡ ok v
    → IsGuarded read_file addr c v
new_secure_health_server-IsGuarded read_file addr c v h =
    let (address, auth, certificate) = health_parts read_file addr c v h in
    record {
      address = address;
      credentials = new_auth_provider-IsConfigured read_file c.auth v.auth_provider auth;
      certificate = certificate;
    }

-- Without authentication, TLS and encryption, the plain parts are what is configured.
pub plain-IsSecured :
    (tls_env : TlsEnv) (ciphers : Ciphers) (env : Env) (c : Config)
    (s : SecureSender tls_env ciphers env)
    → eqs c.security.auth.type "none" ≡ true
    → c.security.tls.enabled ≡ false
    → c.security.encryption.enabled ≡ false
    → s.base.server_url ≡ bytes c.server_url
    → s.auth_provider ≡ none
    → IsSecured tls_env ciphers env c s
plain-IsSecured tls_env ciphers env c s a t k url no_auth = record {
  url = url;
  credentials =
      subst (λ (o : Option AuthProvider). IsConfigured env.read_file c.security.auth o)
        (sym no_auth) (without_provider env.read_file c.security.auth a);
  transport = λ e. absurd (cc);
  key = λ e. absurd (cc);
}

pub plain-IsGuarded :
    (read_file : ReadFile) (addr : String) (c : SecurityConfig)
    → eqs c.auth.type "none" ≡ true
    → c.tls.enabled ≡ false
    → IsGuarded read_file addr c (new_health_server addr)
unfolding new_health_server
plain-IsGuarded read_file addr c a t = record {
  address = refl;
  credentials = without_provider read_file c.auth a;
  certificate = λ e. absurd (cc);
}
