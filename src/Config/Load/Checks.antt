-- ===== src/Config/Load/Checks.antt =====
-- What each check of `LoadConfig` establishes.
use tailpost.Base.{
  true, false, [], String, eqs, eq_iff, ◌≡◌, ◌≢◌, ◌⊎◌, inl, inr, arith, ok, Bool-cases,
}
use tailpost.Base.Int.{is_zero}
use tailpost.Config.{
  TlsConfig, AuthConfig, EncryptionConfig, Config, file_log_source, container_log_source,
  pod_log_source, windows_event_log_source, macos_asl_log_source, default_security_config,
}
use tailpost.Config.Load.{
  Platform, set_tls, set_auth, set_encryption, validate_source, validate_tls, validate_auth,
  validate_encryption, has_prefix, or_default,
}

-- The source type decides which other fields are given, and on which system it runs.
pub record SourceIsValid (p : Platform) (c : Config) : Type 0 where
  pub file : c.log_source_type ≡ file_log_source → c.log_path ≢ ""
  pub container :
      c.log_source_type ≡ container_log_source
      → (c.namespace ≢ "") × (c.pod_name ≢ "") × (c.container_name ≢ "")
  pub pod : c.log_source_type ≡ pod_log_source → c.pod_selector ≢ []
  pub windows : c.log_source_type ≡ windows_event_log_source → p.goos ≡ "windows"
  pub macos : c.log_source_type ≡ macos_asl_log_source → p.goos ≡ "darwin"

module _ (p : Platform) (c : Config) (h : validate_source p c ≡ ok tt) where
  source_file : c.log_source_type ≡ file_log_source → c.log_path ≢ ""
  unfolding validate_source
  source_file e = let h' = rw e at h in ground (arith, eq_iff c.log_path "")

  source_container :
      c.log_source_type ≡ container_log_source
      → (c.namespace ≢ "") × (c.pod_name ≢ "") × (c.container_name ≢ "")
  unfolding validate_source
  source_container e =
      let h' = rw e at h in
      ground (arith, eq_iff c.namespace "", eq_iff c.pod_name "", eq_iff c.container_name "")

  source_pod : c.log_source_type ≡ pod_log_source → c.pod_selector ≢ []
  unfolding validate_source
  source_pod e = let h' = rw e at h in ground arith

  source_windows : c.log_source_type ≡ windows_event_log_source → p.goos ≡ "windows"
  unfolding validate_source
  source_windows e = let h' = rw e at h in ground (arith, eq_iff p.goos "windows")

  source_macos : c.log_source_type ≡ macos_asl_log_source → p.goos ≡ "darwin"
  unfolding validate_source
  source_macos e = let h' = rw e at h in ground (arith, eq_iff p.goos "darwin")

  pub validate_source-SourceIsValid : SourceIsValid p c
  validate_source-SourceIsValid = record {
    file = source_file;
    container = source_container;
    pod = source_pod;
    windows = source_windows;
    macos = source_macos;
  }

pub record TlsIsValid (server_url : String) (t : TlsConfig) : Type 0 where
  pub pair : t.enabled ≡ true → t.cert_file ≢ "" → t.key_file ≢ ""
  pub https : t.enabled ≡ true → has_prefix "https://" server_url ≡ true → t.cert_file ≢ ""
  pub minimum : t.min_version ≢ ""
  pub disabled : t.enabled ≡ false → t ≡ default_security_config.tls

pub record AuthIsValid (a : AuthConfig) : Type 0 where
  pub typed : a.type ≢ ""
  pub basic : a.type ≡ "basic" → (a.username ≢ "") × (a.password ≢ "")
  pub token : a.type ≡ "token" → a.token_file ≢ ""
  pub oauth2 : a.type ≡ "oauth2" → (a.client_id ≢ "") × (a.client_secret ≢ "") × (a.token_url ≢ "")

pub record EncryptionIsValid (e : EncryptionConfig) : Type 0 where
  pub source : e.enabled ≡ true → (e.key_file ≢ "") ⊎ (e.key_env ≢ "")
  pub typed : e.type ≢ ""
  pub rotation : is_zero e.rotation_days ≡ false
  pub disabled : e.enabled ≡ false → e ≡ default_security_config.encryption

pub or_default-ne-nil : (s d : String) → d ≢ "" → or_default s d ≢ ""
or_default-ne-nil s d h = ground (arith, eq_iff s "")

https-nonempty : (url : String) → has_prefix "https://" url ≡ true → eqs url "" ≡ false
unfolding has_prefix
https-nonempty url h = elim (Bool-cases (eqs url "")) [
  | inl e ↦ absurd (no_prefix ((eq_iff url "").0 e))
  | inr e ↦ e
]
  where
    no_prefix : url ≡ "" → ⊥
    no_prefix e = let h' : has_prefix "https://" "" ≡ true = rw e at h in cc

module _ (url : String) (t : TlsConfig) (h : validate_tls url t ≡ ok tt)
    (on : t.enabled ≡ true) where
  tls_pair : t.cert_file ≢ "" → t.key_file ≢ ""
  unfolding validate_tls
  tls_pair = ground (arith, on, eq_iff t.cert_file "", eq_iff t.key_file "")

  tls_https : has_prefix "https://" url ≡ true → t.cert_file ≢ ""
  unfolding validate_tls
  tls_https = ground (arith, on, eq_iff t.cert_file "", https-nonempty url)

pub tls-TlsIsValid :
    (url : String) (t : TlsConfig)
    → validate_tls url (set_tls t) ≡ ok tt
    → TlsIsValid url (set_tls t)
unfolding set_tls
tls-TlsIsValid url t h = record {
  pair = tls_pair url (set_tls t) h;
  https = tls_https url (set_tls t) h;
  minimum = ground (arith, eq_iff t.min_version "", eq_iff "tls12" "");
  disabled = λ off. ground arith;
}

module _ (a : AuthConfig) (h : validate_auth a ≡ ok tt) where
  auth_basic : a.type ≡ "basic" → (a.username ≢ "") × (a.password ≢ "")
  unfolding validate_auth
  auth_basic e = let h' = rw e at h in ground (arith, eq_iff a.username "", eq_iff a.password "")

  auth_token : a.type ≡ "token" → a.token_file ≢ ""
  unfolding validate_auth
  auth_token e = let h' = rw e at h in ground (arith, eq_iff a.token_file "")

  auth_oauth2 : a.type ≡ "oauth2" → (a.client_id ≢ "") × (a.client_secret ≢ "") × (a.token_url ≢ "")
  unfolding validate_auth
  auth_oauth2 e =
      let h' = rw e at h in
      ground (arith, eq_iff a.client_id "", eq_iff a.client_secret "", eq_iff a.token_url "")

pub auth-AuthIsValid :
    (a : AuthConfig) → validate_auth (set_auth a) ≡ ok tt → AuthIsValid (set_auth a)
unfolding set_auth
auth-AuthIsValid a h = record {
  typed = or_default-ne-nil a.type "none" (ground (arith, eq_iff "none" ""));
  basic = auth_basic (set_auth a) h;
  token = auth_token (set_auth a) h;
  oauth2 = auth_oauth2 (set_auth a) h;
}

encryption_source :
    (e : EncryptionConfig)
    → validate_encryption e ≡ ok tt
    → e.enabled ≡ true
    → (e.key_file ≢ "") ⊎ (e.key_env ≢ "")
unfolding validate_encryption
encryption_source e h on = elim (Bool-cases (eqs e.key_file "")) [
  | inl f ↦ inr (ground (arith, on, eq_iff e.key_env ""))
  | inr f ↦ inl (ground (arith, eq_iff e.key_file ""))
]

pub encryption-EncryptionIsValid :
    (e : EncryptionConfig)
    → validate_encryption (set_encryption e) ≡ ok tt
    → EncryptionIsValid (set_encryption e)
unfolding set_encryption
encryption-EncryptionIsValid e h = record {
  source = encryption_source (set_encryption e) h;
  typed = ground (arith, eq_iff e.type "", eq_iff "aes" "");
  rotation = ground arith;
  disabled = λ off. ground arith;
}
