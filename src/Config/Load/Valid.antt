-- ===== src/Config/Load/Valid.antt =====
-- What holds of every configuration that `LoadConfig` returns.
use tailpost.Base.{
  false, Option, String, Bytes, eq_iff, ◌≡◌, ◌≢◌, inl, inr, arith, ok, >>=-eq-ok, subst, sym,
  Option-cases,
}
use tailpost.Base.Int.{is_zero}
use tailpost.Config.{
  SecurityConfig, Config, file_log_source, windows_event_log_source, macos_asl_log_source,
}
use tailpost.Config.Load.{
  Platform, set_common, set_event, set_telemetry, set_security, set_log_path, set_defaults,
  get_default_log_source_type, validate_source, validate_tls, validate_auth, validate_encryption,
  validate, complete, load_config,
}
use tailpost.Config.Load.Checks.{
  SourceIsValid, TlsIsValid, AuthIsValid, EncryptionIsValid, validate_source-SourceIsValid,
  tls-TlsIsValid, auth-AuthIsValid, encryption-EncryptionIsValid, or_default-ne-nil,
}

validate_parts :
    (p : Platform) (c : Config)
    → validate p c ≡ ok tt
    → (validate_source p c ≡ ok tt)
      × (validate_tls c.server_url c.security.tls ≡ ok tt)
      × (validate_auth c.security.auth ≡ ok tt)
      × (validate_encryption c.security.encryption ≡ ok tt)
      × (c.server_url ≢ "")
unfolding validate
validate_parts p c h = ground (arith, eq_iff c.server_url "")

-- A configuration that the agent can run with.
pub record IsValid (p : Platform) (c : Config) : Type 0 where
  pub source : SourceIsValid p c
  pub source_typed : c.log_source_type ≢ ""
  pub batch_size : is_zero c.batch_size ≡ false
  pub flush_interval : is_zero c.flush_interval ≡ false
  pub server : c.server_url ≢ ""
  pub tls : TlsIsValid c.server_url c.security.tls
  pub auth : AuthIsValid c.security.auth
  pub encryption : EncryptionIsValid c.security.encryption

set_log_path-keeps :
    (p : Platform) (c : Config)
    → ((set_log_path p c).batch_size ≡ c.batch_size)
      × ((set_log_path p c).flush_interval ≡ c.flush_interval)
      × ((set_log_path p c).log_source_type ≡ c.log_source_type)
      × ((set_log_path p c).security ≡ c.security)
unfolding set_log_path
set_log_path-keeps p c = ground arith

default_type-ne-nil : (p : Platform) → get_default_log_source_type p ≢ ""
unfolding get_default_log_source_type
default_type-ne-nil p = ground (
  arith,
  eq_iff windows_event_log_source "",
  eq_iff macos_asl_log_source "",
  eq_iff file_log_source "",
)

-- What the defaults make of the common fields, whatever the later ones do.
defaults_common :
    (p : Platform) (c : Config)
    → (is_zero (set_defaults p c).batch_size ≡ false)
      × (is_zero (set_defaults p c).flush_interval ≡ false)
      × ((set_defaults p c).log_source_type ≢ "")
      × ((set_defaults p c).security ≡ set_security c.security)
unfolding set_defaults set_event set_common
defaults_common p c =
    let d = set_event (set_common p c) in
    let (size, interval, type, security) =
      set_log_path-keeps p
        (record d { telemetry = set_telemetry d.telemetry; security = set_security d.security }) in
    (
      rw size (ground arith),
      rw interval (ground arith),
      rw type (or_default-ne-nil c.log_source_type _ (default_type-ne-nil p)),
      security,
    )

security_checks :
    (url : String) (s raw : SecurityConfig)
    → s ≡ set_security raw
    → validate_tls url s.tls ≡ ok tt
    → validate_auth s.auth ≡ ok tt
    → validate_encryption s.encryption ≡ ok tt
    → TlsIsValid url s.tls × AuthIsValid s.auth × EncryptionIsValid s.encryption
unfolding set_security
security_checks url s raw e t a k =
    subst
      (λ (s : SecurityConfig).
        validate_tls url s.tls ≡ ok tt
        → validate_auth s.auth ≡ ok tt
        → validate_encryption s.encryption ≡ ok tt
        → TlsIsValid url s.tls × AuthIsValid s.auth × EncryptionIsValid s.encryption)
      (sym e)
      (λ t a k. (
        tls-TlsIsValid url raw.tls t,
        auth-AuthIsValid raw.auth a,
        encryption-EncryptionIsValid raw.encryption k,
      ))
      t a k

defaults-IsValid :
    (p : Platform) (c : Config)
    → validate p (set_defaults p c) ≡ ok tt
    → IsValid p (set_defaults p c)
defaults-IsValid p c h =
    let d = set_defaults p c in
    let (size, interval, type, security) = defaults_common p c in
    let (source, t, a, k, url) = validate_parts p d h in
    let (tls, auth, encryption) =
      security_checks d.server_url d.security c.security security t a k in
    record {
      source = validate_source-SourceIsValid p d source;
      source_typed = type;
      batch_size = size;
      flush_interval = interval;
      server = url;
      tls = tls;
      auth = auth;
      encryption = encryption;
    }

complete-IsValid : (p : Platform) (c d : Config) → complete p c ≡ ok d → IsValid p d
unfolding complete
complete-IsValid p c d h =
    let (u, checked, same) =
      >>=-eq-ok (validate p (set_defaults p c)) (λ _. ok (set_defaults p c)) h in
    subst (IsValid p) (cc) (defaults-IsValid p c checked)

-- Every configuration that `LoadConfig` returns is valid: whatever the file held, the sizes and
-- types are set, what the source type needs is given, the source runs on this system, and the TLS,
-- authentication and encryption settings are complete, or the defaults where they are not enabled.
pub load_config-IsValid :
    (p : Platform) (read_file : String → Option Bytes) (unmarshal : Bytes → Option Config)
    (path : String) (d : Config)
    → load_config p read_file unmarshal path ≡ ok d
    → IsValid p d
unfolding load_config
load_config-IsValid p read_file unmarshal path d h = elim (Option-cases (read_file path)) [
  | inl e ↦ absurd (ground (arith, e))
  | inr (text, e) ↦ elim (Option-cases (unmarshal text)) [
    | inl f ↦ absurd (ground (arith, e, f))
    | inr (c, f) ↦ complete-IsValid p c d (ground (arith, e, f))
  ]
]
