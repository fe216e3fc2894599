-- ===== src/Security/Tls.antt =====
-- pkg/security/tls.go. Certificates are Go's crypto/x509 and crypto/tls: the functions that load
-- them are in `TlsEnv`, with `strings.ToLower`, `strconv.ParseBool` and the environment.
use tailpost.Base.{
  ℕ, ◌≤◌, Bool, true, false, not, ◌&&◌, Option, none, some, String, Bytes, eqs, ◌≡◌, ◌⊎◌, arith,
  eq_iff, if◌then◌else◌, Result, ok, err, ◌>>=◌,
}
use tailpost.Config.{TlsConfig}

-- `load_pool` is a new pool with the certificates of a PEM text, `load_pair` reads a certificate and
-- its key.
pub record TlsEnv : Type 1 where
  pub Pool : Type 0
  pub Certificate : Type 0
  pub read_file : String → Option Bytes
  pub load_pool : Bytes → Option Pool
  pub load_pair : String → String → Option Certificate
  pub to_lower : String → String
  pub getenv : String → String
  pub parse_bool : String → Option Bool

pub data TlsError : Type 0 where
  unsupported_minimum unsupported_maximum reading_ca_file adding_ca loading_pair : TlsError
  invalid_enabled : TlsError

-- The constants of crypto/tls.
abbrev pub version_tls10 : ℕ
version_tls10 = 0x0301

abbrev pub version_tls13 : ℕ
version_tls13 = 0x0304

-- The map `TLSVersion`.
unfoldable pub tls_version : String → Option ℕ
tls_version s =
    if eqs s "tls10"
    then some 0x0301
    else if eqs s "tls11"
    then some 0x0302
    else if eqs s "tls12"
    then some 0x0303
    else if eqs s "tls13"
    then some 0x0304
    else none

module _ (env : TlsEnv) where
  open env use {Pool, Certificate, read_file, load_pool, load_pair, to_lower, getenv, parse_bool}

  -- The fields of `tls.Config` that the code sets; version 0 is the library's default.
  pub record Tls : Type 0 where
    pub insecure_skip_verify : Bool
    pub server_name : String
    pub min_version : ℕ
    pub max_version : ℕ
    pub root_cas : Option Pool
    pub certificate : Option Certificate

  -- A version that is given has to be in the map.
  unfoldable pub version_of : TlsError → String → Result TlsError ℕ
  version_of e s =
      if eqs s "" then ok 0 else elim (tls_version (to_lower s)) [ none ↦ err e | some v ↦ ok v ]

  abbrev ca_pool : Option Pool → Result TlsError (Option Pool)
  ca_pool none = err adding_ca
  ca_pool (some pool) = ok (some pool)

  unfoldable pub load_ca : String → Result TlsError (Option Pool)
  load_ca ca_file = if eqs ca_file "" then ok none else elim (read_file ca_file) [
    | none ↦ err reading_ca_file
    | some pem ↦ ca_pool (load_pool pem)
  ]

  unfoldable pub load_certificate : String → String → Result TlsError (Option Certificate)
  load_certificate cert_file key_file =
      if not (eqs cert_file "") && not (eqs key_file "")
      then elim (load_pair cert_file key_file) [
        | none ↦ err loading_pair
        | some cert ↦ ok (some cert)
      ]
      else ok none

  -- `CreateTLSConfig`; `none` is the nil configuration.
  unfoldable pub create_tls_config : TlsConfig → Result TlsError (Option Tls)
  create_tls_config c = if not c.enabled then ok none else do
    min ← version_of unsupported_minimum c.min_version
    max ← version_of unsupported_maximum c.max_version
    pool ← load_ca c.ca_file
    cert ← load_certificate c.cert_file c.key_file
    ok (
        some (record {
          insecure_skip_verify = c.insecure_skip_verify;
          server_name = c.server_name;
          min_version = min;
          max_version = max;
          root_cas = pool;
          certificate = cert;
        }))

  abbrev enabled_setting : String → Result TlsError Bool
  enabled_setting s =
      if eqs s ""
      then ok false
      else elim (parse_bool s) [ none ↦ err invalid_enabled | some b ↦ ok b ]

  abbrev from_settings : Bool → Result TlsError (Option Tls)
  from_settings false = ok none
  from_settings true = create_tls_config (record {
    enabled = true;
    cert_file = getenv "TAILPOST_TLS_CERT_FILE";
    key_file = getenv "TAILPOST_TLS_KEY_FILE";
    ca_file = getenv "TAILPOST_TLS_CA_FILE";
    insecure_skip_verify = eqs (getenv "TAILPOST_TLS_INSECURE_SKIP_VERIFY") "true";
    server_name = getenv "TAILPOST_TLS_SERVER_NAME";
    prefer_server_cipher_suites = false;
    min_version = getenv "TAILPOST_TLS_MIN_VERSION";
    max_version = getenv "TAILPOST_TLS_MAX_VERSION";
    cipher_suites = "";
  })

  -- `CreateTLSConfigFromEnv`.
  unfoldable pub create_tls_config_from_env : Result TlsError (Option Tls)
  create_tls_config_from_env = enabled_setting (getenv "TAILPOST_TLS_ENABLED") >>= from_settings

  -- The library's default, or one of the versions 1.0 to 1.3.
  abbrev pub IsVersion : ℕ → Type 0
  IsVersion v = (v ≡ 0) ⊎ ((version_tls10 ≤ v) × (v ≤ version_tls13))

  version_of-IsVersion :
      (e : TlsError) (s : String) (v : ℕ)
      → version_of e s ≡ ok v
      → IsVersion v × ((s ≡ "") ⊎ (version_tls10 ≤ v))
  unfolding version_of tls_version
  version_of-IsVersion e s v h = (ground arith, ground (arith, eq_iff s ""))

  -- A configuration that is made has versions that crypto/tls knows, and a minimum of at least TLS
  -- 1.0 where one was given.
  pub tls_versions :
      (c : TlsConfig) (t : Tls)
      → create_tls_config c ≡ ok (some t)
      → IsVersion t.min_version
        × IsVersion t.max_version
        × ((c.min_version ≡ "") ⊎ (version_tls10 ≤ t.min_version))
  unfolding create_tls_config
  tls_versions c t h = ground (
    arith,
    version_of-IsVersion unsupported_minimum c.min_version t.min_version,
    version_of-IsVersion unsupported_maximum c.max_version t.max_version,
  )
