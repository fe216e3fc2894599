-- ===== src/Config/Load.antt =====
-- `LoadConfig` of pkg/config/config.go. `os.ReadFile` and yaml's `Unmarshal` are arguments, and
-- `Platform` is what Go's runtime, os and path/filepath say on the machine at hand.
pub mod Checks
pub mod Valid
use tailpost.Base.{
  ℕ, ◌*◌, Bool, true, false, not, ◌&&◌, ◌||◌, List, [], ◌∷◌, Option, none, some, String, Bytes, eqs,
  ◌==◌, if◌then◌else◌, Result, ok, err, ◌>>=◌, ◌>>◌, fail_if,
}
use Prim.Native.Char.{code}
use tailpost.Base.Int.{ℤ, pos, is_zero}
use tailpost.Config.{
  TlsConfig, AuthConfig, EncryptionConfig, SecurityConfig, TelemetryConfig, Config, file_log_source,
  container_log_source, pod_log_source, windows_event_log_source, macos_asl_log_source, second,
  is_float_zero, default_telemetry_config, default_security_config,
}

pub record Platform : Type 0 where
  pub goos : String
  pub getenv : String → String
  pub dir : String → String
  pub join : List String → String

pub data ConfigError : Type 0 where
  reading_file parsing_file : ConfigError
  log_path_required namespace_required pod_name_required container_name_required : ConfigError
  pod_selector_required only_on_windows only_on_macos : ConfigError
  cert_file_required key_file_required : ConfigError
  username_and_password_required token_file_required client_fields_required : ConfigError
  key_source_required server_url_required : ConfigError

-- `strings.HasPrefix` with `strings.TrimPrefix`: what follows the prefix.
unfoldable pub strip_prefix : String → String → Option String
strip_prefix String.[] s = some s
strip_prefix (String.◌∷◌ c p) String.[] = none
strip_prefix (String.◌∷◌ c p) (String.◌∷◌ d s) = if code c == code d then strip_prefix p s else none

unfoldable pub has_prefix : String → String → Bool
unfolding strip_prefix
has_prefix p s = elim (strip_prefix p s) [ none ↦ false | some rest ↦ true ]

-- `getDefaultLogPath`.
unfoldable pub get_default_log_path : Platform → String
get_default_log_path p =
    if eqs p.goos "windows"
    then p.join (p.getenv "SYSTEMROOT" ∷ "Logs" ∷ "Application.log" ∷ [])
    else if eqs p.goos "darwin"
    then "/var/log/system.log"
    else "/var/log/syslog"

-- `getDefaultLogSourceType`.
unfoldable pub get_default_log_source_type : Platform → String
get_default_log_source_type p =
    if eqs p.goos "windows"
    then windows_event_log_source
    else if eqs p.goos "darwin"
    then macos_asl_log_source
    else file_log_source

-- `if s == "" { s = d }`.
abbrev pub or_default : String → String → String
or_default s d = if eqs s "" then d else s

-- The batch size, the interval and the source type.
unfoldable pub set_common : Platform → Config → Config
set_common p c = record c {
  batch_size = if is_zero c.batch_size then pos 10 else c.batch_size;
  flush_interval = if is_zero c.flush_interval then pos (5 * second) else c.flush_interval;
  log_source_type = or_default c.log_source_type (get_default_log_source_type p);
}

-- The names for Windows event logs.
unfoldable pub set_event : Config → Config
set_event c = record c {
  windows_event_log_name =
      if eqs c.log_source_type windows_event_log_source && eqs c.windows_event_log_name ""
      then "Application"
      else c.windows_event_log_name;
  windows_event_log_level =
      if eqs c.log_source_type windows_event_log_source && eqs c.windows_event_log_level ""
      then "Information"
      else c.windows_event_log_level;
}

unfoldable pub set_telemetry : TelemetryConfig → TelemetryConfig
unfolding default_telemetry_config
set_telemetry t =
    let d = default_telemetry_config in
    if t.enabled
    then record t {
      service_name = or_default t.service_name d.service_name;
      service_version = or_default t.service_version d.service_version;
      exporter_type = or_default t.exporter_type d.exporter_type;
      exporter_endpoint = or_default t.exporter_endpoint d.exporter_endpoint;
      sampling_rate = if is_float_zero t.sampling_rate then d.sampling_rate else t.sampling_rate;
      attributes = elim t.attributes [ none ↦ d.attributes | some m ↦ some m ];
    }
    else d

unfoldable pub set_tls : TlsConfig → TlsConfig
unfolding default_security_config
set_tls t =
    let d = default_security_config.tls in
    if t.enabled then record t { min_version = or_default t.min_version d.min_version } else d

unfoldable pub set_auth : AuthConfig → AuthConfig
unfolding default_security_config
set_auth a = record a { type = or_default a.type default_security_config.auth.type }

unfoldable pub set_encryption : EncryptionConfig → EncryptionConfig
unfolding default_security_config
set_encryption e =
    let d = default_security_config.encryption in
    if e.enabled
    then record e {
      type = or_default e.type d.type;
      rotation_days = if is_zero e.rotation_days then d.rotation_days else e.rotation_days;
    }
    else d

unfoldable pub set_security : SecurityConfig → SecurityConfig
set_security s = record {
  tls = set_tls s.tls;
  auth = set_auth s.auth;
  encryption = set_encryption s.encryption;
}

-- The path of a file source: the default, or the part of it that `${OS_DEFAULT}` stands for.
unfoldable pub expand_log_path : Platform → String → String
expand_log_path p path =
    if eqs path "" then get_default_log_path p else elim (strip_prefix "${OS_DEFAULT}" path) [
      | none ↦ path
      | some suffix ↦ p.join (p.dir (get_default_log_path p) ∷ suffix ∷ [])
    ]

unfoldable pub set_log_path : Platform → Config → Config
set_log_path p c =
    if eqs c.log_source_type file_log_source
    then record c { log_path = expand_log_path p c.log_path }
    else c

-- All defaults, in the order of the source.
unfoldable pub set_defaults : Platform → Config → Config
set_defaults p c =
    let d = set_event (set_common p c) in
    set_log_path p
      (record d { telemetry = set_telemetry d.telemetry; security = set_security d.security })

abbrev is_nil {ℓ} : {A : Type ℓ} → List A → Bool
is_nil [] = true
is_nil (x ∷ xs) = false

-- "Validate required fields based on source type".
unfoldable pub validate_source : Platform → Config → Result ConfigError (Unit {0})
validate_source p c =
    if eqs c.log_source_type file_log_source
    then fail_if (eqs c.log_path "") log_path_required
    else if eqs c.log_source_type container_log_source
    then (fail_if (eqs c.namespace "") namespace_required
        >> (fail_if (eqs c.pod_name "") pod_name_required
            >> fail_if (eqs c.container_name "") container_name_required))
    else if eqs c.log_source_type pod_log_source
    then fail_if (is_nil c.pod_selector) pod_selector_required
    else if eqs c.log_source_type windows_event_log_source
    then fail_if (not (eqs p.goos "windows")) only_on_windows
    else if eqs c.log_source_type macos_asl_log_source
    then fail_if (not (eqs p.goos "darwin")) only_on_macos
    else ok tt

unfoldable pub validate_tls : String → TlsConfig → Result ConfigError (Unit {0})
validate_tls server_url t =
    if t.enabled
    then (fail_if
          (eqs t.cert_file "" && (not (eqs server_url "") && has_prefix "https://" server_url))
          cert_file_required
        >> fail_if (eqs t.key_file "" && not (eqs t.cert_file "")) key_file_required)
    else ok tt

unfoldable pub validate_auth : AuthConfig → Result ConfigError (Unit {0})
validate_auth a =
    if eqs a.type "none"
    then ok tt
    else if eqs a.type "basic"
    then fail_if (eqs a.username "" || eqs a.password "") username_and_password_required
    else if eqs a.type "token"
    then fail_if (eqs a.token_file "") token_file_required
    else if eqs a.type "oauth2"
    then fail_if (eqs a.client_id "" || (eqs a.client_secret "" || eqs a.token_url ""))
        client_fields_required
    else ok tt

unfoldable pub validate_encryption : EncryptionConfig → Result ConfigError (Unit {0})
validate_encryption e =
    if e.enabled then fail_if (eqs e.key_file "" && eqs e.key_env "") key_source_required else ok tt

-- All checks, in the order of the source.
unfoldable pub validate : Platform → Config → Result ConfigError (Unit {0})
validate p c =
    validate_source p c
    >> (validate_tls c.server_url c.security.tls
        >> (validate_auth c.security.auth
            >> (validate_encryption c.security.encryption
                >> fail_if (eqs c.server_url "") server_url_required)))

-- `LoadConfig` behind the parser.
unfoldable pub complete : Platform → Config → Result ConfigError Config
complete p c = let d = set_defaults p c in validate p d >>= λ _. ok d

abbrev parsed : Platform → Option Config → Result ConfigError Config
parsed p none = err parsing_file
parsed p (some c) = complete p c

-- `LoadConfig`.
unfoldable pub load_config :
    Platform
    → (String → Option Bytes)
    → (Bytes → Option Config)
    → String
    → Result ConfigError Config
load_config p read_file unmarshal path = elim (read_file path) [
  | none ↦ err reading_file
  | some text ↦ parsed p (unmarshal text)
]
