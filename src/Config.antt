-- ===== src/Config.antt =====
-- pkg/config/config.go: the configuration types. `int` and `time.Duration` are ℤ, a `float64` is
-- its IEEE 754 bit pattern, a map is its list of entries, and a map that may be nil an `Option`.
pub mod Load
use tailpost.Base.{
  ℕ, Bool, true, false, ◌||◌, List, [], Option, none, some, String, ◌==◌, ◌*◌, ◌+◌, ◌^◌,
}
use tailpost.Base.Int.{ℤ, pos}

pub record TlsConfig : Type 0 where
  pub enabled : Bool
  pub cert_file : String
  pub key_file : String
  pub ca_file : String
  pub insecure_skip_verify : Bool
  pub server_name : String
  pub prefer_server_cipher_suites : Bool
  pub min_version : String
  pub max_version : String
  pub cipher_suites : String

pub record AuthConfig : Type 0 where
  pub type : String
  pub username : String
  pub password : String
  pub token_file : String
  pub client_id : String
  pub client_secret : String
  pub token_url : String
  pub scopes : List String
  pub headers : List (String × String)

pub record EncryptionConfig : Type 0 where
  pub enabled : Bool
  pub type : String
  pub algorithm : String
  pub key_file : String
  pub key_env : String
  pub key_id : String
  pub rotation_days : ℤ

pub record SecurityConfig : Type 0 where
  pub tls : TlsConfig
  pub auth : AuthConfig
  pub encryption : EncryptionConfig

-- The bits of 1.0, and the test `x == 0` on a pattern, which -0 passes too.
abbrev pub float_one : ℕ
float_one = 0x3ff0000000000000

abbrev pub is_float_zero : ℕ → Bool
is_float_zero x = x == 0 || x == 0x8000000000000000

pub record TelemetryConfig : Type 0 where
  pub enabled : Bool
  pub service_name : String
  pub service_version : String
  pub exporter_type : String
  pub exporter_endpoint : String
  pub sampling_rate : ℕ
  pub context_propagation : Bool
  pub attributes : Option (List (String × String))

pub record Config : Type 0 where
  pub log_path : String
  pub server_url : String
  pub batch_size : ℤ
  pub flush_interval : ℤ
  pub log_source_type : String
  pub namespace : String
  pub pod_name : String
  pub container_name : String
  pub pod_selector : List (String × String)
  pub namespace_selector : List (String × String)
  pub windows_event_log_name : String
  pub windows_event_log_level : String
  pub macos_log_query : String
  pub telemetry : TelemetryConfig
  pub security : SecurityConfig

-- The values of `LogSourceType`.
abbrev pub file_log_source : String
file_log_source = "file"

abbrev pub container_log_source : String
container_log_source = "container"

abbrev pub pod_log_source : String
pod_log_source = "pod"

abbrev pub windows_event_log_source : String
windows_event_log_source = "windows_event"

abbrev pub macos_asl_log_source : String
macos_asl_log_source = "macos_asl"

-- Nanoseconds.
abbrev pub second : ℕ
second = 1_000_000_000

unfoldable pub default_telemetry_config : TelemetryConfig
default_telemetry_config = record {
  enabled = false;
  service_name = "tailpost";
  service_version = "0.1.0";
  exporter_type = "http";
  exporter_endpoint = "http://localhost:4318";
  sampling_rate = float_one;
  context_propagation = true;
  attributes = some [];
}

unfoldable pub default_security_config : SecurityConfig
default_security_config = record {
  tls = record {
    enabled = false;
    cert_file = "";
    key_file = "";
    ca_file = "";
    insecure_skip_verify = false;
    server_name = "";
    prefer_server_cipher_suites = true;
    min_version = "tls12";
    max_version = "";
    cipher_suites = "";
  };
  auth = record {
    type = "none";
    username = "";
    password = "";
    token_file = "";
    client_id = "";
    client_secret = "";
    token_url = "";
    scopes = [];
    headers = [];
  };
  encryption = record {
    enabled = false;
    type = "aes";
    algorithm = "";
    key_file = "";
    key_env = "";
    key_id = "";
    rotation_days = pos 90;
  };
}
