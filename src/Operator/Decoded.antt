-- ===== src/Operator/Decoded.antt =====
-- What the agent's configuration takes from the ConfigMap that `CreateConfigMap` of
-- pkg/k8s/resources/resources.go makes: the parser of YAML, by the keys of its text.
use tailpost.Base.{
  false, not, ◌&&◌, List, [], ◌∷◌, none, String, Bytes, bytes, eqs, equal, ◌≡◌, refl, ap, arith,
  if◌then◌else◌,
}
use tailpost.Base.Int.{ℤ, pos}
use tailpost.Config.{Config}
use tailpost.Operator.{LogSourceSpec, AgentSpec}
use tailpost.Operator.Resources.{Value, text, number, log_path_entry, config_data}

-- The first file source that has a path; "" stands for none.
unfoldable pub file_path : List LogSourceSpec → String
file_path [] = ""
file_path (s ∷ ss) =
    let rest = file_path ss in if eqs s.type "file" && not (eqs s.path "") then s.path else rest

-- What a key of the ConfigMap's text holds: the zero value if it is not there.
unfoldable pub text_value : Bytes → List (Bytes × Value) → String
text_value key [] = ""
text_value key ((k, number n) ∷ rest) =
    let found = text_value key rest in if equal key k then "" else found
text_value key ((k, text s) ∷ rest) =
    let found = text_value key rest in if equal key k then s else found

unfoldable pub number_value : Bytes → List (Bytes × Value) → ℤ
number_value key [] = pos 0
number_value key ((k, number n) ∷ rest) =
    let found = number_value key rest in if equal key k then n else found
number_value key ((k, text s) ∷ rest) =
    let found = number_value key rest in if equal key k then pos 0 else found

-- The zero value of Go's struct, with four fields set.
abbrev pub config_of : String → String → ℤ → ℤ → Config
config_of log_path server_url batch_size interval = record {
  log_path = log_path;
  server_url = server_url;
  batch_size = batch_size;
  flush_interval = interval;
  log_source_type = "";
  namespace = "";
  pod_name = "";
  container_name = "";
  pod_selector = [];
  namespace_selector = [];
  windows_event_log_name = "";
  windows_event_log_level = "";
  macos_log_query = "";
  telemetry = record {
    enabled = false;
    service_name = "";
    service_version = "";
    exporter_type = "";
    exporter_endpoint = "";
    sampling_rate = 0;
    context_propagation = false;
    attributes = none;
  };
  security = record {
    tls = record {
      enabled = false;
      cert_file = "";
      key_file = "";
      ca_file = "";
      insecure_skip_verify = false;
      server_name = "";
      prefer_server_cipher_suites = false;
      min_version = "";
      max_version = "";
      cipher_suites = "";
    };
    auth = record {
      type = "";
      username = "";
      password = "";
      token_file = "";
      client_id = "";
      client_secret = "";
      token_url = "";
      scopes = [];
      headers = [];
    };
    encryption = record {
      enabled = false;
      type = "";
      algorithm = "";
      key_file = "";
      key_env = "";
      key_id = "";
      rotation_days = pos 0;
    };
  };
}

-- What the parser of YAML makes of the entries, by their keys, where `duration` reads an interval.
unfoldable pub decoded : (String → ℤ) → List (Bytes × Value) → Config
unfolding text_value number_value
decoded duration entries =
    config_of (text_value (bytes "log_path") entries) (text_value (bytes "server_url") entries)
      (number_value (bytes "batch_size") entries)
      (duration (text_value (bytes "flush_interval") entries))

log_path_lem :
    (sources : List LogSourceSpec)
    → text_value (bytes "log_path") (log_path_entry sources) ≡ file_path sources
unfolding text_value log_path_entry file_path equal
log_path_lem [] = refl
log_path_lem (s ∷ ss) = let rest = log_path_lem ss in ground arith

pub config_data-decoded :
    (duration : String → ℤ) (s : AgentSpec) (n : ℤ)
    → decoded duration (config_data s n)
      ≡ config_of (file_path s.log_sources) s.server_url n (duration s.flush_interval)
unfolding decoded config_data text_value number_value equal
config_data-decoded duration s n =
    ap (λ (path : String). config_of path s.server_url n (duration s.flush_interval))
      (log_path_lem s.log_sources)
