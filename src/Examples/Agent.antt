-- ===== src/Examples/Agent.antt =====
-- The theorems on the configuration, the choice of a reader and the probes, at small inputs.
use tailpost.Base.{
  false, [], ◌∷◌, none, some, ◌≡◌, inl, inr, refl, ◌*◌, String, Bytes, bytes, Result, ok, err, true,
  List, ◌≤◌,
}
use tailpost.Base.Int.{pos}
use tailpost.Config.{Config, default_security_config, default_telemetry_config, second}
use tailpost.Config.Load.{
  Platform, ConfigError, load_config, complete, set_defaults, set_common, set_event, set_telemetry,
  set_security, set_tls, set_auth, set_encryption, set_log_path, expand_log_path, validate,
  validate_source, validate_tls, validate_auth, validate_encryption, get_default_log_path,
}
use tailpost.Config.Load.Valid.{IsValid, load_config-IsValid}
use tailpost.Reader.Factory.{
  container_reader, Host, new_container, only_on_windows, only_on_macos, parse_source_type,
  new_reader,
}
use tailpost.Agent.{source_config}
use tailpost.Http.{Request}
use tailpost.Security.Auth.{AuthProvider, OauthClient, token, authenticate}
use tailpost.Health.{HealthServer, serve}
use tailpost.Health.Lifecycle.{
  Event, start_called, listens, tls_config_set, stop_called, created, step, run, starts, stop_final,
}
use tailpost.Health.Access.{expected, serve-auth}

abbrev pub platform : Platform
platform = record {
  goos = "linux";
  getenv = λ name. "";
  dir = λ path. "/var/log";
  join = λ parts. "/var/log/app.log";
}

-- What a file that sets the server, a source type and the fields of a container parses to.
abbrev pub parsed_of : String → Config
parsed_of type = record {
  log_path = "";
  server_url = "http://logs";
  batch_size = pos 0;
  flush_interval = pos 0;
  log_source_type = type;
  namespace = "ns";
  pod_name = "pod";
  container_name = "app";
  pod_selector = ("app", "web") ∷ [];
  namespace_selector = [];
  windows_event_log_name = "";
  windows_event_log_level = "";
  macos_log_query = "";
  telemetry = default_telemetry_config;
  security = default_security_config;
}

abbrev pub loaded_of : String → String → Config
loaded_of type path = record (parsed_of type) {
  log_path = path;
  batch_size = pos 10;
  flush_interval = pos (5 * second);
}

abbrev pub load : String → Result ConfigError Config
load type = load_config platform (λ path. some []) (λ text. some (parsed_of type)) "config.yaml"

pub file_loads : load "file" ≡ ok (loaded_of "file" "/var/log/syslog")
unfolding load_config complete set_defaults set_common set_event set_telemetry set_security set_tls
    set_auth set_encryption set_log_path expand_log_path validate validate_source validate_tls
    validate_auth validate_encryption default_telemetry_config default_security_config
    get_default_log_path
file_loads = refl

load_config-IsValid_example : IsValid platform (loaded_of "file" "/var/log/syslog")
load_config-IsValid_example =
    load_config-IsValid platform (λ path. some []) (λ text. some (parsed_of "file")) "config.yaml"
      (loaded_of "file" "/var/log/syslog") file_loads

container_loads : load "container" ≡ ok (loaded_of "container" "")
unfolding load_config complete set_defaults set_common set_event set_telemetry set_security set_tls
    set_auth set_encryption set_log_path expand_log_path validate validate_source validate_tls
    validate_auth validate_encryption default_telemetry_config default_security_config
container_loads = refl

pod_loads : load "pod" ≡ ok (loaded_of "pod" "")
unfolding load_config complete set_defaults set_common set_event set_telemetry set_security set_tls
    set_auth set_encryption set_log_path expand_log_path validate validate_source validate_tls
    validate_auth validate_encryption default_telemetry_config default_security_config
pod_loads = refl

abbrev pub host : Host
host = record {
  goos = "linux";
  new_container_reader = λ namespace pod container. ok (container_reader namespace pod container);
  macos_log_reader_factory = λ query. err only_on_macos;
  windows_event_log_reader_factory = λ name level. err only_on_windows;
}

parse_event : parse_source_type (λ s. s) "event" ≡ ok "windows_event"
unfolding parse_source_type
parse_event = refl

reader_made :
    new_reader host (source_config (parsed_of "container")) ≡ ok (container_reader "ns" "pod" "app")
unfolding new_reader source_config new_container
reader_made = refl

abbrev server : AuthProvider → HealthServer
server p = record {
  listen_addr = ":8080";
  ready = false;
  auth_provider = some p;
  use_tls = false;
  cert_file = "";
  key_file = "";
}

abbrev pub open_server : HealthServer
open_server = record (server (token (bytes "t"))) { auth_provider = none }

abbrev pub probe : Bytes → Request
probe path = record { method = bytes "GET"; url = path; header = []; body = [] }

abbrev pub now : Bytes
now = bytes "2025-01-01T00:00:00Z"

serve-auth_example :
    serve (server (token (bytes "t"))) now (probe (bytes "/ready"))
    ≡ expected
        (authenticate (token (bytes "t")) (probe (bytes "/ready")))
        (serve open_server now (probe (bytes "/ready")))
serve-auth_example =
    serve-auth (server (token (bytes "t"))) (token (bytes "t")) now (probe (bytes "/ready")) refl
      (inr (inl refl))

abbrev client : OauthClient
client = record { client_id = "id"; client_secret = "s"; token_url = "http://auth"; scopes = [] }

-- A stop before the goroutine has opened the listener.
abbrev early_stop : List Event
early_stop = start_called ∷ tls_config_set true ∷ []

stop_final_example :
    ((run (listens true ∷ []) (step stop_called (run early_stop created))).listener ≡ none)
    × ((run (listens true ∷ []) (step stop_called (run early_stop created))).abandoned
        ≡ (run early_stop created).abandoned)
    × (starts early_stop ≤ 1
        → (run (listens true ∷ []) (step stop_called (run early_stop created))).abandoned ≡ [])
stop_final_example = stop_final early_stop (listens true ∷ []) ((λ e. cc), tt)
