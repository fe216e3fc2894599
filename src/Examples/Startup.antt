-- ===== src/Examples/Startup.antt =====
-- The theorems on the start of the agent, alone and in a pod of the operator, and on the server
-- without decryption, at small inputs.
use tailpost.Base.{
  true, false, List, [], ◌∷◌, none, some, Bool, ◌≡◌, refl, arith, String, Bytes, Option, bytes, ok,
  eq_iff,
}
use tailpost.Base.Int.{pos}
use tailpost.Http.{Request}
use tailpost.Config.{Config, default_security_config, default_telemetry_config}
use tailpost.Config.Load.{load_config, expand_log_path, get_default_log_path}
use tailpost.Reader.Factory.{LogReader, file_reader, new_reader}
use tailpost.Health.{new_health_server}
use tailpost.Sender.Bounds.{IsBounded, limit}
use tailpost.Sender.Post.{Poster, build_request}
use tailpost.MockServer.{Unmarshal, handle_logs}
use tailpost.MockServer.Plain.{IsOpen, handle_plain, plain_delivered}
use tailpost.Agent.{source_config, wants_secure_health, wants_secure_sender}
use tailpost.Agent.Setup.{reader_single, setup_telemetry}
use tailpost.Examples.Pipeline.{sdk}
use tailpost.Agent.Pipeline.{here, initial}
use tailpost.Agent.Startup.{
  Parts, plain_sender, setup_health_server, start_reader, setup_log_reader, setup_log_sender,
  start_main, load_and_start, make_sender,
}
use tailpost.Agent.Startup.Bounded.{started-IsBounded}
use tailpost.Operator.Resources.{config_data}
use tailpost.Operator.Decoded.{file_path, decoded}
use tailpost.Operator.Pods.{file_of, pod_reads_file}
use tailpost.Examples.Agent.{platform, host, parsed_of, loaded_of, file_loads}
use tailpost.Examples.Operator.{agent, config_map, config_map_made, in_order}
use tailpost.Examples.Security.{ciphers, tls_env}
use tailpost.Security.Encryption.{Env}
use tailpost.Examples.Sender.{net, poster, aead}

abbrev env : Env
env = record { read_file = λ path. some []; getenv = λ name. []; now = 0 }

abbrev starts : LogReader → Bool
starts r = true

abbrev addr : String
addr = ":8080"

abbrev otel_tracer : String → sdk.Tracer
otel_tracer name = name

abbrev loaded : Config
loaded = loaded_of "file" "/var/log/syslog"

abbrev parts : Parts tls_env ciphers env host starts sdk otel_tracer
parts = record {
  config = loaded;
  health = new_health_server addr;
  reader = file_reader "/var/log/syslog";
  sender = plain_sender tls_env ciphers env host starts sdk otel_tracer loaded;
  telemetry = none;
  tracer = none;
}

main_starts : start_main tls_env ciphers env host starts sdk otel_tracer addr loaded ≡ ok parts
unfolding start_main setup_health_server setup_log_reader setup_log_sender make_sender start_reader
    setup_telemetry default_telemetry_config wants_secure_health wants_secure_sender new_reader
    source_config default_security_config
main_starts = refl

file_starts :
    load_and_start tls_env ciphers env host starts sdk otel_tracer
      (start_main tls_env ciphers env host starts sdk otel_tracer addr)
      platform
      (λ text. some (parsed_of "file"))
      "config.yaml"
    ≡ ok parts
unfolding load_and_start
file_starts = rw file_loads main_starts

started-IsBounded_example :
    IsBounded (limit loaded.batch_size) (initial [] parts.sender.base parts.health).sender
started-IsBounded_example =
    started-IsBounded tls_env ciphers env host starts sdk otel_tracer platform
      (λ text. some (parsed_of "file")) addr "config.yaml" parts false []
      (initial [] parts.sender.base parts.health) file_starts here

abbrev decode : Bytes → Option Config
decode text = some (decoded (λ t. pos 5) (config_data agent.spec (pos 50)))

path_given : expand_log_path platform (file_path agent.spec.log_sources) ≡ "/var/log/syslog"
unfolding expand_log_path get_default_log_path file_path
path_given = refl

pod_reads_file_example :
    (c : Config) × (load_config platform
        (λ path. file_of (bytes "config.yaml") config_map.data_of)
        decode
        "/app/config/config.yaml"
      ≡ ok c)
    × (c.server_url ≡ "http://logs")
    × (reader_single (λ s. s) (λ s t. s) host c
        ≡ ok (file_reader (expand_log_path platform (file_path agent.spec.log_sources))))
pod_reads_file_example =
    pod_reads_file platform host (λ s. s) (λ s t. s)
      (λ path. file_of (bytes "config.yaml") config_map.data_of) decode in_order agent config_map
      (pos 50) (λ t. pos 5) refl refl config_map_made refl refl refl
      (λ e. ground (arith, eq_iff "http://logs" ""))
      (λ e. ground (arith, eq_iff "/var/log/syslog" "", path_given, e))

abbrev logs : List Bytes
logs = bytes "a" ∷ []

abbrev lines_of : Unmarshal
lines_of text = some logs

abbrev open_poster : Poster
open_poster = record poster { encryption = none }

unencrypted : IsOpen net open_poster lines_of logs (bytes "[\"a\"]")
unencrypted = record {
  bare = refl;
  plain = tt;
  marshals = refl;
  unmarshals = refl;
  reachable = refl;
}

plain_delivered_example :
    (req : Request) × (build_request net open_poster logs ≡ ok req)
    × (handle_plain lines_of req ≡ record { status = 200; logs = logs })
    × (handle_logs aead lines_of req ≡ record { status = 200; logs = logs })
plain_delivered_example = plain_delivered aead unencrypted
