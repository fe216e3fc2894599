-- ===== src/Agent/Startup.antt =====
-- The start of the agent, in cmd/agent/main.go (`main`, `setupHealthServer`, `setupLogReader`,
-- `setupLogSender`) and in cmd/agent.go: from the loaded configuration to the running parts. A `Fatal` of
-- the logger ends the program, which is an error here. `Start` of the health server never fails.
pub mod Credentials
pub mod Made
pub mod Running
pub mod Bounded
pub mod Alike
use tailpost.Base.{
  ℕ, Bool, true, false, not, ◌||◌, Option, none, some, String, Bytes, bytes, eqs, if◌then◌else◌,
  Result, ok, err, ◌>>=◌, ◌>>◌, fail_if,
}
use tailpost.Base.Int.{ℤ, is_nonpos}
use tailpost.Config.{Config}
use tailpost.Config.Load.{Platform, ConfigError, load_config}
use tailpost.Security.Auth.{AuthError, AuthProvider}
use tailpost.Security.Encryption.{Ciphers, Env}
use tailpost.Security.Tls.{TlsEnv}
use tailpost.Reader.Factory.{Host, LogReader, FactoryError, new_reader}
use tailpost.Sender.{Sender, new_http_sender}
use tailpost.Sender.Secure.{SecureError, SecureSender, new_secure_http_sender}
use tailpost.Health.{HealthServer, new_health_server, new_secure_health_server}
use tailpost.Agent.{source_config, wants_secure_health, wants_secure_sender}
use tailpost.Telemetry.{Sdk, Manager}
use tailpost.Agent.Setup.{reader_single, setup_telemetry, setup_telemetry_single}

-- Why the agent does not start.
pub data StartError : Type 0 where
  loading_configuration : ConfigError → StartError
  creating_health_server : AuthError → StartError
  creating_reader : FactoryError → StartError
  starting_reader : StartError
  creating_sender : SecureError → StartError

abbrev pub wrap {ℓ} : {E F A : Type ℓ} → (E → F) → Result E A → Result F A
wrap f (ok a) = ok a
wrap f (err e) = err (f e)

module _ (tls_env : TlsEnv) (ciphers : Ciphers) (env : Env) (host : Host)
    (starts : LogReader → Bool) (sdk : Sdk) (otel_tracer : String → sdk.Tracer) where
  -- The sender without security features.
  abbrev pub plain_sender : Config → SecureSender tls_env ciphers env
  plain_sender c = record {
    base = new_http_sender (bytes c.server_url) c.batch_size c.flush_interval;
    client_tls = none;
    auth_provider = none;
    encryption_provider = none;
  }

  pub record Parts : Type 0 where
    pub config : Config
    pub health : HealthServer
    pub reader : LogReader
    pub sender : SecureSender tls_env ciphers env
    pub telemetry : Option (Manager sdk)
    pub tracer : Option sdk.Tracer

  -- A sender with the tracer that `SetTelemetryTracer` set.
  pub record TracedSender : Type 0 where
    pub sender : SecureSender tls_env ciphers env
    pub tracer : Option sdk.Tracer

  -- `setupHealthServer`.
  unfoldable pub setup_health_server : String → Config → Result StartError HealthServer
  unfolding wants_secure_health
  setup_health_server addr c =
      if wants_secure_health c
      then wrap creating_health_server (new_secure_health_server env.read_file addr c.security)
      else ok (new_health_server addr)

  unfoldable pub start_reader : LogReader → Result StartError (Unit {0})
  start_reader r = fail_if (not (starts r)) starting_reader

  -- `setupLogReader`.
  unfoldable pub setup_log_reader : Config → Result StartError LogReader
  unfolding new_reader source_config start_reader
  setup_log_reader c =
      wrap creating_reader (new_reader host (source_config c)) >>= λ r. start_reader r >> ok r

  -- "Create sender based on configuration", in both programs.
  unfoldable pub make_sender : Config → Result StartError (SecureSender tls_env ciphers env)
  unfolding wants_secure_sender
  make_sender c =
      if wants_secure_sender c
      then wrap creating_sender (new_secure_http_sender tls_env ciphers env c)
      else ok (plain_sender c)

  -- The tracer of the SDK that cmd/agent/main.go gives the sender, when there is a manager.
  abbrev pub global_tracer : Option (Manager sdk) → Option sdk.Tracer
  global_tracer none = none
  global_tracer (some m) = some (otel_tracer "tailpost.sender")

  -- The manager's own tracer, which cmd/agent.go gives it; it may be nil.
  abbrev pub manager_tracer : Option (Manager sdk) → Option sdk.Tracer
  manager_tracer none = none
  manager_tracer (some m) = m.tracer

  -- `setupLogSender`.
  unfoldable pub setup_log_sender : Option (Manager sdk) → Config → Result StartError TracedSender
  unfolding make_sender
  setup_log_sender m c = make_sender c >>= λ s. ok (record { sender = s; tracer = global_tracer m })

  -- `main` of cmd/agent/main.go, behind the configuration.
  unfoldable pub start_main : String → Config → Result StartError Parts
  unfolding setup_telemetry setup_health_server setup_log_reader setup_log_sender
  start_main addr c = do
    h ← setup_health_server addr c
    r ← setup_log_reader c
    t ← setup_log_sender (setup_telemetry sdk c) c
    ok (record {
      config = c;
      health = h;
      reader = r;
      sender = t.sender;
      telemetry = setup_telemetry sdk c;
      tracer = t.tracer;
    })

  -- The same of cmd/agent.go, which starts the reader behind the sender's making.
  unfoldable pub start_single :
      (String → String) → (String → String → String) → String → Config → Result StartError Parts
  unfolding setup_telemetry_single setup_health_server reader_single make_sender start_reader
  start_single to_lower concat addr c = do
    h ← setup_health_server addr c
    r ← wrap creating_reader (reader_single to_lower concat host c)
    s ← make_sender c
    u ← start_reader r
    ok (record {
      config = c;
      health = h;
      reader = r;
      sender = s;
      telemetry = setup_telemetry_single sdk c;
      tracer = manager_tracer (setup_telemetry_single sdk c);
    })

  -- With `LoadConfig` in front.
  unfoldable pub load_and_start :
      (Config → Result StartError Parts)
      → Platform
      → (Bytes → Option Config)
      → String
      → Result StartError Parts
  load_and_start start p unmarshal path = do
    c ← wrap loading_configuration (load_config p env.read_file unmarshal path)
    start c
