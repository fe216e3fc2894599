-- ===== src/Telemetry.antt =====
-- pkg/telemetry/telemetry.go and pkg/observability/telemetry.go: which settings reach the
-- OpenTelemetry SDK, and when a tracer is made. The SDK is a parameter: `Sdk` says what its
-- constructors return, and `Tracer` is the type of `trace.Tracer`. A `float64` is its bit pattern, as
-- in Config.
pub mod Tracers
use tailpost.Base.{
  ℕ, Bool, true, false, not, List, [], ◌∷◌, ◌++◌, Option, none, some, String, eqs, if◌then◌else◌,
  Result, ok, err, ◌*◌,
}
use tailpost.Base.Int.{ℤ, pos, is_zero}
use tailpost.Config.{second, float_one, is_float_zero}
use tailpost.Config.Load.{or_default}

-- `Config` of pkg/telemetry.
pub record SetupConfig : Type 0 where
  pub service_name : String
  pub service_version : String
  pub exporter_type : String
  pub exporter_endpoint : String
  pub exporter_timeout : ℤ
  pub sampling_rate : ℕ
  pub propagate_contexts : Bool
  pub attributes : Option (List (String × String))
  pub disable_telemetry : Bool

-- `DefaultConfig`.
unfoldable pub default_config : SetupConfig
default_config = record {
  service_name = "tailpost";
  service_version = "0.1.0";
  exporter_type = "http";
  exporter_endpoint = "http://localhost:4318";
  exporter_timeout = pos (30 * second);
  sampling_rate = float_one;
  propagate_contexts = true;
  attributes = some [];
  disable_telemetry = false;
}

-- `TelemetryConfig` of pkg/observability.
pub record ManagerConfig : Type 0 where
  pub enabled : Bool
  pub service_name : String
  pub service_version : String
  pub exporter_type : String
  pub endpoint : String
  pub headers : Option (List (String × String))
  pub sampling_rate : ℕ
  pub batch_timeout : ℤ
  pub max_export_batch_size : ℤ
  pub max_queue_size : ℤ

-- The bits of 0.1.
abbrev pub float_tenth : ℕ
float_tenth = 0x3fb999999999999a

abbrev given_int : ℤ → ℕ → ℤ
given_int n d = if is_zero n then pos d else n

-- `SetDefaults`.
unfoldable pub set_defaults : ManagerConfig → ManagerConfig
set_defaults c = record {
  enabled = c.enabled;
  service_name = or_default c.service_name "tailpost-agent";
  service_version = or_default c.service_version "unknown";
  exporter_type = or_default c.exporter_type "grpc";
  endpoint = or_default c.endpoint "localhost:4317";
  headers = elim c.headers [ none ↦ some [] | some h ↦ some h ];
  sampling_rate = if is_float_zero c.sampling_rate then float_tenth else c.sampling_rate;
  batch_timeout = given_int c.batch_timeout (5 * second);
  max_export_batch_size = given_int c.max_export_batch_size 512;
  max_queue_size = given_int c.max_queue_size 2048;
}

-- The two protocols of `otlptrace`.
pub data Protocol : Type 0 where
  grpc http : Protocol

pub data TelemetryError : Type 0 where
  creating_resource creating_exporter unknown_exporter_type : TelemetryError

-- What the SDK does: `resource.New` of the attributes, `otlptrace.New` of a client for an endpoint
-- with headers, and the tracers that a provider, or the no-op provider, gives.
pub record Sdk : Type 1 where
  pub Tracer : Type 0
  pub new_resource : List (String × String) → Bool
  pub new_exporter : Protocol → String → List (String × String) → Bool
  pub provider_tracer : ManagerConfig → Tracer
  pub noop_tracer : Tracer

module _ (sdk : Sdk) where
  open sdk use {Tracer, new_resource, new_exporter, provider_tracer, noop_tracer}

  -- `TelemetryManager`; `tracer` is nil before `Start`.
  pub record Manager : Type 0 where
    pub config : ManagerConfig
    pub has_provider : Bool
    pub tracer : Option Tracer

  -- `NewTelemetryManager`.
  unfoldable pub new_telemetry_manager : ManagerConfig → Manager
  unfolding set_defaults
  new_telemetry_manager c = record { config = set_defaults c; has_provider = false; tracer = none }

  abbrev noop : Manager → Manager
  noop m = record m { tracer = some noop_tracer }

  abbrev headers_of : ManagerConfig → List (String × String)
  headers_of c = elim c.headers [ none ↦ [] | some h ↦ h ]

  -- The provider, once an exporter was asked for.
  unfoldable pub with_exporter : Bool → Manager → Result TelemetryError (Unit {0}) × Manager
  with_exporter made m =
      if made
      then (ok tt, record m { has_provider = true; tracer = some (provider_tracer m.config) })
      else (err creating_exporter, m)

  -- `TelemetryManager.Start`.
  unfoldable pub start : Manager → Result TelemetryError (Unit {0}) × Manager
  unfolding with_exporter
  start m =
      let c = m.config in
      let attributes =
        ("service.name", c.service_name)
        ∷ ("service.version", c.service_version)
        ∷ ("environment", "production")
        ∷ [] in
      if not c.enabled
      then (ok tt, noop m)
      else if not (new_resource attributes)
      then (err creating_resource, m)
      else if eqs c.exporter_type "grpc"
      then with_exporter (new_exporter grpc c.endpoint (headers_of c)) m
      else if eqs c.exporter_type "http"
      then with_exporter (new_exporter http c.endpoint (headers_of c)) m
      else if eqs c.exporter_type "none"
      then (ok tt, noop m)
      else (err unknown_exporter_type, m)

  -- `StartSpan`, and every other use of the tracer: a method of a nil interface panics.
  unfoldable pub start_span : Manager → Option Tracer
  start_span m = m.tracer

  -- What `telemetry.Setup` sets in the SDK: nothing, or a provider and perhaps a propagator.
  pub data Installed : Type 0 where
    nothing : Installed
    provider : SetupConfig → Bool → Installed

  -- `telemetry.Setup`.
  unfoldable pub setup : SetupConfig → Result TelemetryError Installed
  setup c =
      let attributes =
        ("service.name", c.service_name)
        ∷ ("service.version", c.service_version)
        ∷ (elim c.attributes [ none ↦ [] | some m ↦ m ]) in
      let protocol = if eqs c.exporter_type "grpc" then grpc else http in
      if c.disable_telemetry
      then ok nothing
      else if not (new_resource attributes)
      then err creating_resource
      else if not (new_exporter protocol c.exporter_endpoint [])
      then err creating_exporter
      else ok (provider c c.propagate_contexts)
