-- ===== src/Agent/Startup/Bounded.antt =====
-- The batches of an agent from its start to its end.
use tailpost.Base.{Bool, List, Option, String, Bytes, ◌≡◌, ok}
use tailpost.Config.{Config}
use tailpost.Config.Load.{Platform}
use tailpost.Security.Encryption.{Ciphers, Env}
use tailpost.Security.Tls.{TlsEnv}
use tailpost.Reader.Factory.{Host, LogReader}
use tailpost.Sender.Bounds.{IsBounded, limit, step-IsBounded}
use tailpost.Agent.Startup.{Parts, start_main, load_and_start}
use tailpost.Agent.Startup.Running.{load_and_start-IsRunning}
use tailpost.Agent.Pipeline.{agent_main, Pipeline, Reach, initial}
use tailpost.Agent.Pipeline.Delivery.{Reach-keeps}
use tailpost.Telemetry.{Sdk}

-- From the configuration file to the shutdown, the agent of cmd/agent/main.go hands over no empty
-- batch and none that is longer than the configured batch size, and keeps fewer pending lines than that:
-- whatever the file held, if the agent starts with it, every state that its goroutines reach has this.
pub started-IsBounded :
    (tls_env : TlsEnv) (ciphers : Ciphers) (env : Env) (host : Host) (starts : LogReader → Bool)
    (sdk : Sdk) (otel_tracer : String → sdk.Tracer) (p : Platform)
    (unmarshal : Bytes → Option Config) (addr path : String)
    (parts : Parts tls_env ciphers env host starts sdk otel_tracer) (closes : Bool)
    (lines : List Bytes) (w : Pipeline)
    → load_and_start tls_env ciphers env host starts sdk otel_tracer
        (start_main tls_env ciphers env host starts sdk otel_tracer addr)
        p
        unmarshal
        path
      ≡ ok parts
    → Reach agent_main closes (initial lines parts.sender.base parts.health) w
    → IsBounded (limit parts.config.batch_size) w.sender
started-IsBounded tls_env ciphers env host starts sdk otel_tracer p unmarshal addr path parts closes
      lines w h r =
    let running =
      load_and_start-IsRunning tls_env ciphers env host starts sdk otel_tracer p unmarshal addr path
        parts h in
    let n = limit parts.config.batch_size in
    Reach-keeps (IsBounded n) (step-IsBounded n) r running.bounded
