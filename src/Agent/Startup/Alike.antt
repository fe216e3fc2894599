-- ===== src/Agent/Startup/Alike.antt =====
-- The two programs of the agent start the same parts.
use tailpost.Base.{Bool, String, ◌≡◌, Result, ok, ◌>>=◌, ◌>>◌}
use tailpost.Config.{Config}
use tailpost.Security.Encryption.{Ciphers, Env}
use tailpost.Security.Tls.{TlsEnv}
use tailpost.Reader.Factory.{Host, LogReader}
use tailpost.Agent.Setup.{setup_telemetry, setup_telemetry_single}
use tailpost.Agent.Startup.{Parts, global_tracer, manager_tracer}
use tailpost.Telemetry.{Sdk}

-- Calls that do not depend on each other, in either order, with what is made of their values.
module _ {E X Y Z T V W : Type 0} (give : Z → T) (k : X → Y → T → V) (m : X → Y → Z → W)
    (there : V → W) (back : W → V) (to : (x : X) (y : Y) (z : Z) → there (k x y (give z)) ≡ m x y z)
    (from : (x : X) (y : Y) (z : Z) → back (m x y z) ≡ k x y (give z)) where
  -- The reader is started before the sender is made, or behind that.
  abbrev Alike : Result E X → (Y → Result E (Unit {0})) → Result E Y → Result E Z → Type 0
  Alike h start r s =
      ((v : V)
        → (h >>= λ x.
            (r >>= λ y. start y >> ok y) >>= λ y. (s >>= λ z. ok (give z)) >>= λ t. ok (k x y t))
          ≡ ok v
        → (h >>= λ x. r >>= λ y. s >>= λ z. start y >>= λ u. ok (m x y z)) ≡ ok (there v))
      × ((w : W)
          → (h >>= λ x. r >>= λ y. s >>= λ z. start y >>= λ u. ok (m x y z)) ≡ ok w
          → (h >>= λ x.
              (r >>= λ y. start y >> ok y) >>= λ y. (s >>= λ z. ok (give z)) >>= λ t. ok (k x y t))
            ≡ ok (back w))

module _ (tls_env : TlsEnv) (ciphers : Ciphers) (env : Env) (host : Host)
    (starts : LogReader → Bool) (sdk : Sdk) (otel_tracer : String → sdk.Tracer) where
  -- The parts with the telemetry of the other program.
  abbrev pub as_single :
      Config
      → Parts tls_env ciphers env host starts sdk otel_tracer
      → Parts tls_env ciphers env host starts sdk otel_tracer
  as_single c parts = record parts {
    telemetry = setup_telemetry_single sdk c;
    tracer =
        manager_tracer tls_env ciphers env host starts sdk otel_tracer
          (setup_telemetry_single sdk c);
  }

  abbrev pub as_main :
      Config
      → Parts tls_env ciphers env host starts sdk otel_tracer
      → Parts tls_env ciphers env host starts sdk otel_tracer
  as_main c parts = record parts {
    telemetry = setup_telemetry sdk c;
    tracer = global_tracer tls_env ciphers env host starts sdk otel_tracer (setup_telemetry sdk c);
  }
