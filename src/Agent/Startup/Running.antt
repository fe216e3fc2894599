-- ===== src/Agent/Startup/Running.antt =====
-- What holds of an agent that has started.
use tailpost.Base.{
  Bool, true, false, not, Option, String, Bytes, eqs, ◌≡◌, refl, sym, ap, ◌∙◌, subst, arith, Result,
  ok, ◌>>◌, >>=-eq-ok, Bool-cases,
}
use tailpost.Config.{Config}
use tailpost.Config.Load.{Platform, load_config}
use tailpost.Config.Load.Valid.{IsValid, load_config-IsValid}
use tailpost.Security.Encryption.{Ciphers, Env}
use tailpost.Security.Tls.{TlsEnv}
use tailpost.Reader.Factory.{Host, LogReader, new_reader}
use tailpost.Sender.Bounds.{IsBounded, limit}
use tailpost.Sender.Secure.{is_some}
use tailpost.Agent.{source_config}
use tailpost.Telemetry.{Sdk}
use tailpost.Agent.Setup.{setup_telemetry}
use tailpost.Agent.Startup.Credentials.{IsSecured, IsGuarded}
use tailpost.Agent.Startup.{
  StartError, wrap, Parts, setup_health_server, start_reader, setup_log_reader, setup_log_sender,
  start_main, load_and_start,
}
use tailpost.Agent.Startup.Made.{
  Protected, make_sender-Protected, make_sender-IsBounded, make_sender-IsSecured,
  setup_health_server-guards, setup_health_server-IsGuarded, setup_log_sender-made, wrap-eq-ok,
}

module _ (tls_env : TlsEnv) (ciphers : Ciphers) (env : Env) where
  module _ (host : Host) (starts : LogReader → Bool) (sdk : Sdk)
      (otel_tracer : String → sdk.Tracer) where
    -- What holds of the parts when `main` has started them.
    pub record IsRunning (p : Platform) (addr : String)
        (parts : Parts tls_env ciphers env host starts sdk otel_tracer) : Type 0 where
      pub configured : IsValid p parts.config
      pub reading : new_reader host (source_config parts.config) ≡ ok parts.reader
      pub started : starts parts.reader ≡ true
      pub protected : Protected tls_env ciphers env parts.config parts.sender
      pub bounded : IsBounded (limit parts.config.batch_size) parts.sender.base
      pub health_tls : parts.health.use_tls ≡ parts.config.security.tls.enabled
      pub health_auth :
          is_some parts.health.auth_provider ≡ not (eqs parts.config.security.auth.type "none")
      pub unready : parts.health.ready ≡ false
      pub secured : IsSecured tls_env ciphers env parts.config parts.sender
      pub guarded : IsGuarded env.read_file addr parts.config.security parts.health

    same_parts :
        (v w : Parts tls_env ciphers env host starts sdk otel_tracer)
        (r : Result StartError (Parts tls_env ciphers env host starts sdk otel_tracer))
        → r ≡ ok v
        → r ≡ ok w
        → v ≡ w
    same_parts v w r h k = cc

    start_reader-ok :
        (x r : LogReader)
        → (start_reader tls_env ciphers env host starts sdk otel_tracer x >> ok x) ≡ ok r
        → (x ≡ r) × (starts x ≡ true)
    unfolding start_reader
    start_reader-ok x r h = ground (arith, Bool-cases (starts x))

    setup_log_reader-starts :
        (c : Config) (r : LogReader)
        → setup_log_reader tls_env ciphers env host starts sdk otel_tracer c ≡ ok r
        → (new_reader host (source_config c) ≡ ok r) × (starts r ≡ true)
    unfolding setup_log_reader
    setup_log_reader-starts c r h =
        let (x, made, rest) = >>=-eq-ok (wrap _ (new_reader host (source_config c))) _ h in
        let (same, on) = start_reader-ok x r rest in
        (wrap-eq-ok _ _ x made ∙ ap (λ (y : LogReader). ok y) same, ap starts (sym same) ∙ on)

    -- The agent of cmd/agent/main.go, once its parts are made of a valid configuration.
    start_main-IsRunning :
        (p : Platform) (addr : String) (c : Config)
        (parts : Parts tls_env ciphers env host starts sdk otel_tracer)
        → IsValid p c
        → start_main tls_env ciphers env host starts sdk otel_tracer addr c ≡ ok parts
        → IsRunning p addr parts
    unfolding start_main
    start_main-IsRunning p addr c parts valid h =
        let (v, health, h1) =
          >>=-eq-ok (setup_health_server tls_env ciphers env host starts sdk otel_tracer addr c) _
            h in
        let (r, reader, h2) =
          >>=-eq-ok (setup_log_reader tls_env ciphers env host starts sdk otel_tracer c) _ h1 in
        let (t, given, h3) =
          >>=-eq-ok
            (setup_log_sender tls_env ciphers env host starts sdk otel_tracer
              (setup_telemetry sdk c) c)
            _ h2 in
        let made_sender =
          setup_log_sender-made tls_env ciphers env host starts sdk otel_tracer
            (setup_telemetry sdk c) c t given in
        let (tls, auth, unready) =
          setup_health_server-guards tls_env ciphers env host starts sdk otel_tracer addr c v
            health in
        let (reading, on) = setup_log_reader-starts c r reader in
        let made : Parts tls_env ciphers env host starts sdk otel_tracer = record {
          config = c;
          health = v;
          reader = r;
          sender = t.sender;
          telemetry = setup_telemetry sdk c;
          tracer = t.tracer;
        } in
        let same : made ≡ parts = same_parts made parts _ refl h3 in
        subst (IsRunning p addr) same (record {
          configured = valid;
          reading = reading;
          started = on;
          protected =
              make_sender-Protected tls_env ciphers env host starts sdk otel_tracer c t.sender
                made_sender;
          bounded =
              make_sender-IsBounded tls_env ciphers env host starts sdk otel_tracer c t.sender
                valid.batch_size made_sender;
          health_tls = tls;
          health_auth = auth;
          unready = unready;
          secured =
              make_sender-IsSecured tls_env ciphers env host starts sdk otel_tracer c t.sender
                made_sender;
          guarded =
              setup_health_server-IsGuarded tls_env ciphers env host starts sdk otel_tracer addr c v
                health;
        })

    pub load_and_start-IsRunning :
        (p : Platform) (unmarshal : Bytes → Option Config) (addr path : String)
        (parts : Parts tls_env ciphers env host starts sdk otel_tracer)
        → load_and_start tls_env ciphers env host starts sdk otel_tracer
            (start_main tls_env ciphers env host starts sdk otel_tracer addr)
            p
            unmarshal
            path
          ≡ ok parts
        → IsRunning p addr parts
    unfolding load_and_start
    load_and_start-IsRunning p unmarshal addr path parts h =
        let (c, loaded, rest) =
          >>=-eq-ok (wrap _ (load_config p env.read_file unmarshal path)) _ h in
        start_main-IsRunning p addr c parts
          (load_config-IsValid p env.read_file unmarshal path c (wrap-eq-ok _ _ c loaded)) rest
