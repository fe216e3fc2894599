-- ===== src/Agent/Startup/Made.antt =====
-- What holds of the sender and the health server of an agent that has started.
use tailpost.Base.{
  ℕ, zero, suc, ◌<◌, Bool, true, false, not, [], Option, String, bytes, eqs, ◌≡◌, refl, ap, ◌∙◌,
  subst, arith, Result, ok, err, >>=-eq-ok, Bool-cases, inl, inr, none,
}
use tailpost.Base.Int.{ℤ, pos, negsuc, is_zero}
use tailpost.Config.{Config}
use tailpost.Security.Auth.{new_auth_provider, new_token_auth_provider}
use tailpost.Security.Encryption.{Ciphers, Env}
use tailpost.Security.Tls.{TlsEnv}
use tailpost.Reader.Factory.{Host, LogReader}
use tailpost.Sender.{Sender, new_http_sender}
use tailpost.Sender.Bounds.{IsBounded, limit, new-IsBounded}
use tailpost.Sender.Secure.{
  SecureSender, is_some, is_negative, new_secure_http_sender, new_secure_http_sender_parts,
}
use tailpost.Health.{HealthServer, new_health_server, new_secure_health_server, with_provider}
use tailpost.Agent.{wants_secure_health, wants_secure_sender}
use tailpost.Telemetry.{Sdk, Manager}
use tailpost.Agent.Startup.Credentials.{
  IsSecured, IsGuarded, new_secure_http_sender-IsSecured, new_secure_health_server-IsGuarded,
  plain-IsSecured, plain-IsGuarded,
}
use tailpost.Agent.Startup.{
  StartError, wrap, plain_sender, setup_health_server, make_sender, setup_log_sender, TracedSender,
}

pub wrap-eq-ok : {E F A : Type 0} (f : E → F) (r : Result E A) (a : A) → wrap f r ≡ ok a → r ≡ ok a
wrap-eq-ok f (ok x) a h = cc
wrap-eq-ok f (err e) a h = cc

-- A new sender with a positive batch size.
fresh-IsBounded :
    (s : Sender) (n : ℕ)
    → s.batch_size ≡ pos n
    → 0 < n
    → s.batch ≡ []
    → s.dispatched ≡ []
    → IsBounded n s
fresh-IsBounded s n size positive batch sent = record {
  size = size;
  pending = rw batch positive;
  handed = rw sent tt;
}

limit_positive :
    (z : ℤ) → is_zero z ≡ false → is_negative z ≡ false → (z ≡ pos (limit z)) × (0 < limit z)
limit_positive (pos zero) h k = cc
limit_positive (pos (suc n)) h k = (refl, omega arith)
limit_positive (negsuc n) h k = cc

module _ (tls_env : TlsEnv) (ciphers : Ciphers) (env : Env) where
  -- A sender with security features has the batch size of the configuration, which is not negative.
  secure_base :
      (c : Config) (s : SecureSender tls_env ciphers env)
      → new_secure_http_sender tls_env ciphers env c ≡ ok s
      → (s.base.batch_size ≡ c.batch_size)
        × (is_negative c.batch_size ≡ false)
        × (s.base.batch ≡ [])
        × (s.base.dispatched ≡ [])
  unfolding new_secure_http_sender
  secure_base c s h = ground arith

  -- Which protections a sender has.
  abbrev pub Protected : Config → SecureSender tls_env ciphers env → Type 0
  Protected c s =
      (is_some s.client_tls ≡ c.security.tls.enabled)
      × (is_some s.auth_provider ≡ not (eqs c.security.auth.type "none"))
      × (is_some s.encryption_provider ≡ c.security.encryption.enabled)

  module _ (host : Host) (starts : LogReader → Bool) (sdk : Sdk)
      (otel_tracer : String → sdk.Tracer) where
    pub make_sender-Protected :
        (c : Config) (s : SecureSender tls_env ciphers env)
        → make_sender tls_env ciphers env host starts sdk otel_tracer c ≡ ok s
        → Protected c s
    unfolding make_sender wants_secure_sender
    make_sender-Protected c s h = elim (Bool-cases (wants_secure_sender c)) [
      | inl e ↦
          new_secure_http_sender_parts tls_env ciphers env c s
            (wrap-eq-ok _ _ s (let h' = rw e at h in h'))
      | inr e ↦ ground arith
    ]

    pub make_sender-IsBounded :
        (c : Config) (s : SecureSender tls_env ciphers env)
        → is_zero c.batch_size ≡ false
        → make_sender tls_env ciphers env host starts sdk otel_tracer c ≡ ok s
        → IsBounded (limit c.batch_size) s.base
    unfolding make_sender
    make_sender-IsBounded c s nonzero h = elim (Bool-cases (wants_secure_sender c)) [
      | inl e ↦
          let made = wrap-eq-ok _ _ s (let h' = rw e at h in h') in
          let (same, positive, batch, sent) = secure_base c s made in
          let (size, bound) = limit_positive c.batch_size nonzero positive in
          fresh-IsBounded s.base (limit c.batch_size) (same ∙ size) bound batch sent
      | inr e ↦
          let plain : make_sender tls_env ciphers env host starts sdk otel_tracer c
              ≡ ok (plain_sender tls_env ciphers env host starts sdk otel_tracer c) =
            rw e refl in
          let same : plain_sender tls_env ciphers env host starts sdk otel_tracer c ≡ s = cc in
          subst (λ (x : SecureSender tls_env ciphers env). IsBounded (limit c.batch_size) x.base)
            same (new-IsBounded (bytes c.server_url) c.batch_size c.flush_interval)
    ]

    pub setup_health_server-guards :
        (addr : String) (c : Config) (v : HealthServer)
        → setup_health_server tls_env ciphers env host starts sdk otel_tracer addr c ≡ ok v
        → (v.use_tls ≡ c.security.tls.enabled)
          × (is_some v.auth_provider ≡ not (eqs c.security.auth.type "none"))
          × (v.ready ≡ false)
    unfolding setup_health_server wants_secure_health new_health_server new_secure_health_server
        with_provider new_auth_provider new_token_auth_provider
    setup_health_server-guards addr c v h = ground arith

    pub setup_log_sender-made :
        (m : Option (Manager sdk)) (c : Config)
        (t : TracedSender tls_env ciphers env host starts sdk otel_tracer)
        → setup_log_sender tls_env ciphers env host starts sdk otel_tracer m c ≡ ok t
        → make_sender tls_env ciphers env host starts sdk otel_tracer c ≡ ok t.sender
    unfolding setup_log_sender
    setup_log_sender-made m c t h =
        let (s, made, rest) =
          >>=-eq-ok (make_sender tls_env ciphers env host starts sdk otel_tracer c) _ h in
        made ∙ ap (sender_in s) rest
      where
        sender_in :
            SecureSender tls_env ciphers env
            → Result StartError (TracedSender tls_env ciphers env host starts sdk otel_tracer)
            → Result StartError (SecureSender tls_env ciphers env)
        sender_in s (ok x) = ok x.sender
        sender_in s (err e) = ok s

    unsecured :
        (c : Config)
        → wants_secure_sender c ≡ false
        → (eqs c.security.auth.type "none" ≡ true)
          × (c.security.tls.enabled ≡ false)
          × (c.security.encryption.enabled ≡ false)
    unfolding wants_secure_sender
    unsecured c h = (ground arith, ground arith, ground arith)

    plain_auth :
        (c : Config)
        → (plain_sender tls_env ciphers env host starts sdk otel_tracer c).auth_provider ≡ none
    plain_auth c = refl

    plain_url :
        (c : Config)
        → (plain_sender tls_env ciphers env host starts sdk otel_tracer c).base.server_url
          ≡ bytes c.server_url
    unfolding new_http_sender
    plain_url c = refl

    pub make_sender-IsSecured :
        (c : Config) (s : SecureSender tls_env ciphers env)
        → make_sender tls_env ciphers env host starts sdk otel_tracer c ≡ ok s
        → IsSecured tls_env ciphers env c s
    unfolding make_sender
    make_sender-IsSecured c s h = elim (Bool-cases (wants_secure_sender c)) [
      | inl e ↦
          new_secure_http_sender-IsSecured tls_env ciphers env c s
            (wrap-eq-ok _ _ s (let h' = rw e at h in h'))
      | inr e ↦
          let (auth, tls, key) = unsecured c e in
          let same : plain_sender tls_env ciphers env host starts sdk otel_tracer c ≡ s =
            (let h' = rw e at h in cc) in
          subst (IsSecured tls_env ciphers env c) same
            (plain-IsSecured tls_env ciphers env c _ auth tls key (plain_url c) (plain_auth c))
    ]

    unguarded :
        (c : Config)
        → wants_secure_health c ≡ false
        → (eqs c.security.auth.type "none" ≡ true) × (c.security.tls.enabled ≡ false)
    unfolding wants_secure_health
    unguarded c h = (ground arith, ground arith)

    pub setup_health_server-IsGuarded :
        (addr : String) (c : Config) (v : HealthServer)
        → setup_health_server tls_env ciphers env host starts sdk otel_tracer addr c ≡ ok v
        → IsGuarded env.read_file addr c.security v
    unfolding setup_health_server
    setup_health_server-IsGuarded addr c v h = elim (Bool-cases (wants_secure_health c)) [
      | inl e ↦
          new_secure_health_server-IsGuarded env.read_file addr c.security v
            (wrap-eq-ok _ _ v (let h' = rw e at h in h'))
      | inr e ↦
          let (auth, tls) = unguarded c e in
          let same : new_health_server addr ≡ v = (let h' = rw e at h in cc) in
          subst (IsGuarded env.read_file addr c.security) same
            (plain-IsGuarded env.read_file addr c.security auth tls)
    ]
