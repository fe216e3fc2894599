-- ===== src/Health.antt =====
-- pkg/http/health.go: the server of the probes. A handler is a function from requests to answers;
-- the lock makes reads and writes of `ready` single steps. `now` is the formatted time.
pub mod Access
pub mod Lifecycle
use tailpost.Base.{
  ℕ, Bool, true, false, not, List, [], ◌∷◌, ◌++◌, Option, none, some, String, Bytes, bytes, eqs,
  equal, if◌then◌else◌, Result, ok, err,
}
use tailpost.Config.{SecurityConfig}
use tailpost.Http.{Request, Answer}
use tailpost.Security.Auth.{AuthProvider, AuthError, ReadFile, authenticate, new_auth_provider}

pub record HealthServer : Type 0 where
  pub listen_addr : String
  pub ready : Bool
  pub auth_provider : Option AuthProvider
  pub use_tls : Bool
  pub cert_file : String
  pub key_file : String

-- `NewHealthServer`.
unfoldable pub new_health_server : String → HealthServer
new_health_server addr = record {
  listen_addr = addr;
  ready = false;
  auth_provider = none;
  use_tls = false;
  cert_file = "";
  key_file = "";
}

unfoldable pub with_provider : String → SecurityConfig → Option AuthProvider → HealthServer
with_provider addr c provider = record {
  listen_addr = addr;
  ready = false;
  auth_provider = provider;
  use_tls = c.tls.enabled;
  cert_file = if c.tls.enabled then c.tls.cert_file else "";
  key_file = if c.tls.enabled then c.tls.key_file else "";
}

-- `NewSecureHealthServer`.
unfoldable pub new_secure_health_server :
    ReadFile → String → SecurityConfig → Result AuthError HealthServer
unfolding with_provider
new_secure_health_server read_file addr c =
    if not (eqs c.auth.type "none")
    then elim (new_auth_provider read_file c.auth) [
      | err e ↦ err e
      | ok provider ↦ ok (with_provider addr c provider)
    ]
    else ok (with_provider addr c none)

abbrev pub Handler : Type 0
Handler = Request → Answer

-- `http.Error`, which ends the text with a newline.
unfoldable pub http_error : String → ℕ → Answer
http_error text status = record { status = status; body = bytes text ++ (b'\n' ∷ []) }

-- What the wrapped handler does with the verdict.
unfoldable pub admit : Handler → Request → Result AuthError Bool → Answer
unfolding http_error
admit handler r (err e) = http_error "Authentication error" 500
admit handler r (ok false) = http_error "Unauthorized" 401
admit handler r (ok true) = handler r

-- `withAuth`.
unfoldable pub with_auth : Option AuthProvider → Handler → Handler
with_auth none handler = handler
with_auth (some provider) handler = λ r. admit handler r (authenticate provider r)

-- The JSON that the encoder writes for a `HealthStatus` without `info`.
unfoldable pub encode_status : String → Bytes → Bytes
encode_status status now =
    bytes "{\"status\":\""
    ++ (bytes status
        ++ (bytes "\",\"timestamp\":\"" ++ (now ++ bytes "\",\"version\":\"1.0.0\"}\n")))

-- `healthHandler`.
unfoldable pub health_handler : Bytes → Handler
health_handler now r = record { status = 200; body = encode_status "ok" now }

-- `readyHandler`.
unfoldable pub ready_handler : Bool → Bytes → Handler
ready_handler ready now r =
    if ready
    then record { status = 200; body = encode_status "ready" now }
    else record { status = 503; body = encode_status "not ready" now }

-- `metricsHandler`, with writes that do not fail.
unfoldable pub metrics_handler : Handler
metrics_handler r = record {
  status = 200;
  body =
      bytes "# HELP tailpost_up Whether the Tailpost agent is running\n"
      ++ (bytes "# TYPE tailpost_up gauge\n" ++ bytes "tailpost_up 1\n");
}

-- The mux of `Start`, which answers any other path with 404.
unfoldable pub serve : HealthServer → Bytes → Handler
unfolding http_error
serve s now r =
    if equal r.url (bytes "/health")
    then with_auth s.auth_provider (health_handler now) r
    else if equal r.url (bytes "/ready")
    then with_auth s.auth_provider (ready_handler s.ready now) r
    else if equal r.url (bytes "/metrics")
    then with_auth s.auth_provider metrics_handler r
    else http_error "404 page not found" 404

-- `SetReady` and `IsReady`.
unfoldable pub set_ready : Bool → HealthServer → HealthServer
set_ready ready s = record s { ready = ready }

unfoldable pub is_ready : HealthServer → Bool
is_ready s = s.ready
