-- ===== src/Health/Access.antt =====
-- Who gets which answer.
use tailpost.Base.{
  Bool, true, false, [], none, some, ◌≡◌, ◌⊎◌, inl, inr, refl, arith, Bytes, bytes, equal,
  if◌then◌else◌, Result, ok, err, ap, ◌∙◌,
}
use tailpost.Http.{Request, Answer}
use tailpost.Http.Headers.{get, lookup}
use tailpost.Security.Auth.{
  AuthProvider, basic, token, oauth2, OauthClient, AuthError, authenticate, check_basic,
  check_token,
}
use tailpost.Security.Text.{strip_prefix}
use tailpost.Health.{
  HealthServer, Handler, http_error, admit, with_auth, ready_handler, serve, set_ready,
}

-- The path has a handler.
abbrev pub IsServed : Bytes → Type 0
IsServed url = (url ≡ bytes "/health") ⊎ (url ≡ bytes "/ready") ⊎ (url ≡ bytes "/metrics")

-- `/ready` is answered with 200 while the server is marked ready and with 503 while it is not, to a
-- request that the server lets in.
pub ready_status :
    (s : HealthServer) (now : Bytes) (ready : Bool) (r : Request)
    → s.auth_provider ≡ none
    → r.url ≡ bytes "/ready"
    → (serve (set_ready ready s) now r).status ≡ (if ready then 200 else 503)
unfolding serve set_ready with_auth ready_handler equal
ready_status s now ready r open_to_all at = rw (at, open_to_all) (ground arith)

-- What is answered for a verdict, `a` being the answer without a provider.
abbrev pub expected : Result AuthError Bool → Answer → Answer
expected (ok true) a = a
expected (ok false) a = http_error "Unauthorized" 401
expected (err e) a = http_error "Authentication error" 500

admit-expected :
    (handler : Handler) (r : Request) (v : Result AuthError Bool)
    → admit handler r v ≡ expected v (handler r)
unfolding admit
admit-expected handler r (ok true) = refl
admit-expected handler r (ok false) = refl
admit-expected handler r (err e) = refl

tests_health : (u : Bytes) → u ≡ bytes "/health" → equal u (bytes "/health") ≡ true
unfolding equal
tests_health u at = rw at refl

tests_ready :
    (u : Bytes)
    → u ≡ bytes "/ready"
    → (equal u (bytes "/health") ≡ false) × (equal u (bytes "/ready") ≡ true)
unfolding equal
tests_ready u at = (rw at refl, rw at refl)

tests_metrics :
    (u : Bytes)
    → u ≡ bytes "/metrics"
    → (equal u (bytes "/health") ≡ false)
      × (equal u (bytes "/ready") ≡ false)
      × (equal u (bytes "/metrics") ≡ true)
unfolding equal
tests_metrics u at = (rw at refl, rw at refl, rw at refl)

-- A server with a provider answers a path that it serves as the same server without one does, if
-- the provider lets the request in, with 401 if the provider refuses it, and with 500 if the
-- provider fails.
pub serve-auth :
    (s : HealthServer) (p : AuthProvider) (now : Bytes) (r : Request)
    → s.auth_provider ≡ some p
    → IsServed r.url
    → serve s now r ≡ expected (authenticate p r) (serve (record s { auth_provider = none }) now r)
unfolding serve with_auth
serve-auth s p now r guarded (inl at) =
    let t = tests_health r.url at in rw (t, guarded) (admit-expected _ r _)
serve-auth s p now r guarded (inr (inl at)) =
    let (t, u) = tests_ready r.url at in rw (t, u, guarded) (admit-expected _ r _)
serve-auth s p now r guarded (inr (inr at)) =
    let (t, u, v) = tests_metrics r.url at in rw (t, u, v, guarded) (admit-expected _ r _)

-- A server with OAuth2 answers every path that it serves with 500, whoever asks.
oauth2_always_fails :
    (s : HealthServer) (client : OauthClient) (now : Bytes) (r : Request)
    → s.auth_provider ≡ some (oauth2 client)
    → IsServed r.url
    → (serve s now r).status ≡ 500
unfolding authenticate http_error
oauth2_always_fails s client now r guarded served =
    rw (serve-auth s (oauth2 client) now r guarded served)

basic_bare : (a b : Bytes) (r : Request) → r.header ≡ [] → authenticate (basic a b) r ≡ ok false
unfolding authenticate check_basic get lookup strip_prefix
basic_bare a b r bare = rw bare refl

token_bare : (a : Bytes) (r : Request) → r.header ≡ [] → authenticate (token a) r ≡ ok false
unfolding authenticate check_token get lookup strip_prefix
token_bare a r bare = rw bare refl

-- A probe without headers, such as Kubernetes sends, is refused under basic authentication and
-- under a token.
probe_refused :
    (s : HealthServer) (p : AuthProvider) (now : Bytes) (r : Request) (a b : Bytes)
    → s.auth_provider ≡ some p
    → (p ≡ basic a b) ⊎ (p ≡ token a)
    → IsServed r.url
    → r.header ≡ []
    → (serve s now r).status ≡ 401
unfolding http_error
probe_refused s p now r a b guarded kind served bare =
    rw (serve-auth s p now r guarded served) (rw (refused kind))
  where
    refused : (p ≡ basic a b) ⊎ (p ≡ token a) → authenticate p r ≡ ok false
    refused (inl e) = ap (λ q. authenticate q r) e ∙ basic_bare a b r bare
    refused (inr e) = ap (λ q. authenticate q r) e ∙ token_bare a r bare
