-- ===== src/Security/Auth.antt =====
-- pkg/security/auth.go: the providers and their constructor.
pub mod RoundTrip
use tailpost.Base.{
  ℕ, Bool, true, false, ◌&&◌, List, [], ◌∷◌, ◌++◌, map, Option, none, some, String, Bytes, bytes,
  eqs, equal, if◌then◌else◌, Result, ok, err,
}
use tailpost.Config.{AuthConfig}
use tailpost.Http.{Request}
use tailpost.Http.Headers.{Header, get, set}
use tailpost.Security.Base64
use tailpost.Security.Text.{strip_prefix, split_once, trim_space}

-- The client credentials that golang.org/x/oauth2 makes a token source of.
pub record OauthClient : Type 0 where
  pub client_id : String
  pub client_secret : String
  pub token_url : String
  pub scopes : List String

-- `AuthProvider`, with a constructor for each type that implements it.
pub data AuthProvider : Type 0 where
  basic : Bytes → Bytes → AuthProvider
  token : Bytes → AuthProvider
  oauth2 : OauthClient → AuthProvider
  header : List (Bytes × Bytes) → AuthProvider

pub data AuthError : Type 0 where
  reading_token_file getting_oauth2_token decoding_header not_implemented unsupported_type :
      AuthError

abbrev pub authorization : Bytes
authorization = bytes "Authorization"

abbrev pub basic_prefix : Bytes
basic_prefix = bytes "Basic "

abbrev pub bearer_prefix : Bytes
bearer_prefix = bytes "Bearer "

-- The loop over the map of headers.
unfoldable pub set_all : List (Bytes × Bytes) → Header → Header
set_all [] h = h
set_all ((k, v) ∷ kvs) h = set_all kvs (set k v h)

unfoldable pub all_match : List (Bytes × Bytes) → Header → Bool
all_match [] h = true
all_match ((k, v) ∷ kvs) h = let rest = all_match kvs h in if equal (get k h) v then rest else false

-- `p.tokenSource.Token()`, with `token.SetAuthHeader` of the token that it got.
abbrev pub FetchToken : Type 0
FetchToken = OauthClient → Option (Header → Header)

-- `AddAuthentication` of each provider.
unfoldable pub add_authentication : FetchToken → AuthProvider → Request → Result AuthError Request
unfolding set_all
add_authentication fetch (basic username password) req =
    let auth = username ++ (b':' ∷ password) in
    ok (record req { header = set authorization (basic_prefix ++ Base64.encode auth) req.header })
add_authentication fetch (token t) req =
    ok (record req { header = set authorization (bearer_prefix ++ t) req.header })
add_authentication fetch (oauth2 client) req = elim (fetch client) [
  | none ↦ err getting_oauth2_token
  | some set_auth_header ↦ ok (record req { header = set_auth_header req.header })
]
add_authentication fetch (header headers) req =
    ok (record req { header = set_all headers req.header })

-- What `BasicAuthProvider.Authenticate` does behind the prefix, step by step.
unfoldable pub check_pair : Bytes → Bytes → Option (Bytes × Bytes) → Bool
check_pair username password none = false
check_pair username password (some (u, p)) = equal u username && equal p password

unfoldable pub check_payload : Bytes → Bytes → Option Bytes → Result AuthError Bool
unfolding check_pair
check_payload username password none = err decoding_header
check_payload username password (some payload) =
    ok (check_pair username password (split_once b':' payload))

unfoldable pub check_basic : Bytes → Bytes → Option Bytes → Result AuthError Bool
unfolding check_payload
check_basic username password none = ok false
check_basic username password (some encoded) =
    check_payload username password (Base64.decode encoded)

unfoldable pub check_token : Bytes → Option Bytes → Bool
check_token t none = false
check_token t (some sent) = equal sent t

-- `Authenticate` of each provider.
unfoldable pub authenticate : AuthProvider → Request → Result AuthError Bool
unfolding check_basic check_token all_match
authenticate (basic username password) req =
    check_basic username password (strip_prefix basic_prefix (get authorization req.header))
authenticate (token t) req =
    ok (check_token t (strip_prefix bearer_prefix (get authorization req.header)))
authenticate (oauth2 client) req = err not_implemented
authenticate (header headers) req = ok (all_match headers req.header)

-- `os.ReadFile`.
abbrev pub ReadFile : Type 0
ReadFile = String → Option Bytes

-- `NewTokenAuthProvider`.
unfoldable pub new_token_auth_provider : ReadFile → String → Result AuthError AuthProvider
new_token_auth_provider read_file path = elim (read_file path) [
  | none ↦ err reading_token_file
  | some text ↦ ok (token (trim_space text))
]

abbrev pub byte_pair : String × String → Bytes × Bytes
byte_pair (k, v) = (bytes k, bytes v)

abbrev present : Result AuthError AuthProvider → Result AuthError (Option AuthProvider)
present (ok p) = ok (some p)
present (err e) = err e

-- `NewAuthProvider`; `none` is the nil provider.
unfoldable pub new_auth_provider : ReadFile → AuthConfig → Result AuthError (Option AuthProvider)
unfolding new_token_auth_provider
new_auth_provider read_file c =
    if eqs c.type "none"
    then ok none
    else if eqs c.type "basic"
    then ok (some (basic (bytes c.username) (bytes c.password)))
    else if eqs c.type "token"
    then present (new_token_auth_provider read_file c.token_file)
    else if eqs c.type "oauth2"
    then ok (
        some (
          oauth2 (record {
            client_id = c.client_id;
            client_secret = c.client_secret;
            token_url = c.token_url;
            scopes = c.scopes;
          })))
    else if eqs c.type "header"
    then ok (some (header (map byte_pair c.headers)))
    else err unsupported_type
