-- ===== src/Sender/Post.antt =====
-- `sendBatchWithContext` of pkg/sender/http_sender.go: one batch, from lines to the server's answer.
pub mod Outcome
use tailpost.Base.{
  ℕ, Bool, true, false, not, ◌&&◌, ◌||◌, List, [], ◌∷◌, ◌++◌, Option, none, some, Bytes, bytes, leb,
  ltb, if◌then◌else◌, Result, ok, err, ◌>>=◌,
}
use tailpost.Http.{Request, Answer}
use tailpost.Http.Headers.{Header, set}
use tailpost.Security.Auth.{AuthProvider, FetchToken, add_authentication}
use tailpost.Security.Encryption.{EncryptionProvider, encrypt}

-- What the code calls outside: `json.Marshal` of a list of strings, the random bytes of the nonce,
-- the URLs that `http.NewRequest` accepts, the token source, and `client.Do`.
pub record Net : Type 0 where
  pub marshal : List Bytes → Option Bytes
  pub random : Option Bytes
  pub valid_url : Bytes → Bool
  pub fetch : FetchToken
  pub transport : Request → Option Answer

-- The fields of an `HTTPSender` that sending uses.
pub record Poster : Type 0 where
  pub server_url : Bytes
  pub encryption : Option EncryptionProvider
  pub auth : Option AuthProvider

pub data SendError : Type 0 where
  marshaling encrypting creating_request authentication sending non_success_status : SendError

abbrev pub content_type : Bytes
content_type = bytes "Content-Type"

abbrev pub x_encrypted : Bytes
x_encrypted = bytes "X-Encrypted"

abbrev pub x_key_id : Bytes
x_key_id = bytes "X-Key-ID"

abbrev pub octet_stream : Bytes
octet_stream = bytes "application/octet-stream"

abbrev pub json_type : Bytes
json_type = bytes "application/json"

abbrev pub true_text : Bytes
true_text = bytes "true"

-- `json.Marshal(logs)`.
unfoldable pub marshal_logs : Net → List Bytes → Result SendError Bytes
marshal_logs net logs = elim (net.marshal logs) [ none ↦ err marshaling | some text ↦ ok text ]

-- "Encrypt data if encryption is enabled".
unfoldable pub seal_body : Net → Option EncryptionProvider → Bytes → Result SendError Bytes
seal_body net none text = ok text
seal_body net (some p) text = elim (encrypt p net.random text) [
  | err e ↦ err encrypting
  | ok sealed ↦ ok sealed
]

-- The headers that say what the body is.
unfoldable pub describe : Option EncryptionProvider → Header → Header
describe none h = set content_type json_type h
describe (some p) h =
    set x_key_id p.key_id (set x_encrypted true_text (set content_type octet_stream h))

-- `http.NewRequestWithContext(ctx, "POST", …)`.
unfoldable pub new_request : Net → Bytes → Bytes → Result SendError Request
new_request net url body =
    if net.valid_url url
    then ok (record { method = bytes "POST"; url = url; header = []; body = body })
    else err creating_request

-- "Add authentication if configured".
unfoldable pub authenticated : Net → Option AuthProvider → Request → Result SendError Request
authenticated net none req = ok req
authenticated net (some p) req = elim (add_authentication net.fetch p req) [
  | err e ↦ err authentication
  | ok req' ↦ ok req'
]

-- Everything up to `client.Do`.
unfoldable pub build_request : Net → Poster → List Bytes → Result SendError Request
build_request net p logs = do
  text ← marshal_logs net logs
  body ← seal_body net p.encryption text
  req ← new_request net p.server_url body
  authenticated net p.auth (record req { header = describe p.encryption req.header })

-- The answer is judged by its status.
unfoldable pub judge : Option Answer → Result SendError (Unit {0})
judge none = err sending
judge (some a) = if ltb a.status 200 || leb 300 a.status then err non_success_status else ok tt

-- `sendBatchWithContext`.
unfoldable pub send_batch : Net → Poster → List Bytes → Result SendError (Unit {0})
unfolding judge
send_batch net p logs = do req ← build_request net p logs; judge (net.transport req)
