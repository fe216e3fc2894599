-- ===== src/MockServer/Plain.antt =====
-- test/mock/mock_server.go: the server without decryption. As for the other one, `json.Unmarshal` is
-- an argument, and the body of a request is read without a failure.
use tailpost.Base.{
  true, false, not, List, [], Option, none, some, ◌≡◌, refl, Bytes, bytes, equal, if◌then◌else◌,
  Result, ok, err, ◌∙◌, Option-cases, inl, inr,
}
use tailpost.Http.{Request, Answer}
use tailpost.Http.Headers.{Header, get, get-set, canonical}
use tailpost.Security.Encryption.{Aead}
use tailpost.Sender.Post.{
  Net, Poster, x_encrypted, true_text, marshal_logs, seal_body, describe, new_request,
  authenticated, build_request, send_batch, judge, non_success_status, SendError,
}
use tailpost.MockServer.{Unmarshal, Reply, print_logs, handle_logs}
use tailpost.MockServer.Delivery.{IsPlain, Alike, authenticated-plain}

-- The handler of /logs.
unfoldable pub handle_plain : Unmarshal → Request → Reply
unfolding print_logs
handle_plain unmarshal r =
    if not (equal r.method (bytes "POST"))
    then record { status = 405; logs = [] }
    else print_logs unmarshal r.body

-- The mux of either server, for its handler of /logs.
unfoldable pub answer : (Request → Reply) → Bytes → Request → Answer
answer logs path r =
    if equal path (bytes "/logs")
    then record { status = (logs r).status; body = [] }
    else if equal path (bytes "/health")
    then record { status = 200; body = bytes "{\"status\":\"ok\"}" }
    else record { status = 404; body = bytes "404 page not found\n" }

-- The two servers handle a request alike when it is not marked as encrypted.
pub handle_logs-unmarked :
    (aead : Aead) (unmarshal : Unmarshal) (r : Request)
    → equal (get x_encrypted r.header) true_text ≡ false
    → handle_logs aead unmarshal r ≡ handle_plain unmarshal r
unfolding handle_logs handle_plain
handle_logs-unmarked aead unmarshal r h = rw h refl

-- What a sender without encryption relies on, for one batch.
pub record IsOpen (net : Net) (p : Poster) (unmarshal : Unmarshal) (logs : List Bytes)
    (text : Bytes) : Type 0 where
  pub bare : p.encryption ≡ none
  pub plain : IsPlain p.auth
  pub marshals : net.marshal logs ≡ some text
  pub unmarshals : unmarshal text ≡ some logs
  pub reachable : net.valid_url p.server_url ≡ true

module _ {net : Net} {p : Poster} {unmarshal : Unmarshal} {logs : List Bytes} {text : Bytes}
    (s : IsOpen net p unmarshal logs text) where
  abbrev json : Request
  json = record {
    method = bytes "POST";
    url = p.server_url;
    header = describe none [];
    body = text;
  }

  marshaled : marshal_logs net logs ≡ ok text
  unfolding marshal_logs
  marshaled = rw (s.marshals, marshal_logs)

  unsealed : seal_body net none text ≡ ok text
  unfolding seal_body
  unsealed = refl

  requested :
      new_request net p.server_url text
      ≡ ok (record { method = bytes "POST"; url = p.server_url; header = []; body = text })
  unfolding new_request
  requested = rw s.reachable

  built : build_request net p logs ≡ authenticated net p.auth json
  unfolding build_request
  built = rw (s.bare, marshaled, unsealed, requested)

  printed : print_logs unmarshal text ≡ record { status = 200; logs = logs }
  unfolding print_logs
  printed = rw (s.unmarshals, print_logs)

  handled :
      (h : Header)
      → handle_plain unmarshal (record json { header = h }) ≡ record { status = 200; logs = logs }
  unfolding handle_plain equal
  handled h = printed

  unmarked : (h : Header) → Alike h json.header → equal (get x_encrypted h) true_text ≡ false
  unfolding describe canonical equal get
  unmarked h (id, mark, type) =
      let plain : get x_encrypted json.header ≡ [] = rw get-set refl in rw (mark ∙ plain) refl

-- Without encryption, end to end: the request that the agent builds for a batch, with no
-- authentication, basic or a token, is answered with 200 by either server, which has then read exactly
-- the lines of the batch.
pub plain_delivered :
    {net : Net} {p : Poster} {unmarshal : Unmarshal} {logs : List Bytes} {text : Bytes}
    (aead : Aead)
    → IsOpen net p unmarshal logs text
    → (req : Request) × (build_request net p logs ≡ ok req)
      × (handle_plain unmarshal req ≡ record { status = 200; logs = logs })
      × (handle_logs aead unmarshal req ≡ record { status = 200; logs = logs })
plain_delivered {net} {p} {unmarshal} aead s =
    let (h, added, alike) = authenticated-plain net p.auth (json s) s.plain in
    let req : Request = record (json s) { header = h } in
    (
      req,
      built s ∙ added,
      handled s h,
      handle_logs-unmarked aead unmarshal req (unmarked s h alike) ∙ handled s h,
    )

-- What the sender makes of an answer to a body that parses, or not.
abbrev pub outcome : Option (List Bytes) → Result SendError (Unit {0})
outcome none = err non_success_status
outcome (some lines) = ok tt

judge-print_logs :
    (unmarshal : Unmarshal) (text : Bytes)
    → judge (some (record { status = (print_logs unmarshal text).status; body = [] }))
      ≡ outcome (unmarshal text)
unfolding judge print_logs
judge-print_logs unmarshal text = elim (Option-cases (unmarshal text)) [
  | inl e ↦ rw (e, print_logs) refl
  | inr (lines, e) ↦ rw (e, print_logs) refl
]

posted :
    (unmarshal : Unmarshal) (r : Request)
    → r.method ≡ bytes "POST"
    → handle_plain unmarshal r ≡ print_logs unmarshal r.body
unfolding handle_plain equal
posted unmarshal r e = rw e refl

-- A post over a network that leads to the /logs of the server without decryption: when the request for
-- a batch is built, the post succeeds if its body parses as a list of lines, and otherwise it fails
-- for its status, after which the batch is not sent again. So an agent that encrypts loses its batches here.
pub send_batch-plain :
    (net : Net) (p : Poster) (unmarshal : Unmarshal) (logs : List Bytes) (req : Request)
    → ((r : Request) → net.transport r ≡ some (answer (handle_plain unmarshal) (bytes "/logs") r))
    → build_request net p logs ≡ ok req
    → req.method ≡ bytes "POST"
    → send_batch net p logs ≡ outcome (unmarshal req.body)
unfolding send_batch answer equal
send_batch-plain net p unmarshal logs req there made post =
    rw made (rw (there req) (rw (posted unmarshal req post) (judge-print_logs unmarshal req.body)))
