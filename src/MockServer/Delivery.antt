-- ===== src/MockServer/Delivery.antt =====
-- From the agent's sender to the server and back to the lines.
use tailpost.Base.{
  true, not, List, [], ◌++◌, Option, none, some, ◌≡◌, ◌≢◌, refl, arith, Bytes, bytes, equal,
  equal_iff, length, ok, ◌∙◌,
}
use tailpost.Http.{Request}
use tailpost.Http.Headers.{Header, get, set, get-set, canonical}
use tailpost.Security.Auth.{
  AuthProvider, basic, token, oauth2, header, authorization, add_authentication,
}
use tailpost.Security.Encryption.{EncryptionProvider, encrypt}
use tailpost.Security.Encryption.RoundTrip.{Opens, decrypt_with-seal}
use tailpost.Sender.Post.{
  Net, Poster, content_type, x_encrypted, x_key_id, octet_stream, true_text, marshal_logs,
  seal_body, describe, new_request, authenticated, build_request,
}
use tailpost.MockServer.{Unmarshal, print_logs, print_sealed, handle_logs}

-- A provider that touches no header but `Authorization`.
abbrev pub IsPlain : Option AuthProvider → Type 0
IsPlain none = Unit
IsPlain (some (basic u p)) = Unit
IsPlain (some (token t)) = Unit
IsPlain (some (oauth2 c)) = ⊥
IsPlain (some (header h)) = ⊥

described :
    (p : EncryptionProvider) (h : Header)
    → (get x_key_id (describe (some p) h) ≡ p.key_id)
      × (get x_encrypted (describe (some p) h) ≡ true_text)
      × (get content_type (describe (some p) h) ≡ octet_stream)
unfolding describe canonical equal
described p h = (rw get-set, rw get-set (rw get-set), rw get-set (rw get-set (rw get-set)))

-- Two headers are alike to the server.
abbrev pub Alike : Header → Header → Type 0
Alike g h =
    (get x_key_id g ≡ get x_key_id h)
    × (get x_encrypted g ≡ get x_encrypted h)
    × (get content_type g ≡ get content_type h)

authorized : (v : Bytes) (h : Header) → Alike (set authorization v h) h
unfolding canonical equal
authorized v h = (rw get-set, rw get-set, rw get-set)

pub authenticated-plain :
    (net : Net) (auth : Option AuthProvider) (req : Request)
    → IsPlain auth
    → (h : Header) × (authenticated net auth req ≡ ok (record req { header = h }))
      × Alike h req.header
unfolding authenticated add_authentication
authenticated-plain net none req plain = (req.header, refl, (refl, refl, refl))
authenticated-plain net (some (basic u p)) req plain = (_, refl, authorized _ req.header)
authenticated-plain net (some (token t)) req plain = (_, refl, authorized _ req.header)
authenticated-plain net (some (oauth2 c)) req plain = absurd plain
authenticated-plain net (some (header h)) req plain = absurd plain

-- What the sender relies on, and what the server and it agree on, for one batch.
pub record IsSetUp (net : Net) (p : Poster) (ep : EncryptionProvider) (unmarshal : Unmarshal)
    (logs : List Bytes) (text nonce : Bytes) : Type 0 where
  pub encrypts : p.encryption ≡ some ep
  pub plain : IsPlain p.auth
  pub named : ep.key_id ≢ []
  pub marshals : net.marshal logs ≡ some text
  pub unmarshals : unmarshal text ≡ some logs
  pub filled : net.random ≡ some nonce
  pub sized : length nonce ≡ ep.aead.nonce_size
  pub reachable : net.valid_url p.server_url ≡ true

module _ {net : Net} {p : Poster} {ep : EncryptionProvider} {unmarshal : Unmarshal}
    {logs : List Bytes} {text nonce : Bytes} (s : IsSetUp net p ep unmarshal logs text nonce) where
  abbrev sealed : Bytes
  sealed = nonce ++ ep.aead.seal nonce text ep.key_id

  abbrev bare : Request
  bare = record {
    method = bytes "POST";
    url = p.server_url;
    header = describe (some ep) [];
    body = sealed;
  }

  marshaled : marshal_logs net logs ≡ ok text
  unfolding marshal_logs
  marshaled = rw (s.marshals, marshal_logs)

  sealed_body : seal_body net (some ep) text ≡ ok sealed
  unfolding seal_body encrypt
  sealed_body = rw s.filled

  requested :
      new_request net p.server_url sealed
      ≡ ok (record { method = bytes "POST"; url = p.server_url; header = []; body = sealed })
  unfolding new_request
  requested = rw s.reachable

  built : build_request net p logs ≡ authenticated net p.auth bare
  unfolding build_request
  built = rw (s.encrypts, marshaled, sealed_body, requested)

  key_id_given : not (equal ep.key_id []) ≡ true
  key_id_given = ground (arith, equal_iff ep.key_id [], s.named)

  printed : print_sealed unmarshal (ok text) ≡ record { status = 200; logs = logs }
  unfolding print_sealed print_logs
  printed = rw (s.unmarshals, print_logs)

  served :
      Opens ep.aead
      → (h : Header) → Alike h bare.header
      → handle_logs ep.aead unmarshal (record bare { header = h })
        ≡ record { status = 200; logs = logs }
  unfolding handle_logs equal
  served opens h alike =
      let (id, yes_text, octets) = described ep [] in
      rw
        (
          alike.0 ∙ id,
          alike.1 ∙ yes_text,
          alike.2 ∙ octets,
          key_id_given,
          decrypt_with-seal ep.aead opens nonce text ep.key_id s.sized,
        )
        printed

-- End to end: when the agent encrypts under a named key and adds no authentication, basic or a token,
-- the request that it builds for a batch is answered with 200 by a server with the same key, which
-- has then read exactly the lines of the batch.
pub batch_delivered :
    {net : Net} {p : Poster} {ep : EncryptionProvider} {unmarshal : Unmarshal} {logs : List Bytes}
    {text nonce : Bytes}
    → IsSetUp net p ep unmarshal logs text nonce
    → Opens ep.aead
    → (req : Request) × (build_request net p logs ≡ ok req)
      × (handle_logs ep.aead unmarshal req ≡ record { status = 200; logs = logs })
batch_delivered {net} {p} s opens =
    let (h, added, alike) = authenticated-plain net p.auth (bare s) s.plain in
    (record (bare s) { header = h }, built s ∙ added, served s opens h alike)
