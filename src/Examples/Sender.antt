-- ===== src/Examples/Sender.antt =====
-- The theorems on the sender and on the server that decrypts, at small batches.
use tailpost.Base.{
  true, false, List, [], ◌∷◌, ◌++◌, flatten, Option, none, some, ◌≡◌, refl, arith, Bytes, bytes, ok,
}
use tailpost.Base.Int.{pos}
use tailpost.Http.{Request}
use tailpost.Security.Encryption.{Aead, EncryptionProvider, aes_gcm}
use tailpost.Security.Encryption.RoundTrip.{Opens}
use tailpost.Sender.{
  Sender, Event, line, stop_called, new_http_sender, run, step, stop, flush_locked,
}
use tailpost.Sender.Batches.{accepted, run-accepted}
use tailpost.Sender.Stop.{stopped, stop_flushes}
use tailpost.Sender.Post.{Net, Poster, build_request, send_batch}
use tailpost.Sender.Post.Outcome.{Delivered, send_batch-ok_iff}
use tailpost.MockServer.{Unmarshal, handle_logs}
use tailpost.MockServer.Delivery.{IsSetUp, batch_delivered}

abbrev url : Bytes
url = bytes "http://logs"

abbrev events : List Event
events = line (bytes "a") ∷ line (bytes "b") ∷ line (bytes "c") ∷ stop_called ∷ []

abbrev fresh : Sender
fresh = new_http_sender url (pos 2) (pos 5)

run-accepted_example :
    accepted (run events fresh) ≡ accepted fresh ++ (bytes "a" ∷ bytes "b" ∷ bytes "c" ∷ [])
run-accepted_example = run-accepted events fresh

still_running : (run events fresh).loop_flushed ≡ false
unfolding run step stop new_http_sender flush_locked
still_running = refl

stop_flushes_example :
    (flatten (stopped (run events fresh)).dispatched ≡ bytes "a" ∷ bytes "b" ∷ bytes "c" ∷ [])
    × ((stopped (run events fresh)).batch ≡ [])
stop_flushes_example = stop_flushes url (pos 2) (pos 5) events still_running

abbrev ended : Sender
ended = record {
  server_url = url;
  batch_size = pos 2;
  flush_interval = pos 5;
  batch = [];
  dispatched = [];
  stop_closed = true;
  loop_flushed = true;
  stopped_closed = true;
}

-- A cipher that marks the text with one byte, with a nonce of two bytes.
abbrev pub aead : Aead
aead = record {
  nonce_size = 2;
  seal = λ nonce plaintext key_id. 7 ∷ plaintext;
  open_sealed = λ nonce ciphertext key_id. unmark ciphertext;
}
  where
    unmark : Bytes → Option Bytes
    unmark [] = none
    unmark (c ∷ cs) = some cs

pub aead-Opens : Opens aead
aead-Opens nonce plaintext key_id h = refl

abbrev pub provider : EncryptionProvider
provider = record { kind = aes_gcm; aead = aead; key_id = bytes "k1" }

abbrev pub logs : List Bytes
logs = bytes "a" ∷ []

abbrev pub net : Net
net = record {
  marshal = λ ls. some (bytes "[\"a\"]");
  random = some (1 ∷ 2 ∷ []);
  valid_url = λ u. true;
  fetch = λ client. none;
  transport = λ req. some (record { status = 200; body = [] });
}

abbrev pub poster : Poster
poster = record { server_url = url; encryption = some provider; auth = none }

send_batch-ok_iff_example :
    (send_batch net poster logs ≡ ok tt → Delivered net poster logs)
    × (Delivered net poster logs → send_batch net poster logs ≡ ok tt)
send_batch-ok_iff_example = send_batch-ok_iff net poster logs

abbrev pub unmarshal : Unmarshal
unmarshal text = some logs

pub set_up : IsSetUp net poster provider unmarshal logs (bytes "[\"a\"]") (1 ∷ 2 ∷ [])
set_up = record {
  encrypts = refl;
  plain = tt;
  named = λ e. ground arith;
  marshals = refl;
  unmarshals = refl;
  filled = refl;
  sized = refl;
  reachable = refl;
}

batch_delivered_example :
    (req : Request) × (build_request net poster logs ≡ ok req)
    × (handle_logs aead unmarshal req ≡ record { status = 200; logs = logs })
batch_delivered_example = batch_delivered set_up aead-Opens
