-- ===== src/MockServer.antt =====
-- test/mock/decrypt/mock_server.go: the server that decrypts what the agent posts. `json.Unmarshal`
-- into a list of strings is an argument. The body of a request is read without a failure.
pub mod Delivery
pub mod Plain
pub mod SharedKey
use tailpost.Base.{
  ℕ, Bool, true, false, not, ◌&&◌, List, [], ◌∷◌, Option, none, some, String, Bytes, bytes, equal,
  if◌then◌else◌, length, ◌==◌, Result, ok, err,
}
use tailpost.Http.{Request}
use tailpost.Http.Headers.{get}
use tailpost.Security.Hex
use tailpost.Security.Encryption.{
  Aead, EncryptionError, bad_key_length, creating_cipher, decoding_hex, decrypt_with, key_size,
}
use tailpost.Sender.Post.{content_type, x_encrypted, x_key_id, octet_stream, true_text}

abbrev pub Unmarshal : Type 0
Unmarshal = Bytes → Option (List Bytes)

abbrev opened_with : Option Aead → Result EncryptionError Aead
opened_with none = err creating_cipher
opened_with (some aead) = ok aead

-- `NewAESGCMDecrypter`.
unfoldable pub new_aesgcm_decrypter : (Bytes → Option Aead) → Bytes → Result EncryptionError Aead
new_aesgcm_decrypter new_gcm key_hex = elim (Hex.decode key_hex) [
  | none ↦ err decoding_hex
  | some key ↦
      if not (length key == key_size) then err bad_key_length else opened_with (new_gcm key)
]

-- The key when the variable TAILPOST_ENCRYPTION_KEY is not set, or empty.
abbrev pub default_key : Bytes
default_key = bytes "0123456789abcdef0123456789abcdef0123456789abcdef0123456789abcdef"

-- The decrypter that `main` makes of the variable; without one the server ends.
unfoldable pub decrypter_of : (Bytes → Option Aead) → Bytes → Result EncryptionError Aead
unfolding new_aesgcm_decrypter
decrypter_of new_gcm variable =
    new_aesgcm_decrypter new_gcm (if equal variable [] then default_key else variable)

-- What a request for /logs is answered with: the status, and the logs that were printed.
pub record Reply : Type 0 where
  pub status : ℕ
  pub logs : List Bytes

unfoldable pub print_logs : Unmarshal → Bytes → Reply
print_logs unmarshal text = elim (unmarshal text) [
  | none ↦ record { status = 400; logs = [] }
  | some logs ↦ record { status = 200; logs = logs }
]

unfoldable pub print_sealed : Unmarshal → Result EncryptionError Bytes → Reply
print_sealed unmarshal (err e) = record { status = 400; logs = [] }
print_sealed unmarshal (ok text) = print_logs unmarshal text

-- The handler of /logs.
unfoldable pub handle_logs : Aead → Unmarshal → Request → Reply
unfolding print_sealed print_logs
handle_logs aead unmarshal r =
    let key_id = get x_key_id r.header in
    if not (equal r.method (bytes "POST"))
    then record { status = 405; logs = [] }
    else if equal (get x_encrypted r.header) true_text
        && equal (get content_type r.header) octet_stream
        && not (equal key_id [])
    then print_sealed unmarshal (decrypt_with aead key_id r.body)
    else print_logs unmarshal r.body
