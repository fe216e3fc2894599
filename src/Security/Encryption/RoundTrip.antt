-- ===== src/Security/Encryption/RoundTrip.antt =====
-- What one provider encrypts, a provider with the same cipher and key name decrypts.
use tailpost.Base.{
  ◌++◌, some, ◌≡◌, arith, Bytes, length, length-append, take-append_length, drop-append_length, ok,
  ◌>>=◌,
}
use tailpost.Security.Encryption.{Aead, EncryptionProvider, encrypt, decrypt_with, decrypt}

-- The documented behaviour of `cipher.AEAD`: `Open` undoes `Seal` under the same nonce and data.
abbrev pub Opens : Aead → Type 0
Opens aead =
    (nonce plaintext key_id : Bytes)
    → length nonce ≡ aead.nonce_size
    → aead.open_sealed nonce (aead.seal nonce plaintext key_id) key_id ≡ some plaintext

-- Decrypting with the name that a text was encrypted under gives the text back.
pub decrypt_with-seal :
    (aead : Aead)
    → Opens aead
    → (nonce plaintext key_id : Bytes) → length nonce ≡ aead.nonce_size
    → decrypt_with aead key_id (nonce ++ aead.seal nonce plaintext key_id) ≡ ok plaintext
unfolding decrypt_with
decrypt_with-seal aead opens nonce plaintext key_id sized =
    let sealed = aead.seal nonce plaintext key_id in
    rw (← sized) (
      ground (
        arith,
        length-append nonce sealed,
        take-append_length nonce sealed,
        drop-append_length nonce sealed,
        opens nonce plaintext key_id sized,
      ))

-- Any text that a provider encrypts under a nonce of its size is decrypted to itself by the same
-- provider.
pub decrypt-encrypt :
    (p : EncryptionProvider)
    → Opens p.aead
    → (nonce plaintext : Bytes) → length nonce ≡ p.aead.nonce_size
    → (encrypt p (some nonce) plaintext >>= decrypt p) ≡ ok plaintext
unfolding encrypt decrypt
decrypt-encrypt p opens nonce plaintext sized =
    decrypt_with-seal p.aead opens nonce plaintext p.key_id sized
