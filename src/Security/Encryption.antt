-- ===== src/Security/Encryption.antt =====
-- pkg/security/encryption.go. The ciphers are Go's crypto and golang.org/x/crypto: an `Aead` is
-- what the code calls of `cipher.AEAD`, and `Ciphers` makes one from a key. The environment
-- (files, variables, the clock) is `Env`, and the random bytes are an argument.
pub mod RoundTrip
pub mod Keys
use tailpost.Base.{
  ℕ, Bool, true, false, not, ◌||◌, List, [], ◌∷◌, ◌++◌, Option, none, some, String, Bytes, bytes,
  eqs, ltb, ◌==◌, if◌then◌else◌, length, take, drop, Result, ok, err,
}
use tailpost.Base.Int.{pos}
use tailpost.Config.{EncryptionConfig}
use tailpost.Security.Hex.{decode, decimal}

-- `Seal(nil, nonce, plaintext, data)` and `Open(nil, nonce, ciphertext, data)`.
pub record Aead : Type 0 where
  pub nonce_size : ℕ
  pub seal : Bytes → Bytes → Bytes → Bytes
  pub open_sealed : Bytes → Bytes → Bytes → Option Bytes

-- `aes.NewCipher` with `cipher.NewGCM`, and `chacha20poly1305.New`.
pub record Ciphers : Type 0 where
  pub new_gcm : Bytes → Option Aead
  pub new_chacha : Bytes → Option Aead

pub record Env : Type 0 where
  pub read_file : String → Option Bytes
  pub getenv : String → Bytes
  pub now : ℕ

-- `AESGCMProvider` and `ChaCha20Poly1305Provider`; the two have the same methods.
pub data Kind : Type 0 where
  aes_gcm chacha20_poly1305 : Kind

pub record EncryptionProvider : Type 0 where
  pub kind : Kind
  pub aead : Aead
  pub key_id : Bytes

pub data EncryptionError : Type 0 where
  bad_key_length creating_cipher generating_nonce too_short decrypting : EncryptionError
  reading_key_file empty_variable decoding_hex no_key_source unsupported_type : EncryptionError
  unsupported_algorithm : EncryptionError

-- Both providers want a key of 32 bytes.
abbrev pub key_size : ℕ
key_size = 32

abbrev provide : Kind → Bytes → Option Aead → Result EncryptionError EncryptionProvider
provide kind key_id none = err creating_cipher
provide kind key_id (some aead) = ok (record { kind = kind; aead = aead; key_id = key_id })

unfoldable pub new_aesgcm_provider :
    Ciphers → Bytes → Bytes → Result EncryptionError EncryptionProvider
new_aesgcm_provider ciphers key key_id =
    if not (length key == key_size)
    then err bad_key_length
    else provide aes_gcm key_id (ciphers.new_gcm key)

unfoldable pub new_chacha20_poly1305_provider :
    Ciphers → Bytes → Bytes → Result EncryptionError EncryptionProvider
new_chacha20_poly1305_provider ciphers key key_id =
    if not (length key == key_size)
    then err bad_key_length
    else provide chacha20_poly1305 key_id (ciphers.new_chacha key)

-- `Encrypt`: the nonce, then the sealed text. `random` is what `io.ReadFull(rand.Reader, nonce)`
-- filled the nonce with, if it did not fail.
unfoldable pub encrypt : EncryptionProvider → Option Bytes → Bytes → Result EncryptionError Bytes
encrypt p none plaintext = err generating_nonce
encrypt p (some nonce) plaintext = ok (nonce ++ p.aead.seal nonce plaintext p.key_id)

abbrev opened : Option Bytes → Result EncryptionError Bytes
opened none = err decrypting
opened (some plaintext) = ok plaintext

-- The code that both `Decrypt` methods, and that of test/mock/decrypt, have in common.
unfoldable pub decrypt_with : Aead → Bytes → Bytes → Result EncryptionError Bytes
decrypt_with aead key_id ciphertext =
    if ltb (length ciphertext) aead.nonce_size
    then err too_short
    else opened (
        aead.open_sealed (take aead.nonce_size ciphertext) (drop aead.nonce_size ciphertext) key_id)

-- `Decrypt`.
unfoldable pub decrypt : EncryptionProvider → Bytes → Result EncryptionError Bytes
unfolding decrypt_with
decrypt p ciphertext = decrypt_with p.aead p.key_id ciphertext

-- `generateKeyID`: "key-%d" of the time.
unfoldable pub generate_key_id : ℕ → Bytes
generate_key_id now = bytes "key-" ++ decimal now

abbrev pub from_variable : Bytes → Result EncryptionError Bytes
from_variable [] = err empty_variable
from_variable (c ∷ cs) = elim (decode (c ∷ cs)) [ none ↦ err decoding_hex | some key ↦ ok key ]

-- Where `loadKey` finds the key: the raw bytes of a file, or the hex digits of a variable.
unfoldable pub key_source : Env → EncryptionConfig → Result EncryptionError Bytes
key_source env c =
    if not (eqs c.key_file "")
    then elim (env.read_file c.key_file) [ none ↦ err reading_key_file | some key ↦ ok key ]
    else if not (eqs c.key_env "")
    then from_variable (env.getenv c.key_env)
    else err no_key_source

-- `loadKey`: the key and its name.
unfoldable pub load_key : Env → EncryptionConfig → Result EncryptionError (Bytes × Bytes)
unfolding key_source
load_key env c = elim (key_source env c) [
  | err e ↦ err e
  | ok key ↦ ok (key, if not (eqs c.key_id "") then bytes c.key_id else generate_key_id env.now)
]

abbrev make : Ciphers → EncryptionConfig → Bytes × Bytes → Result EncryptionError EncryptionProvider
make ciphers c (key, key_id) =
    if eqs c.type "aes"
    then new_aesgcm_provider ciphers key key_id
    else if eqs c.type "chacha20poly1305"
    then new_chacha20_poly1305_provider ciphers key key_id
    else err unsupported_type

abbrev present :
    Result EncryptionError EncryptionProvider → Result EncryptionError (Option EncryptionProvider)
present (ok p) = ok (some p)
present (err e) = err e

unfoldable pub with_key :
    Ciphers
    → EncryptionConfig
    → Result EncryptionError (Bytes × Bytes)
    → Result EncryptionError (Option EncryptionProvider)
unfolding new_aesgcm_provider new_chacha20_poly1305_provider
with_key ciphers c (err e) = err e
with_key ciphers c (ok loaded) = present (make ciphers c loaded)

-- `NewEncryptionProvider`; `none` is the nil provider.
unfoldable pub new_encryption_provider :
    Ciphers → Env → EncryptionConfig → Result EncryptionError (Option EncryptionProvider)
new_encryption_provider ciphers env c =
    if not c.enabled then ok none else with_key ciphers c (load_key env c)

-- The configuration that `NewEncryption` builds, for a type.
abbrev pub compatible : EncryptionConfig → String → EncryptionConfig
compatible c type = record {
  enabled = c.enabled;
  type = type;
  algorithm = "";
  key_file = c.key_file;
  key_env = c.key_env;
  key_id = c.key_id;
  rotation_days = pos 0;
}

-- `NewEncryption`; `none` is the nil configuration.
unfoldable pub new_encryption :
    Ciphers → Env → Option EncryptionConfig → Result EncryptionError (Option EncryptionProvider)
new_encryption ciphers env none = ok none
new_encryption ciphers env (some c) =
    if not c.enabled
    then ok none
    else if eqs c.algorithm "aes-gcm"
    then new_encryption_provider ciphers env (compatible c "aes")
    else if eqs c.algorithm "chacha20-poly1305"
    then new_encryption_provider ciphers env (compatible c "chacha20poly1305")
    else err unsupported_algorithm
