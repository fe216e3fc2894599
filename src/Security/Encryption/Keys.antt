-- ===== src/Security/Encryption/Keys.antt =====
-- Which keys and names the providers come from.
use tailpost.Base.{
  true, [], ◌∷◌, some, ◌≡◌, ◌≢◌, arith, Bytes, bytes, eq_iff, length, Result, ok, err, ◌⊎◌, inl,
  inr, Option-cases,
}
use tailpost.Config.{EncryptionConfig}
use tailpost.Security.Hex
use tailpost.Security.Hex.{length-decode}
use tailpost.Security.Encryption.{
  Ciphers, Env, EncryptionProvider, EncryptionError, bad_key_length, load_key, generate_key_id,
  new_encryption_provider, with_key, from_variable,
}

with_key-size :
    (ciphers : Ciphers) (c : EncryptionConfig) (loaded : Result EncryptionError (Bytes × Bytes))
    (p : EncryptionProvider)
    → with_key ciphers c loaded ≡ ok (some p)
    → (key : Bytes) × (loaded ≡ ok (key, p.key_id)) × (length key ≡ 32)
unfolding with_key
with_key-size ciphers c (err e) p h = absurd (cc)
with_key-size ciphers c (ok (key, key_id)) p h = (key, ground arith, ground arith)

-- A provider is made only of a key of 32 bytes, and bears the name that `loadKey` chose.
pub provider_key :
    (ciphers : Ciphers) (env : Env) (c : EncryptionConfig) (p : EncryptionProvider)
    → new_encryption_provider ciphers env c ≡ ok (some p)
    → (key : Bytes) × (load_key env c ≡ ok (key, p.key_id)) × (length key ≡ 32)
unfolding new_encryption_provider
provider_key ciphers env c p h = with_key-size ciphers c (load_key env c) p (ground arith)

with_key-bad :
    (ciphers : Ciphers) (c : EncryptionConfig) (key key_id : Bytes)
    → (c.type ≡ "aes") ⊎ (c.type ≡ "chacha20poly1305")
    → length key ≢ 32
    → with_key ciphers c (ok (key, key_id)) ≡ err bad_key_length
unfolding with_key
with_key-bad ciphers c key key_id (inl t) size =
    ground (arith, t, eq_iff c.type "aes", eq_iff c.type "chacha20poly1305")
with_key-bad ciphers c key key_id (inr t) size =
    ground (arith, t, eq_iff c.type "aes", eq_iff c.type "chacha20poly1305")

-- The key file is read as raw bytes: a file that is not 32 bytes long, such as one of 64 hex digits
-- and a newline, makes no provider, whichever the cipher.
key_file_raw :
    (ciphers : Ciphers) (env : Env) (c : EncryptionConfig) (content : Bytes)
    → c.enabled ≡ true
    → (c.type ≡ "aes") ⊎ (c.type ≡ "chacha20poly1305")
    → c.key_file ≢ ""
    → env.read_file c.key_file ≡ some content
    → length content ≢ 32
    → new_encryption_provider ciphers env c ≡ err bad_key_length
unfolding new_encryption_provider load_key
key_file_raw ciphers env c content on t named read size = ground (
  arith,
  read,
  eq_iff c.key_file "",
  with_key-bad ciphers c content (bytes c.key_id) t,
  with_key-bad ciphers c content (generate_key_id env.now) t,
)

from_variable-size :
    (digits key : Bytes) → from_variable digits ≡ ok key → length key ≡ 32 → length digits ≡ 64
from_variable-size [] key h size = cc
from_variable-size (d ∷ ds) key h size = elim (Option-cases (Hex.decode (d ∷ ds))) [
  | inl e ↦ ground (arith, e)
  | inr (k, e) ↦ ground (arith, e, length-decode (d ∷ ds) k e)
]

pub variable_key :
    (env : Env) (c : EncryptionConfig) (key key_id : Bytes)
    → c.key_file ≡ ""
    → load_key env c ≡ ok (key, key_id)
    → from_variable (env.getenv c.key_env) ≡ ok key
unfolding load_key
variable_key env c key key_id unnamed h = ground (arith, eq_iff c.key_file "")

-- A key from a variable is its hex digits: a provider with one needs exactly 64 of them.
key_variable_hex :
    (ciphers : Ciphers) (env : Env) (c : EncryptionConfig) (p : EncryptionProvider)
    → c.key_file ≡ ""
    → new_encryption_provider ciphers env c ≡ ok (some p)
    → length (env.getenv c.key_env) ≡ 64
key_variable_hex ciphers env c p unnamed h =
    let (key, loaded, size) = provider_key ciphers env c p h in
    from_variable-size (env.getenv c.key_env) key (variable_key env c key p.key_id unnamed loaded)
      size
