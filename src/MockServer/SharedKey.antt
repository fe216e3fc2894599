-- ===== src/MockServer/SharedKey.antt =====
-- The agent and the server that decrypts, with the key in the same variable of the environment.
use tailpost.Base.{
  false, List, [], ◌∷◌, Option, none, some, ◌≡◌, refl, arith, Bytes, equal, eq_iff, length, ok,
  Option-cases, Bool-cases, inl, inr, ap, sym, ◌∙◌, Result,
}
use tailpost.Http.{Request}
use tailpost.Config.{EncryptionConfig}
use tailpost.Security.Hex
use tailpost.Security.Encryption.{
  Aead, Ciphers, Env, EncryptionProvider, EncryptionError, new_encryption_provider, load_key,
  with_key, new_aesgcm_provider, from_variable,
}
use tailpost.Security.Encryption.Keys.{provider_key, variable_key}
use tailpost.Security.Encryption.RoundTrip.{Opens}
use tailpost.Sender.Post.{Net, Poster, build_request}
use tailpost.MockServer.{Unmarshal, new_aesgcm_decrypter, decrypter_of, handle_logs}
use tailpost.MockServer.Delivery.{IsSetUp, batch_delivered}

decoded_variable :
    (v key : Bytes) → from_variable v ≡ ok key → (Hex.decode v ≡ some key) × (equal v [] ≡ false)
unfolding equal
decoded_variable [] key h = cc
decoded_variable (c ∷ cs) key h = elim (Option-cases (Hex.decode (c ∷ cs))) [
  | inl e ↦ ground (arith, e)
  | inr (k, e) ↦ ground (arith, e)
]

decrypter_made :
    (new_gcm : Bytes → Option Aead) (v key : Bytes) (aead : Aead)
    → from_variable v ≡ ok key
    → length key ≡ 32
    → new_gcm key ≡ some aead
    → decrypter_of new_gcm v ≡ ok aead
unfolding decrypter_of new_aesgcm_decrypter
decrypter_made new_gcm v key aead h size made =
    let (decoded, given) = decoded_variable v key h in ground (arith, given, decoded, size, made)

aes_made :
    (ciphers : Ciphers) (c : EncryptionConfig) (key key_id : Bytes) (p : EncryptionProvider)
    → c.type ≡ "aes"
    → with_key ciphers c (ok (key, key_id)) ≡ ok (some p)
    → ciphers.new_gcm key ≡ some p.aead
unfolding with_key new_aesgcm_provider
aes_made ciphers c key key_id p aes h = elim (Option-cases (ciphers.new_gcm key)) [
  | inl e ↦ ground (arith, e, aes, eq_iff c.type "aes")
  | inr (aead, e) ↦ ground (arith, e, aes, eq_iff c.type "aes")
]

loaded_with :
    (ciphers : Ciphers) (env : Env) (c : EncryptionConfig) (p : EncryptionProvider)
    (loaded : Bytes × Bytes)
    → new_encryption_provider ciphers env c ≡ ok (some p)
    → load_key env c ≡ ok loaded
    → with_key ciphers c (ok loaded) ≡ ok (some p)
unfolding new_encryption_provider
loaded_with ciphers env c p loaded h e = elim (Bool-cases c.enabled) [
  | inl on ↦
      let made : new_encryption_provider ciphers env c ≡ with_key ciphers c (load_key env c) =
        rw on refl in
      ap (λ (r : Result EncryptionError (Bytes × Bytes)). with_key ciphers c r) (sym e)
      ∙ sym made
      ∙ h
  | inr off ↦ let made : new_encryption_provider ciphers env c ≡ ok none = rw off refl in cc
]

-- The agent and the server get the same cipher of the same variable.
same_cipher :
    (ciphers : Ciphers) (env : Env) (c : EncryptionConfig) (p : EncryptionProvider)
    → c.type ≡ "aes"
    → c.key_file ≡ ""
    → new_encryption_provider ciphers env c ≡ ok (some p)
    → decrypter_of ciphers.new_gcm (env.getenv c.key_env) ≡ ok p.aead
same_cipher ciphers env c p aes unnamed h =
    let (key, loaded, size) = provider_key ciphers env c p h in
    let made =
      aes_made ciphers c key p.key_id p aes
        (loaded_with ciphers env c p (key, p.key_id) h loaded) in
    decrypter_made ciphers.new_gcm (env.getenv c.key_env) key p.aead
      (variable_key env c key p.key_id unnamed loaded) size made

-- From the environment to the lines: when the agent is configured for AES with a key from a variable
-- and its provider is made, a server that is started with the same value in its own variable starts,
-- and answers the request that the agent builds for a batch with 200, having read exactly the lines
-- of the batch. The agent adds no authentication, basic or a token, and opening a sealed text gives it back.
pub shared_key_delivers :
    (ciphers : Ciphers) (env : Env) (c : EncryptionConfig) {net : Net} {p : Poster}
    {ep : EncryptionProvider} {unmarshal : Unmarshal} {logs : List Bytes} {text nonce : Bytes}
    → c.type ≡ "aes"
    → c.key_file ≡ ""
    → new_encryption_provider ciphers env c ≡ ok (some ep)
    → IsSetUp net p ep unmarshal logs text nonce
    → Opens ep.aead
    → (aead : Aead) × (decrypter_of ciphers.new_gcm (env.getenv c.key_env) ≡ ok aead)
      × ((req : Request) × (build_request net p logs ≡ ok req)
          × (handle_logs aead unmarshal req ≡ record { status = 200; logs = logs }))
shared_key_delivers ciphers env c {net} {p} {ep} aes unnamed h s opens =
    (ep.aead, same_cipher ciphers env c ep aes unnamed h, batch_delivered s opens)
