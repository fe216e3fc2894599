-- ===== src/Examples/Security.antt =====
-- The theorems on authentication, encryption and TLS, at small credentials and keys.
use tailpost.Base.{
  Bool, true, false, ◌&&◌, List, [], ◌∷◌, ◌++◌, Option, none, some, ◌≡◌, refl, arith, String, Bytes,
  bytes, eqs, equal, ok, ◌>>=◌,
}
use tailpost.Base.Int.{pos}
use tailpost.Config.{
  EncryptionConfig, TlsConfig, Config, default_telemetry_config, default_security_config,
}
use tailpost.Http.{Request}
use tailpost.Http.Headers.{canonical}
use tailpost.Security.Auth.{basic, FetchToken}
use tailpost.Security.Auth.RoundTrip.{judged, basic_exact, Distinct}
use tailpost.Security.Text.{split_once}
use tailpost.Security.Hex.{decode}
use tailpost.Security.Encryption.{
  Aead, Ciphers, Env, EncryptionProvider, aes_gcm, encrypt, decrypt, load_key,
  new_encryption_provider, new_aesgcm_provider, with_key, key_source,
}
use tailpost.Security.Encryption.RoundTrip.{Opens, decrypt-encrypt}
use tailpost.Security.Tls.{
  TlsEnv, Tls, TlsError, create_tls_config, IsVersion, tls_versions, version_tls10,
}
use tailpost.Security.Tls
use tailpost.Sender.Secure
use tailpost.Sender.Secure.{SecureSender, new_secure_http_sender, is_some}

abbrev fetch : FetchToken
fetch client = none

abbrev request : Request
request = record { method = bytes "POST"; url = bytes "http://logs"; header = []; body = [] }

basic_exact_example :
    judged fetch (basic (bytes "u") (bytes "x")) (basic (bytes "u") (bytes "p")) request
    ≡ ok (equal (bytes "u") (bytes "u") && equal (bytes "x") (bytes "p"))
unfolding split_once
basic_exact_example =
    basic_exact fetch request (bytes "u") (bytes "p") (bytes "u") (bytes "x") (omega arith, tt)
      (omega arith, tt) refl

abbrev headers : List (Bytes × Bytes)
headers = (bytes "X-Key", bytes "1") ∷ (bytes "X-Other", bytes "2") ∷ []

headers-Distinct : Distinct headers
unfolding canonical
headers-Distinct = ((λ e. ground arith, tt), (tt, tt))

-- A cipher that marks the text with one byte, with a nonce of two bytes.
abbrev aead : Aead
aead = record {
  nonce_size = 2;
  seal = λ nonce plaintext key_id. 7 ∷ plaintext;
  open_sealed = λ nonce ciphertext key_id. unmark ciphertext;
}
  where
    unmark : Bytes → Option Bytes
    unmark [] = none
    unmark (c ∷ cs) = some cs

abbrev provider : EncryptionProvider
provider = record { kind = aes_gcm; aead = aead; key_id = bytes "k1" }

aead-Opens : Opens aead
aead-Opens nonce plaintext key_id h = refl

decrypt-encrypt_example :
    (encrypt provider (some (1 ∷ 2 ∷ [])) (bytes "text") >>= decrypt provider) ≡ ok (bytes "text")
decrypt-encrypt_example = decrypt-encrypt provider aead-Opens (1 ∷ 2 ∷ []) (bytes "text") refl

abbrev pub ciphers : Ciphers
ciphers = record { new_gcm = λ key. some aead; new_chacha = λ key. some aead }

abbrev pub hex_digits : Bytes
hex_digits = bytes "000102030405060708090a0b0c0d0e0f101112131415161718191a1b1c1d1e1f"

abbrev key : Bytes
key = bytes "0123456789abcdef0123456789abcdef"

abbrev pub env : Env
env = record { read_file = λ path. if_raw (eqs path "raw"); getenv = λ name. hex_digits; now = 12 }
  where
    if_raw : Bool → Option Bytes
    if_raw true = some key
    if_raw false = some (hex_digits ++ (b'\n' ∷ []))

abbrev settings : String → EncryptionConfig
settings key_file = record {
  enabled = true;
  type = "aes";
  algorithm = "";
  key_file = key_file;
  key_env = "KEY";
  key_id = "k1";
  rotation_days = pos 90;
}

made : new_encryption_provider ciphers env (settings "raw") ≡ ok (some provider)
unfolding new_encryption_provider with_key load_key new_aesgcm_provider key_source
made = refl

made_of_variable : new_encryption_provider ciphers env (settings "") ≡ ok (some provider)
unfolding new_encryption_provider with_key load_key new_aesgcm_provider key_source decode
made_of_variable = refl

abbrev pub tls_env : TlsEnv
tls_env = record {
  Pool = Unit {0};
  Certificate = Unit {0};
  read_file = λ path. some [];
  load_pool = λ text. some tt;
  load_pair = λ cert key. some tt;
  to_lower = λ s. s;
  getenv = λ name. "";
  parse_bool = λ s. some true;
}

abbrev tls_settings : TlsConfig
tls_settings = record {
  enabled = true;
  cert_file = "";
  key_file = "";
  ca_file = "";
  insecure_skip_verify = false;
  server_name = "logs";
  prefer_server_cipher_suites = false;
  min_version = "tls12";
  max_version = "";
  cipher_suites = "";
}

abbrev tls : Tls tls_env
tls = record {
  insecure_skip_verify = false;
  server_name = "logs";
  min_version = 0x0303;
  max_version = 0;
  root_cas = none;
  certificate = none;
}

tls_made : create_tls_config tls_env tls_settings ≡ ok (some tls)
unfolding create_tls_config Tls.version_of Tls.load_ca Tls.load_certificate Tls.tls_version
tls_made = refl

abbrev secure_config : Config
secure_config = record {
  log_path = "/var/log/syslog";
  server_url = "https://logs";
  batch_size = pos 10;
  flush_interval = pos 5;
  log_source_type = "file";
  namespace = "";
  pod_name = "";
  container_name = "";
  pod_selector = [];
  namespace_selector = [];
  windows_event_log_name = "";
  windows_event_log_level = "";
  macos_log_query = "";
  telemetry = default_telemetry_config;
  security = record default_security_config { tls = tls_settings; encryption = settings "raw" };
}

abbrev secure_sender : SecureSender tls_env ciphers env
secure_sender = record {
  base = record {
    server_url = bytes "https://logs";
    batch_size = pos 10;
    flush_interval = pos 5;
    batch = [];
    dispatched = [];
    stop_closed = false;
    loop_flushed = false;
    stopped_closed = false;
  };
  client_tls = some tls;
  auth_provider = none;
  encryption_provider = some provider;
}

sender_made : new_secure_http_sender tls_env ciphers env secure_config ≡ ok secure_sender
unfolding new_secure_http_sender Secure.client_tls_of Secure.auth_provider_of
    Secure.encryption_provider_of create_tls_config Tls.version_of Tls.load_ca Tls.load_certificate
    Tls.tls_version new_encryption_provider with_key load_key new_aesgcm_provider key_source
    default_security_config
sender_made = refl
