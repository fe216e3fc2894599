-- ===== src/Examples/SharedKey.antt =====
-- The agent and the server with a key in the environment, on a batch of one line.
use tailpost.Base.{true, none, some, ◌≡◌, refl, ok}
use tailpost.Base.Int.{pos}
use tailpost.Config.{EncryptionConfig}
use tailpost.Http.{Request}
use tailpost.Security.Hex.{decode}
use tailpost.Security.Encryption.{
  Aead, Ciphers, Env, new_encryption_provider, load_key, key_source, with_key, new_aesgcm_provider,
}
use tailpost.Sender.Post.{build_request}
use tailpost.MockServer.{decrypter_of, handle_logs}
use tailpost.MockServer.SharedKey.{shared_key_delivers}
use tailpost.Examples.Security.{hex_digits}
use tailpost.Examples.Sender.{aead, aead-Opens, provider, logs, unmarshal, net, poster, set_up}

abbrev ciphers : Ciphers
ciphers = record { new_gcm = λ key. some aead; new_chacha = λ key. none }

abbrev env : Env
env = record { read_file = λ path. none; getenv = λ name. hex_digits; now = 0 }

abbrev settings : EncryptionConfig
settings = record {
  enabled = true;
  type = "aes";
  algorithm = "";
  key_file = "";
  key_env = "TAILPOST_ENCRYPTION_KEY";
  key_id = "k1";
  rotation_days = pos 90;
}

provider_made : new_encryption_provider ciphers env settings ≡ ok (some provider)
unfolding new_encryption_provider load_key key_source with_key new_aesgcm_provider decode
provider_made = refl

shared_key_delivers_example :
    (a : Aead) × (decrypter_of ciphers.new_gcm hex_digits ≡ ok a)
    × ((req : Request) × (build_request net poster logs ≡ ok req)
        × (handle_logs a unmarshal req ≡ record { status = 200; logs = logs }))
shared_key_delivers_example =
    shared_key_delivers ciphers env settings refl refl provider_made set_up aead-Opens
