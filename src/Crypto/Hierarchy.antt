-- ===== src/Crypto/Hierarchy.antt =====
-- packages/crypto/src/hierarchy.ts: keys wrapped under keys and values under the environment's, each
-- bound to its identity. The nonce is the one that `generateNonce` draws.
pub mod Laws
pub mod Opens
use keevault.Base.{Option, some}
use keevault.Crypto.Text.{Text, Bytes}
use keevault.Crypto.WebCrypto.{WebCrypto}
use keevault.Crypto.Aesgcm.{SealedBytes, aes_gcm_encrypt, aes_gcm_decrypt}
use keevault.Crypto.Aad.{
  ◌>>=◌, ProjectKeyAadInput, project_key_aad, EnvironmentKeyAadInput, environment_key_aad,
  SecretValueAadInput, secret_value_aad,
}

pub record WrapProjectKeyInput : Type 0 where
  pub identity : ProjectKeyAadInput
  pub master_key : Bytes
  pub project_key : Bytes

unfoldable pub wrap_project_key : WebCrypto → Bytes → WrapProjectKeyInput → Option SealedBytes
wrap_project_key c nonce input = do
  aad ← project_key_aad input.identity
  ciphertext ←
      aes_gcm_encrypt c
        (record { key = input.master_key; nonce = nonce; plaintext = input.project_key; aad = aad })
  some (record { nonce = nonce; ciphertext = ciphertext })

pub record UnwrapProjectKeyInput : Type 0 where
  pub identity : ProjectKeyAadInput
  pub master_key : Bytes
  pub nonce : Bytes
  pub ciphertext : Bytes

unfoldable pub unwrap_project_key : WebCrypto → UnwrapProjectKeyInput → Option Bytes
unwrap_project_key c input = do
  aad ← project_key_aad input.identity
  aes_gcm_decrypt c (record {
    key = input.master_key;
    nonce = input.nonce;
    ciphertext = input.ciphertext;
    aad = aad;
  })

pub record WrapEnvironmentKeyInput : Type 0 where
  pub identity : EnvironmentKeyAadInput
  pub project_key : Bytes
  pub environment_key : Bytes

unfoldable pub wrap_environment_key :
    WebCrypto → Bytes → WrapEnvironmentKeyInput → Option SealedBytes
wrap_environment_key c nonce input = do
  aad ← environment_key_aad input.identity
  ciphertext ← aes_gcm_encrypt c (record {
    key = input.project_key;
    nonce = nonce;
    plaintext = input.environment_key;
    aad = aad;
  })
  some (record { nonce = nonce; ciphertext = ciphertext })

pub record UnwrapEnvironmentKeyInput : Type 0 where
  pub identity : EnvironmentKeyAadInput
  pub project_key : Bytes
  pub nonce : Bytes
  pub ciphertext : Bytes

unfoldable pub unwrap_environment_key : WebCrypto → UnwrapEnvironmentKeyInput → Option Bytes
unwrap_environment_key c input = do
  aad ← environment_key_aad input.identity
  aes_gcm_decrypt c (record {
    key = input.project_key;
    nonce = input.nonce;
    ciphertext = input.ciphertext;
    aad = aad;
  })

pub record EncryptSecretInput : Type 0 where
  pub identity : SecretValueAadInput
  pub environment_key : Bytes
  pub value : Text

unfoldable pub encrypt_secret : WebCrypto → Bytes → EncryptSecretInput → Option SealedBytes
encrypt_secret c nonce input = do
  aad ← secret_value_aad input.identity
  ciphertext ← aes_gcm_encrypt c (record {
    key = input.environment_key;
    nonce = nonce;
    plaintext = c.utf8_encode input.value;
    aad = aad;
  })
  some (record { nonce = nonce; ciphertext = ciphertext })

pub record DecryptSecretInput : Type 0 where
  pub identity : SecretValueAadInput
  pub environment_key : Bytes
  pub nonce : Bytes
  pub ciphertext : Bytes

unfoldable pub decrypt_secret : WebCrypto → DecryptSecretInput → Option Text
decrypt_secret c input = do
  aad ← secret_value_aad input.identity
  plaintext ← aes_gcm_decrypt c (record {
    key = input.environment_key;
    nonce = input.nonce;
    ciphertext = input.ciphertext;
    aad = aad;
  })
  c.utf8_decode plaintext
