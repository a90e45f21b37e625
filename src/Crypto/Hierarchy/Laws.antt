-- ===== src/Crypto/Hierarchy/Laws.antt =====
-- What is wrapped under a key of packages/crypto/src/hierarchy.ts is unwrapped with it.
use keevault.Base.{◌≤◌, ◌<◌, Option, none, some, length, All, leb, true, ◌≡◌, refl, arith}
use keevault.Crypto.Text.{Text, Bytes}
use keevault.Crypto.Text.Decimal.{decimal}
use keevault.Crypto.WebCrypto.{WebCrypto, AesLaws, Utf8Laws}
use keevault.Crypto.Aesgcm.{SealedBytes, aes_gcm_encrypt-some, aes_gcm_decrypt-sealed}
use keevault.Crypto.Aad.{
  ◌>>=◌, max_safe_integer, canonical_integer, ProjectKeyAadInput, project_key_aad,
  EnvironmentKeyAadInput, environment_key_aad, SecretValueAadInput, secret_value_aad,
}
use keevault.Crypto.Hierarchy.{
  wrap_project_key, unwrap_project_key, wrap_environment_key, unwrap_environment_key,
  encrypt_secret, decrypt_secret,
}

pub canonical_integer-some :
    (version : _) → version ≤ max_safe_integer → canonical_integer version ≡ some (decimal version)
unfolding canonical_integer
canonical_integer-some version h =
    let e : leb version max_safe_integer ≡ true = ground arith in rw e refl

two-some :
    (v w : Option Text) (f : Text → Text → Text) {x y : Text}
    → v ≡ some x
    → w ≡ some y
    → (aad : Text) × ((v >>= λ a. w >>= λ b. some (f a b)) ≡ some aad)
two-some none w f h g = cc
two-some (some a) none f h g = cc
two-some (some a) (some b) f h g = (f a b, refl)

project_key_aad-some :
    (i : ProjectKeyAadInput)
    → i.project_key_version ≤ max_safe_integer
    → i.master_key_version ≤ max_safe_integer
    → (aad : Text) × (project_key_aad i ≡ some aad)
unfolding project_key_aad
project_key_aad-some i hv hw =
    two-some (canonical_integer i.project_key_version) (canonical_integer i.master_key_version) _
      (canonical_integer-some i.project_key_version hv)
      (canonical_integer-some i.master_key_version hw)

environment_key_aad-some :
    (i : EnvironmentKeyAadInput)
    → i.environment_key_version ≤ max_safe_integer
    → i.project_key_version ≤ max_safe_integer
    → (aad : Text) × (environment_key_aad i ≡ some aad)
unfolding environment_key_aad
environment_key_aad-some i hv hw =
    two-some (canonical_integer i.environment_key_version) (canonical_integer i.project_key_version)
      _ (canonical_integer-some i.environment_key_version hv)
      (canonical_integer-some i.project_key_version hw)

secret_value_aad-some :
    (i : SecretValueAadInput)
    → i.secret_version ≤ max_safe_integer
    → i.environment_key_version ≤ max_safe_integer
    → (aad : Text) × (secret_value_aad i ≡ some aad)
unfolding secret_value_aad
secret_value_aad-some i hv hw =
    two-some (canonical_integer i.secret_version) (canonical_integer i.environment_key_version) _
      (canonical_integer-some i.secret_version hv)
      (canonical_integer-some i.environment_key_version hw)

module _ (c : WebCrypto) (laws : AesLaws c) where
  -- With keys and nonces of their lengths and versions that a canonical string can hold, a project
  -- key that is wrapped under the master key is unwrapped under the same identity.
  pub unwrap-wrap_project_key :
      (identity : ProjectKeyAadInput) (master_key nonce project_key : Bytes)
      → identity.project_key_version ≤ max_safe_integer
      → identity.master_key_version ≤ max_safe_integer
      → length master_key ≡ 32
      → length nonce ≡ 12
      → (sealed : SealedBytes) × (wrap_project_key c nonce
            (record { identity = identity; master_key = master_key; project_key = project_key })
          ≡ some sealed)
        × (unwrap_project_key c (record {
          identity = identity;
          master_key = master_key;
          nonce = sealed.nonce;
          ciphertext = sealed.ciphertext;
        })
            ≡ some project_key)
  unfolding wrap_project_key unwrap_project_key
  unwrap-wrap_project_key identity master_key nonce project_key hv hm hk hn =
      let (aad, e) = project_key_aad-some identity hv hm in
      let f = aes_gcm_encrypt-some c master_key nonce hk hn project_key aad in
      let g = aes_gcm_decrypt-sealed c master_key nonce hk hn laws project_key aad in
      (
        record {
          nonce = nonce;
          ciphertext = c.encrypt master_key nonce (c.utf8_encode aad) project_key;
        },
        rw (e, f) refl,
        rw e g,
      )

  -- With keys and nonces of their lengths and versions that a canonical string can hold, an
  -- environment key that is wrapped under its project's is unwrapped under the same identity.
  pub unwrap-wrap_environment_key :
      (identity : EnvironmentKeyAadInput) (project_key nonce environment_key : Bytes)
      → identity.environment_key_version ≤ max_safe_integer
      → identity.project_key_version ≤ max_safe_integer
      → length project_key ≡ 32
      → length nonce ≡ 12
      → (sealed : SealedBytes) × (wrap_environment_key c nonce (record {
        identity = identity;
        project_key = project_key;
        environment_key = environment_key;
      })
          ≡ some sealed)
        × (unwrap_environment_key c (record {
          identity = identity;
          project_key = project_key;
          nonce = sealed.nonce;
          ciphertext = sealed.ciphertext;
        })
            ≡ some environment_key)
  unfolding wrap_environment_key unwrap_environment_key
  unwrap-wrap_environment_key identity project_key nonce environment_key hv hp hk hn =
      let (aad, e) = environment_key_aad-some identity hv hp in
      let f = aes_gcm_encrypt-some c project_key nonce hk hn environment_key aad in
      let g = aes_gcm_decrypt-sealed c project_key nonce hk hn laws environment_key aad in
      (
        record {
          nonce = nonce;
          ciphertext = c.encrypt project_key nonce (c.utf8_encode aad) environment_key;
        },
        rw (e, f) refl,
        rw e g,
      )

  -- With a key and a nonce of their lengths, versions that a canonical string can hold and a value of
  -- code units below the surrogates, the value is read back under the same identity.
  pub decrypt-encrypt_secret :
      (utf8 : Utf8Laws c) (identity : SecretValueAadInput) (environment_key nonce : Bytes)
      (value : Text)
      → identity.secret_version ≤ max_safe_integer
      → identity.environment_key_version ≤ max_safe_integer
      → length environment_key ≡ 32
      → length nonce ≡ 12
      → All (λ unit. unit < 0xd800) value
      → (sealed : SealedBytes) × (encrypt_secret c nonce
            (record { identity = identity; environment_key = environment_key; value = value })
          ≡ some sealed)
        × (decrypt_secret c (record {
          identity = identity;
          environment_key = environment_key;
          nonce = sealed.nonce;
          ciphertext = sealed.ciphertext;
        })
            ≡ some value)
  unfolding encrypt_secret decrypt_secret
  decrypt-encrypt_secret utf8 identity environment_key nonce value hv hk hl hn ht =
      let (aad, e) = secret_value_aad-some identity hv hk in
      let f = aes_gcm_encrypt-some c environment_key nonce hl hn (c.utf8_encode value) aad in
      let g = aes_gcm_decrypt-sealed c environment_key nonce hl hn laws (c.utf8_encode value) aad in
      (
        record {
          nonce = nonce;
          ciphertext = c.encrypt environment_key nonce (c.utf8_encode aad) (c.utf8_encode value);
        },
        rw (e, f) refl,
        rw (e, g) (utf8.reads value ht),
      )
