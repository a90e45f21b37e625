-- ===== src/Crypto/Hierarchy/Opens.antt =====
-- What packages/crypto/src/hierarchy.ts has sealed, it opens under the same identity.
use mathlib.Core.Option.{some-injective}
use mathlib.Core.Path.{subst}
use keevault.Base.{
  not, Option, none, some, length, All, ◌==◌, ◌≡◌, refl, sym, ap, arith, else-eq-some,
}
use keevault.Crypto.Text.{Text, Bytes, IsByte}
use keevault.Crypto.WebCrypto.{WebCrypto, AesLaws, Utf8Laws}
use keevault.Crypto.Aesgcm.{SealedBytes, aes_gcm_encrypt, aes_gcm_decrypt, aes_gcm_decrypt-sealed}
use keevault.Crypto.Aad.{
  ◌>>=◌, EnvironmentKeyAadInput, environment_key_aad, SecretValueAadInput, secret_value_aad,
}
use keevault.Crypto.Hierarchy.{
  wrap_environment_key, unwrap_environment_key, encrypt_secret, decrypt_secret,
}

-- A chain that gives a value has given one at its first step.
then-some {ℓ κ} :
    {A : Type ℓ} {B : Type κ} {y : B} (first : Option A) (next : A → Option B)
    → (first >>= next) ≡ some y
    → (x : A) × (first ≡ some x) × (next x ≡ some y)
then-some none next h = cc
then-some (some x) next h = (x, refl, h)

encrypt-eq-some :
    (c : WebCrypto) (key nonce text sealed : Bytes) (aad : Text)
    → aes_gcm_encrypt c (record { key = key; nonce = nonce; plaintext = text; aad = aad })
      ≡ some sealed
    → (length key ≡ 32)
      × (length nonce ≡ 12)
      × (c.encrypt key nonce (c.utf8_encode aad) text ≡ sealed)
unfolding aes_gcm_encrypt
encrypt-eq-some c key nonce text sealed aad h =
    let (hn, h1) = else-eq-some (not (length nonce == 12)) _ h in
    let (hk, h2) = else-eq-some (not (length key == 32)) _ h1 in
    (ground arith, ground arith, some-injective _ _ h2)

module _ (c : WebCrypto) (laws : AesLaws c) where
  decrypt-of_encrypt :
      (key nonce text sealed : Bytes) (aad : Text)
      → aes_gcm_encrypt c (record { key = key; nonce = nonce; plaintext = text; aad = aad })
        ≡ some sealed
      → aes_gcm_decrypt c (record { key = key; nonce = nonce; ciphertext = sealed; aad = aad })
        ≡ some text
  decrypt-of_encrypt key nonce text sealed aad h =
      let (hk, hn, e) = encrypt-eq-some c key nonce text sealed aad h in
      subst
        (λ s.
          aes_gcm_decrypt c (record { key = key; nonce = nonce; ciphertext = s; aad = aad })
          ≡ some text)
        e (aes_gcm_decrypt-sealed c key nonce hk hn laws text aad)

  encrypted-IsByte :
      (key nonce text sealed : Bytes) (aad : Text)
      → All IsByte text
      → aes_gcm_encrypt c (record { key = key; nonce = nonce; plaintext = text; aad = aad })
        ≡ some sealed
      → All IsByte sealed
  encrypted-IsByte key nonce text sealed aad ht h =
      let (hk, hn, e) = encrypt-eq-some c key nonce text sealed aad h in
      subst (λ s. All IsByte s) e (laws.bytes key nonce (c.utf8_encode aad) text ht)

  pub unwrap_of_wrap :
      (identity : EnvironmentKeyAadInput) (project_key nonce environment_key : Bytes)
      (sealed : SealedBytes)
      → All IsByte environment_key
      → wrap_environment_key c nonce (record {
        identity = identity;
        project_key = project_key;
        environment_key = environment_key;
      })
        ≡ some sealed
      → (sealed.nonce ≡ nonce)
        × All IsByte sealed.ciphertext
        × (unwrap_environment_key c (record {
          identity = identity;
          project_key = project_key;
          nonce = nonce;
          ciphertext = sealed.ciphertext;
        })
            ≡ some environment_key)
  unfolding wrap_environment_key unwrap_environment_key
  unwrap_of_wrap identity project_key nonce environment_key sealed hb h =
      let (aad, e, h1) = then-some (environment_key_aad identity) _ h in
      let (ciphertext, f, h2) =
        then-some
          (aes_gcm_encrypt c
            (record { key = project_key; nonce = nonce; plaintext = environment_key; aad = aad }))
          _ h1 in
      let same : record { nonce = nonce; ciphertext = ciphertext } ≡ sealed =
        some-injective _ _ h2 in
      let cipher : ciphertext ≡ sealed.ciphertext = ap (λ (s : SealedBytes). s.ciphertext) same in
      (
        sym (ap (λ (s : SealedBytes). s.nonce) same),
        subst (λ t. All IsByte t) cipher
            (encrypted-IsByte project_key nonce environment_key ciphertext aad hb f),
        rw (e, sym cipher) (decrypt-of_encrypt project_key nonce environment_key ciphertext aad f),
      )

  pub decrypt_of_encrypt_secret :
      (utf8 : Utf8Laws c) (identity : SecretValueAadInput) (key nonce : Bytes) (value : Text)
      (sealed : SealedBytes)
      → encrypt_secret c nonce
          (record { identity = identity; environment_key = key; value = value })
        ≡ some sealed
      → (sealed.nonce ≡ nonce)
        × All IsByte sealed.ciphertext
        × (decrypt_secret c (record {
          identity = identity;
          environment_key = key;
          nonce = nonce;
          ciphertext = sealed.ciphertext;
        })
            ≡ c.utf8_decode (c.utf8_encode value))
  unfolding encrypt_secret decrypt_secret
  decrypt_of_encrypt_secret utf8 identity key nonce value sealed h =
      let text = c.utf8_encode value in
      let (aad, e, h1) = then-some (secret_value_aad identity) _ h in
      let (ciphertext, f, h2) =
        then-some
          (aes_gcm_encrypt c (record { key = key; nonce = nonce; plaintext = text; aad = aad })) _
          h1 in
      let same : record { nonce = nonce; ciphertext = ciphertext } ≡ sealed =
        some-injective _ _ h2 in
      let cipher : ciphertext ≡ sealed.ciphertext = ap (λ (s : SealedBytes). s.ciphertext) same in
      (
        sym (ap (λ (s : SealedBytes). s.nonce) same),
        subst (λ t. All IsByte t) cipher
            (encrypted-IsByte key nonce text ciphertext aad (utf8.bytes value) f),
        rw (e, sym cipher, decrypt-of_encrypt key nonce text ciphertext aad f) refl,
      )
