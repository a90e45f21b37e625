-- ===== src/Crypto/Aesgcm.antt =====
-- packages/crypto/src/aesgcm.ts.
use keevault.Base.{
  ℕ, false, Option, none, some, not, ◌==◌, ltb, length, if◌then◌else◌, ◌≡◌, refl, arith,
}
use keevault.Crypto.Text.{Text, Bytes}
use keevault.Crypto.WebCrypto.{WebCrypto, AesLaws}

abbrev pub aes_key_length : ℕ
aes_key_length = 32

abbrev pub aes_nonce_length : ℕ
aes_nonce_length = 12

abbrev pub aes_tag_length : ℕ
aes_tag_length = 16

pub record AesGcmEncryptInput : Type 0 where
  pub key : Bytes
  pub nonce : Bytes
  pub plaintext : Bytes
  pub aad : Text

-- The key is imported after the test of the nonce.
unfoldable pub aes_gcm_encrypt : WebCrypto → AesGcmEncryptInput → Option Bytes
aes_gcm_encrypt c input =
    if not (length input.nonce == aes_nonce_length)
    then none
    else if not (length input.key == aes_key_length)
    then none
    else some (c.encrypt input.key input.nonce (c.utf8_encode input.aad) input.plaintext)

pub record AesGcmDecryptInput : Type 0 where
  pub key : Bytes
  pub nonce : Bytes
  pub ciphertext : Bytes
  pub aad : Text

unfoldable pub aes_gcm_decrypt : WebCrypto → AesGcmDecryptInput → Option Bytes
aes_gcm_decrypt c input =
    if not (length input.nonce == aes_nonce_length)
    then none
    else if ltb (length input.ciphertext) aes_tag_length
    then none
    else if not (length input.key == aes_key_length)
    then none
    else c.decrypt input.key input.nonce (c.utf8_encode input.aad) input.ciphertext

pub record SealedBytes : Type 0 where
  pub nonce : Bytes
  pub ciphertext : Bytes

module _ (c : WebCrypto) (key nonce : Bytes) (hk : length key ≡ 32) (hn : length nonce ≡ 12) where
  -- With a key and a nonce of their lengths, sealing succeeds.
  pub aes_gcm_encrypt-some :
      (text : Bytes) (aad : Text)
      → aes_gcm_encrypt c (record { key = key; nonce = nonce; plaintext = text; aad = aad })
        ≡ some (c.encrypt key nonce (c.utf8_encode aad) text)
  unfolding aes_gcm_encrypt
  aes_gcm_encrypt-some text aad = rw (hn, hk) refl

  -- What is sealed is opened with the same additional text.
  pub aes_gcm_decrypt-sealed :
      (laws : AesLaws c) (text : Bytes) (aad : Text)
      → aes_gcm_decrypt c (record {
        key = key;
        nonce = nonce;
        ciphertext = c.encrypt key nonce (c.utf8_encode aad) text;
        aad = aad;
      })
        ≡ some text
  unfolding aes_gcm_decrypt
  aes_gcm_decrypt-sealed laws text aad =
      let size = laws.size key nonce (c.utf8_encode aad) text in
      let long : ltb (length (c.encrypt key nonce (c.utf8_encode aad) text)) 16 ≡ false =
        ground arith in
      rw (hn, hk, long) (laws.opens key nonce (c.utf8_encode aad) text)
