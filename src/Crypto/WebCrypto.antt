-- ===== src/Crypto/WebCrypto.antt =====
-- What packages/crypto/src calls of Web Crypto, of the text codecs and of the random source, as
-- parameters, and what the code relies on. A random value is an argument of the code that draws it;
-- a call that throws gives `none`.
use keevault.Base.{◌+◌, ◌<◌, Option, some, length, All, ◌≡◌}
use keevault.Crypto.Text.{Text, Bytes, IsByte}

pub record WebCrypto : Type 0 where
  -- `TextEncoder.encode` and `TextDecoder.decode` with `fatal`.
  pub utf8_encode : Text → Bytes
  pub utf8_decode : Bytes → Option Text
  -- `digest("SHA-256", bytes)`.
  pub sha256 : Bytes → Bytes
  -- AES-GCM with 128 bits of tag, of a key, a nonce, the additional data and the text.
  pub encrypt : Bytes → Bytes → Bytes → Bytes → Bytes
  pub decrypt : Bytes → Bytes → Bytes → Bytes → Option Bytes
  -- The public component of a private X25519 key in PKCS#8, as its JWK has it.
  pub exported_x : Bytes → Option Text
  -- X25519 of a private key in PKCS#8 and a raw public key.
  pub derive_bits : Bytes → Bytes → Option Bytes
  -- HKDF-SHA256 to 256 bits, of the secret, the salt and the info.
  pub hkdf : Bytes → Bytes → Bytes → Bytes

-- AES-GCM opens what it has sealed, and appends 16 bytes.
pub record AesLaws (c : WebCrypto) : Type 0 where
  pub opens :
      (key nonce aad text : Bytes)
      → c.decrypt key nonce aad (c.encrypt key nonce aad text) ≡ some text
  pub size : (key nonce aad text : Bytes) → length (c.encrypt key nonce aad text) ≡ length text + 16
  pub bytes :
      (key nonce aad text : Bytes) → All IsByte text → All IsByte (c.encrypt key nonce aad text)

-- A text of code units below the surrogates, so without a byte order mark, is read back, and the
-- encoder gives bytes.
pub record Utf8Laws (c : WebCrypto) : Type 0 where
  pub reads :
      (text : Text)
      → All (λ unit. unit < 0xd800) text
      → c.utf8_decode (c.utf8_encode text) ≡ some text
  pub bytes : (text : Text) → All IsByte (c.utf8_encode text)
