-- ===== src/Crypto/Keys.antt =====
-- The X25519 half of packages/crypto/src/keys.ts, with fingerprint.ts.
use keevault.Base.{ℕ, Option, none, some, [], ◌∷◌, not, ◌==◌, length, All, if◌then◌else◌, ◌≡◌}
use keevault.Crypto.Text.{Text, Bytes, IsByte}
use keevault.Crypto.Encoding.{b64u_decode, hex_encode, concat_bytes}
use keevault.Crypto.Aad.{◌>>=◌}
use keevault.Crypto.WebCrypto.{WebCrypto}

abbrev pub key_length : ℕ
key_length = 32

abbrev pub x25519_pkcs8_prefix : Bytes
x25519_pkcs8_prefix =
    0x30 ∷ 0x2e ∷ 0x02 ∷ 0x01 ∷ 0x00 ∷ 0x30 ∷ 0x05 ∷ 0x06 ∷ 0x03 ∷ 0x2b ∷ 0x65 ∷ 0x6e ∷ 0x04 ∷ 0x22
    ∷ 0x04 ∷ 0x20 ∷ []

-- `requireKeyLength`, of the key that it lets through.
unfoldable pub require_key_length : Bytes → Option Bytes
require_key_length key = if not (length key == key_length) then none else some key

-- The PKCS#8 bytes that the platform imports.
unfoldable pub import_x25519_private_key : Bytes → Option Bytes
unfolding require_key_length concat_bytes
import_x25519_private_key private_key = do
  key ← require_key_length private_key
  some (concat_bytes (x25519_pkcs8_prefix ∷ key ∷ []))

unfoldable pub import_x25519_public_key : Bytes → Option Bytes
unfolding require_key_length
import_x25519_public_key public_key = require_key_length public_key

unfoldable pub public_key_bytes_from_private : WebCrypto → Bytes → Option Bytes
public_key_bytes_from_private c private_key = c.exported_x private_key >>= b64u_decode

unfoldable pub x25519_public_key_from_private : WebCrypto → Bytes → Option Bytes
unfolding public_key_bytes_from_private import_x25519_private_key
x25519_public_key_from_private c private_key =
    import_x25519_private_key private_key >>= public_key_bytes_from_private c

unfoldable pub key_fingerprint : WebCrypto → Bytes → Text
key_fingerprint c raw_public_key = hex_encode (c.sha256 raw_public_key)

-- What X25519 and its keys' export promise: a private key of 32 bytes has a public key of 32 bytes,
-- and two parties compute one shared secret.
pub record X25519Laws (c : WebCrypto) : Type 0 where
  pub size :
      (private public : Bytes)
      → x25519_public_key_from_private c private ≡ some public
      → (length public ≡ 32) × All IsByte public
  pub agrees :
      (one other one_public other_public one_pkcs8 other_pkcs8 : Bytes)
      → x25519_public_key_from_private c one ≡ some one_public
      → x25519_public_key_from_private c other ≡ some other_public
      → import_x25519_private_key one ≡ some one_pkcs8
      → import_x25519_private_key other ≡ some other_pkcs8
      → c.derive_bits one_pkcs8 other_public ≡ c.derive_bits other_pkcs8 one_public
