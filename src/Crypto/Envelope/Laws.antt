-- ===== src/Crypto/Envelope/Laws.antt =====
-- What the server seals with packages/crypto/src/envelope.ts, the boot's private key opens.
use keevault.Base.{ℕ, false, ◌==◌, Option, none, some, length, All, ◌≤◌, ◌≡◌, refl, ◌∙◌}
use keevault.Crypto.Text.{Text, Bytes, IsByte}
use keevault.Crypto.Encoding.{b64u_encode}
use keevault.Crypto.Encoding.Base64.{b64u_decode-b64u_encode}
use keevault.Crypto.WebCrypto.{WebCrypto, AesLaws}
use keevault.Crypto.Aesgcm.{aes_gcm_encrypt-some, aes_gcm_decrypt-sealed}
use keevault.Crypto.Aad.{◌>>=◌, max_safe_integer, boot_envelope_info, canonical_integer}
use keevault.Crypto.Hierarchy.Laws.{canonical_integer-some}
use keevault.Crypto.Keys.{
  require_key_length, import_x25519_private_key, import_x25519_public_key,
  x25519_public_key_from_private, X25519Laws,
}
use keevault.Crypto.Envelope.{
  shared_bits, shared_secret, derive_envelope_wrap_key, envelope_info, CreateBootEnvelopeInput,
  CreatedBootEnvelope, create_boot_envelope, open_boot_envelope,
}

one-some {ℓ κ} :
    {A : Type ℓ} {B : Type κ} (o : Option A) (f : A → B) {x : A}
    → o ≡ some x
    → (y : B) × ((o >>= λ a. some (f a)) ≡ some y)
one-some none f h = cc
one-some (some a) f h = (f a, refl)

envelope_info-some :
    (c : WebCrypto) (boot_id environment_id : Text) (version : ℕ) (client server : Bytes)
    → version ≤ max_safe_integer
    → (info : Text) × (envelope_info c boot_id environment_id version client server ≡ some info)
unfolding boot_envelope_info
envelope_info-some c boot_id environment_id version client server h =
    one-some (canonical_integer version) _ (canonical_integer-some version h)

require_key_length-some : (key : Bytes) → length key ≡ 32 → require_key_length key ≡ some key
unfolding require_key_length
require_key_length-some key h = rw h refl

import_private-some :
    (key : Bytes) → length key ≡ 32 → (pkcs8 : Bytes) × (import_x25519_private_key key ≡ some pkcs8)
unfolding import_x25519_private_key
import_private-some key h = one-some (require_key_length key) _ (require_key_length-some key h)

-- The secret that both sides use is the one that is derived, if it has a bit set.
shared_secret-some :
    (c : WebCrypto) (pkcs8 peer shared : Bytes)
    → c.derive_bits pkcs8 peer ≡ some shared
    → (shared_bits shared 0 == 0) ≡ false
    → shared_secret c pkcs8 peer ≡ some shared
unfolding shared_secret
shared_secret-some c pkcs8 peer shared h bits = rw (h, bits) refl

derive-some :
    (c : WebCrypto) (private_key peer salt pkcs8 shared : Bytes) (info : Text)
    → import_x25519_private_key private_key ≡ some pkcs8
    → length peer ≡ 32
    → shared_secret c pkcs8 peer ≡ some shared
    → derive_envelope_wrap_key c
        (record { private_key = private_key; peer_public_key = peer; salt = salt; info = info })
      ≡ some (c.hkdf shared salt (c.utf8_encode info))
unfolding derive_envelope_wrap_key import_x25519_public_key
derive-some c private_key peer salt pkcs8 shared info hp hl hs =
    rw (hp, require_key_length-some peer hl, hs) refl

-- HKDF to 256 bits gives 32 bytes.
pub record HkdfLaws (c : WebCrypto) : Type 0 where
  pub size : (secret salt info : Bytes) → length (c.hkdf secret salt info) ≡ 32

module _ (c : WebCrypto) (aes : AesLaws c) (x25519 : X25519Laws c) (hkdf : HkdfLaws c) where
  -- For a client and a server with 32-byte private keys and a shared secret that is not all zero, a
  -- key of bytes, a salt of bytes, a nonce of 12 bytes and a version that a canonical string can hold:
  -- the server makes an envelope, and the client's private key opens it, for the same boot, environment
  -- and version, to the same key.
  pub open-create_boot_envelope :
      (input : CreateBootEnvelopeInput) (client_private_key server_public_key pkcs8 shared : Bytes)
      → length client_private_key ≡ 32
      → x25519_public_key_from_private c client_private_key ≡ some input.client_public_key
      → x25519_public_key_from_private c input.material.server_private_key ≡ some server_public_key
      → import_x25519_private_key input.material.server_private_key ≡ some pkcs8
      → c.derive_bits pkcs8 input.client_public_key ≡ some shared
      → (shared_bits shared 0 == 0) ≡ false
      → All IsByte input.environment_key
      → All IsByte input.material.salt
      → All IsByte input.material.nonce
      → length input.material.nonce ≡ 12
      → input.environment_key_version ≤ max_safe_integer
      → (created : CreatedBootEnvelope) × (create_boot_envelope c input ≡ some created)
        × (open_boot_envelope c (record {
          boot_id = input.boot_id;
          environment_id = input.environment_id;
          environment_key_version = input.environment_key_version;
          client_private_key = client_private_key;
          envelope = created.envelope;
        })
            ≡ some input.environment_key)
  unfolding create_boot_envelope open_boot_envelope
  open-create_boot_envelope input private server pkcs8 shared hl hc hs hp hd bits hk hsalt hn h12
        hv =
      let client = input.client_public_key in
      let m = input.material in
      let (info, ei) =
        envelope_info-some c input.boot_id input.environment_id input.environment_key_version client
          server hv in
      let (own, eo) = import_private-some private hl in
      let agreed : c.derive_bits own server ≡ some shared =
        x25519.agrees private m.server_private_key client server own pkcs8 hc hs eo hp ∙ hd in
      let key = c.hkdf shared m.salt (c.utf8_encode info) in
      let sealing =
        derive-some c m.server_private_key client m.salt pkcs8 shared info hp
          (x25519.size private client hc).0 (shared_secret-some c pkcs8 client shared hd bits) in
      let opening =
        derive-some c private server m.salt own shared info eo
          (x25519.size m.server_private_key server hs).0
          (shared_secret-some c own server shared agreed bits) in
      let hkey = hkdf.size shared m.salt (c.utf8_encode info) in
      let sealed = c.encrypt key m.nonce (c.utf8_encode info) input.environment_key in
      let read_server =
        b64u_decode-b64u_encode server (x25519.size m.server_private_key server hs).1 in
      let read_salt = b64u_decode-b64u_encode m.salt hsalt in
      let read_nonce = b64u_decode-b64u_encode m.nonce hn in
      let read_sealed =
        b64u_decode-b64u_encode sealed (aes.bytes key m.nonce (c.utf8_encode info) _ hk) in
      let encrypts = aes_gcm_encrypt-some c key m.nonce hkey h12 input.environment_key info in
      let decrypts = aes_gcm_decrypt-sealed c key m.nonce hkey h12 aes input.environment_key info in
      (
        record {
          envelope = record {
            server_public_key = b64u_encode server;
            salt = b64u_encode m.salt;
            nonce = b64u_encode m.nonce;
            ciphertext = b64u_encode sealed;
          };
          info = info;
        },
        rw (hs, ei, sealing, encrypts) refl,
        rw (read_server, hc, ei, read_salt, opening, read_nonce, read_sealed) decrypts,
      )
