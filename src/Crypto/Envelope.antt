-- ===== src/Crypto/Envelope.antt =====
-- packages/crypto/src/envelope.ts: the delivery of an environment's key to one boot process.
pub mod Laws
use Prim.Native.Nat.{bit_or}
use keevault.Base.{ℕ, Option, none, some, List, [], ◌∷◌, ◌==◌, if◌then◌else◌}
use keevault.Crypto.Text.{Text, Bytes}
use keevault.Crypto.Encoding.{b64u_encode, b64u_decode}
use keevault.Crypto.WebCrypto.{WebCrypto}
use keevault.Crypto.Aesgcm.{aes_gcm_encrypt, aes_gcm_decrypt}
use keevault.Crypto.Aad.{◌>>=◌, BootEnvelopeInfoInput, boot_envelope_info}
use keevault.Crypto.Keys.{
  import_x25519_private_key, import_x25519_public_key, x25519_public_key_from_private,
  key_fingerprint,
}

pub record BootEnvelope : Type 0 where
  pub server_public_key : Text
  pub salt : Text
  pub nonce : Text
  pub ciphertext : Text

-- `for (const byte of shared) sharedBits |= byte`.
unfoldable pub shared_bits : Bytes → ℕ → ℕ
shared_bits [] so_far = so_far
shared_bits (byte ∷ shared) so_far = shared_bits shared (bit_or so_far byte)

-- The secret, which must not be all zero.
unfoldable pub shared_secret : WebCrypto → Bytes → Bytes → Option Bytes
unfolding shared_bits
shared_secret c private_pkcs8 peer_public_key = do
  shared ← c.derive_bits private_pkcs8 peer_public_key
  if shared_bits shared 0 == 0 then none else some shared

pub record DeriveEnvelopeWrapKeyInput : Type 0 where
  pub private_key : Bytes
  pub peer_public_key : Bytes
  pub salt : Bytes
  pub info : Text

unfoldable pub derive_envelope_wrap_key : WebCrypto → DeriveEnvelopeWrapKeyInput → Option Bytes
derive_envelope_wrap_key c input = do
  private_key ← import_x25519_private_key input.private_key
  peer_public_key ← import_x25519_public_key input.peer_public_key
  shared ← shared_secret c private_key peer_public_key
  some (c.hkdf shared input.salt (c.utf8_encode input.info))

-- The material given, or drawn at random.
pub record BootEnvelopeMaterial : Type 0 where
  pub server_private_key : Bytes
  pub salt : Bytes
  pub nonce : Bytes

pub record CreateBootEnvelopeInput : Type 0 where
  pub boot_id : Text
  pub environment_id : Text
  pub environment_key_version : ℕ
  pub environment_key : Bytes
  pub client_public_key : Bytes
  pub material : BootEnvelopeMaterial

pub record CreatedBootEnvelope : Type 0 where
  pub envelope : BootEnvelope
  pub info : Text

abbrev pub envelope_info : WebCrypto → Text → Text → ℕ → Bytes → Bytes → Option Text
envelope_info c boot_id environment_id version client_public_key server_public_key =
    boot_envelope_info (record {
      boot_id = boot_id;
      environment_id = environment_id;
      environment_key_version = version;
      client_public_key_fingerprint = key_fingerprint c client_public_key;
      server_public_key_fingerprint = key_fingerprint c server_public_key;
    })

unfoldable pub create_boot_envelope :
    WebCrypto → CreateBootEnvelopeInput → Option CreatedBootEnvelope
create_boot_envelope c input = do
  server_public_key ← x25519_public_key_from_private c input.material.server_private_key
  info ←
      envelope_info c input.boot_id input.environment_id input.environment_key_version
        input.client_public_key server_public_key
  wrap_key ← derive_envelope_wrap_key c (record {
    private_key = input.material.server_private_key;
    peer_public_key = input.client_public_key;
    salt = input.material.salt;
    info = info;
  })
  ciphertext ← aes_gcm_encrypt c (record {
    key = wrap_key;
    nonce = input.material.nonce;
    plaintext = input.environment_key;
    aad = info;
  })
  some (record {
    envelope = record {
      server_public_key = b64u_encode server_public_key;
      salt = b64u_encode input.material.salt;
      nonce = b64u_encode input.material.nonce;
      ciphertext = b64u_encode ciphertext;
    };
    info = info;
  })

pub record OpenBootEnvelopeInput : Type 0 where
  pub boot_id : Text
  pub environment_id : Text
  pub environment_key_version : ℕ
  pub client_private_key : Bytes
  pub envelope : BootEnvelope

unfoldable pub open_boot_envelope : WebCrypto → OpenBootEnvelopeInput → Option Bytes
open_boot_envelope c input = do
  server_public_key ← b64u_decode input.envelope.server_public_key
  client_public_key ← x25519_public_key_from_private c input.client_private_key
  info ←
      envelope_info c input.boot_id input.environment_id input.environment_key_version
        client_public_key server_public_key
  salt ← b64u_decode input.envelope.salt
  wrap_key ← derive_envelope_wrap_key c (record {
    private_key = input.client_private_key;
    peer_public_key = server_public_key;
    salt = salt;
    info = info;
  })
  nonce ← b64u_decode input.envelope.nonce
  ciphertext ← b64u_decode input.envelope.ciphertext
  aes_gcm_decrypt c (record { key = wrap_key; nonce = nonce; ciphertext = ciphertext; aad = info })
