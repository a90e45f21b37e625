-- ===== src/Crypto/Tests/Sealing.antt =====
-- The sealed values of packages/crypto/src at concrete inputs, over a Web Crypto that appends 16 zero
-- bytes to a sealed text and has one key pair.
use mathlib.Core.Option.{some-injective}
use mathlib.Core.Path.{subst}
use keevault.Base.{
  ◌+◌, ℕ, zero, suc, ◌-◌, ◌==◌, true, false, Option, none, some, [], ◌∷◌, ◌++◌, length,
  length-append, All, ◌≡◌, refl, sym, ap, ◌∙◌, arith, ◌*◌, ◌/◌, ◌%◌, ◌<◌,
}
use keevault.Crypto.Text.{Text, Bytes, IsByte, codes, take, take-append}
use keevault.Crypto.Encoding.{b64u_decode, b64u_value, b64u_loop, b64u_finish, concat_bytes}
use keevault.Crypto.WebCrypto.{WebCrypto, AesLaws, Utf8Laws}
use keevault.Crypto.Aesgcm.{SealedBytes}
use keevault.Crypto.Aad.{◌>>=◌, SecretValueAadInput}
use keevault.Crypto.Aad.Injective.{Lacks_of_none}
use keevault.Crypto.Keys.{
  require_key_length, import_x25519_private_key, public_key_bytes_from_private,
  x25519_public_key_from_private, X25519Laws,
}
use keevault.Crypto.Hierarchy.{encrypt_secret, decrypt_secret}
use keevault.Crypto.Hierarchy.Laws.{decrypt-encrypt_secret}
use keevault.Crypto.Envelope.{
  shared_bits, CreateBootEnvelopeInput, CreatedBootEnvelope, create_boot_envelope,
  open_boot_envelope,
}
use keevault.Crypto.Envelope.Laws.{HkdfLaws, open-create_boot_envelope}
use keevault.Crypto.Resume.{
  Signatures, Ed25519Laws, SignResumeInput, ed25519_public_key_from_seed,
  import_ed25519_private_key, sign_resume, verify_resume, verify-sign_resume,
  build_resume_message-injective,
}

abbrev repeat : ℕ → ℕ → Bytes
repeat zero byte = []
repeat (suc n) byte = byte ∷ repeat n byte

-- 32 bytes, and their base64url text.
abbrev pub key : Bytes
key = repeat 32 7

abbrev public : Bytes
public = repeat 32 0

abbrev public_text : Text
public_text = codes "AAAAAAAAAAAAAAAAAAAAAAAAAAAAAAAAAAAAAAAAAAA"

public_text_read : b64u_decode public_text ≡ some public
unfolding b64u_decode b64u_loop b64u_value b64u_finish
public_text_read = refl

abbrev tag : Bytes
tag = repeat 16 0

abbrev pub nonce : Bytes
nonce = repeat 12 9

-- Two bytes for a code unit.
unfoldable pub encode_units : Text → Bytes
encode_units [] = []
encode_units (unit ∷ text) = unit / 256 % 256 ∷ unit % 256 ∷ encode_units text

unfoldable pub decode_units : Bytes → Text
decode_units [] = []
decode_units (high ∷ []) = []
decode_units (high ∷ low ∷ bytes) = (high * 256 + low) ∷ decode_units bytes

decode-encode_units :
    (text : Text) → All (λ unit. unit < 0xd800) text → decode_units (encode_units text) ≡ text
unfolding encode_units decode_units
decode-encode_units [] h = refl
decode-encode_units (unit ∷ text) (h, rest) =
    let same : unit / 256 % 256 * 256 + unit % 256 ≡ unit = omega arith in
    rw (same, decode-encode_units text rest) refl

encode_units-IsByte : (text : Text) → All IsByte (encode_units text)
unfolding encode_units
encode_units-IsByte [] = tt
encode_units-IsByte (unit ∷ text) = (omega arith, (omega arith, encode_units-IsByte text))

abbrev pub crypto : WebCrypto
crypto = record {
  utf8_encode = encode_units;
  utf8_decode = λ bytes. some (decode_units bytes);
  sha256 = λ bytes. length bytes ∷ [];
  encrypt = λ key nonce aad text. text ++ tag;
  decrypt = λ key nonce aad sealed. some (take (length sealed - 16) sealed);
  exported_x = λ key. some public_text;
  derive_bits = λ private public. some (0 ∷ 5 ∷ []);
  hkdf = λ secret salt info. key;
}

append-IsByte : (xs : Bytes) → All IsByte xs → All IsByte (xs ++ tag)
append-IsByte [] h = ground arith
append-IsByte (x ∷ xs) (hx, h) = (hx, append-IsByte xs h)

take_before_tag : (text : Bytes) → take (length (text ++ tag) - 16) (text ++ tag) ≡ text
take_before_tag text =
    let size : length (text ++ tag) - 16 ≡ length text = omega (arith, length-append text tag) in
    ap (λ n. take n (text ++ tag)) size ∙ take-append text tag

pub crypto-AesLaws : AesLaws crypto
crypto-AesLaws = record {
  opens = λ key nonce aad text. ap (λ t. some t) (take_before_tag text);
  size = λ key nonce aad text. length-append text tag;
  bytes = λ key nonce aad text h. append-IsByte text h;
}

pub crypto-Utf8Laws : Utf8Laws crypto
crypto-Utf8Laws = record {
  reads = λ text h. ap (λ t. some t) (decode-encode_units text h);
  bytes = λ text. encode_units-IsByte text;
}

crypto-HkdfLaws : HkdfLaws crypto
crypto-HkdfLaws = record { size = λ secret salt info. refl }

public_size :
    (o : Option Bytes) {result : Bytes}
    → (o >>= λ private. b64u_decode public_text) ≡ some result
    → (length result ≡ 32) × All IsByte result
public_size none h = cc
public_size (some private) h =
    subst (λ p. (length p ≡ 32) × All IsByte p) (some-injective _ _ (sym public_text_read ∙ h))
      (refl, ground arith)

crypto-X25519Laws : X25519Laws crypto
unfolding x25519_public_key_from_private public_key_bytes_from_private
crypto-X25519Laws = record {
  size = λ private result h. public_size (import_x25519_private_key private) h;
  agrees = λ a b a_public b_public a_pkcs8 b_pkcs8 ha hb ia ib. refl;
}

abbrev secret : SecretValueAadInput
secret = record {
  project_id = codes "proj_1";
  environment_id = codes "env_1";
  secret_id = codes "sec_1";
  secret_name = codes "TOKEN";
  secret_version = 1;
  environment_key_version = 3;
}

decrypt-encrypt_secret_example :
    (sealed : SealedBytes) × (encrypt_secret crypto nonce
        (record { identity = secret; environment_key = key; value = codes "hunter2" })
      ≡ some sealed)
    × (decrypt_secret crypto (record {
      identity = secret;
      environment_key = key;
      nonce = sealed.nonce;
      ciphertext = sealed.ciphertext;
    })
        ≡ some (codes "hunter2"))
decrypt-encrypt_secret_example =
    decrypt-encrypt_secret crypto crypto-AesLaws crypto-Utf8Laws secret key nonce (codes "hunter2")
      (ground arith) (ground arith) refl refl (ground arith)

abbrev delivery : CreateBootEnvelopeInput
delivery = record {
  boot_id = codes "boot_1";
  environment_id = codes "env_1";
  environment_key_version = 3;
  environment_key = key;
  client_public_key = public;
  material = record { server_private_key = key; salt = repeat 32 4; nonce = nonce };
}

key_public : x25519_public_key_from_private crypto key ≡ some public
unfolding x25519_public_key_from_private import_x25519_private_key require_key_length
    public_key_bytes_from_private b64u_decode b64u_loop b64u_value b64u_finish
key_public = refl

abbrev key_pkcs8 : Bytes
key_pkcs8 =
    0x30 ∷ 0x2e ∷ 0x02 ∷ 0x01 ∷ 0x00 ∷ 0x30 ∷ 0x05 ∷ 0x06 ∷ 0x03 ∷ 0x2b ∷ 0x65 ∷ 0x6e ∷ 0x04 ∷ 0x22
    ∷ 0x04 ∷ 0x20 ∷ key

key_imported : import_x25519_private_key key ≡ some key_pkcs8
unfolding import_x25519_private_key require_key_length concat_bytes
key_imported = refl

some_bit_set : (shared_bits (0 ∷ 5 ∷ []) 0 == 0) ≡ false
unfolding shared_bits
some_bit_set = refl

open-create_boot_envelope_example :
    (created : CreatedBootEnvelope) × (create_boot_envelope crypto delivery ≡ some created)
    × (open_boot_envelope crypto (record {
      boot_id = codes "boot_1";
      environment_id = codes "env_1";
      environment_key_version = 3;
      client_private_key = key;
      envelope = created.envelope;
    })
        ≡ some key)
open-create_boot_envelope_example =
    open-create_boot_envelope crypto crypto-AesLaws crypto-X25519Laws crypto-HkdfLaws delivery key
      public key_pkcs8 (0 ∷ 5 ∷ []) refl key_public key_public key_imported refl some_bit_set
      (ground arith) (ground arith) (ground arith) refl (ground arith)

abbrev signatures : Signatures
signatures = record {
  utf8_encode = λ text. text;
  exported_x = λ key. some public_text;
  sign = λ key message. public ++ public;
  verify = λ key signature message. true;
}

seed_public : ed25519_public_key_from_seed signatures key ≡ some public
unfolding ed25519_public_key_from_seed import_ed25519_private_key require_key_length concat_bytes
    b64u_decode b64u_loop b64u_value b64u_finish
seed_public = refl

signatures-Ed25519Laws : Ed25519Laws signatures
unfolding ed25519_public_key_from_seed
signatures-Ed25519Laws = record {
  key_size = λ seed result h. (public_size (import_ed25519_private_key seed) h).0;
  size = λ key message. refl;
  bytes = λ key message. ground arith;
  verifies = λ seed result pkcs8 message hp hi. refl;
}

abbrev resume : SignResumeInput
resume = record { seed = key; boot_id = codes "boot_1"; challenge = codes "AAAA" }

abbrev seed_pkcs8 : Bytes
seed_pkcs8 =
    0x30 ∷ 0x2e ∷ 0x02 ∷ 0x01 ∷ 0x00 ∷ 0x30 ∷ 0x05 ∷ 0x06 ∷ 0x03 ∷ 0x2b ∷ 0x65 ∷ 0x70 ∷ 0x04 ∷ 0x22
    ∷ 0x04 ∷ 0x20 ∷ key

seed_imported : import_ed25519_private_key key ≡ some seed_pkcs8
unfolding import_ed25519_private_key require_key_length concat_bytes
seed_imported = refl

verify-sign_resume_example :
    (signature : Text) × (sign_resume signatures resume ≡ some signature)
    × (verify_resume signatures (record {
      public_key = public;
      boot_id = codes "boot_1";
      challenge = codes "AAAA";
      signature = signature;
    })
        ≡ some true)
verify-sign_resume_example =
    verify-sign_resume signatures signatures-Ed25519Laws resume public seed_pkcs8 seed_public
      seed_imported

build_resume_message-injective_example :
    (codes "boot_1" ≡ codes "boot_1") × (codes "AAAA" ≡ codes "AAAA")
build_resume_message-injective_example =
    build_resume_message-injective (codes "boot_1") (codes "AAAA") (codes "boot_1") (codes "AAAA")
      (Lacks_of_none (codes "boot_1") refl) (Lacks_of_none (codes "AAAA") refl)
      (Lacks_of_none (codes "boot_1") refl) (Lacks_of_none (codes "AAAA") refl) refl
