-- ===== src/Crypto/Resume.antt =====
-- packages/crypto/src/resume.ts with the Ed25519 half of keys.ts: the proof, after a reconnect, that
-- the client holds the key it announced.
use keevault.Base.{
  ℕ, Bool, true, false, Option, some, [], ◌∷◌, not, ◌==◌, length, All, if◌then◌else◌, ◌≡◌, refl,
  sym, ap, ◌∙◌,
}
use keevault.Crypto.Text.{Text, Bytes, IsByte, codes}
use keevault.Crypto.Text.Lines.{join_parts, split, split-join_parts}
use keevault.Crypto.Encoding.{b64u_encode, b64u_decode, concat_bytes}
use keevault.Crypto.Encoding.Base64.{b64u_decode-b64u_encode}
use keevault.Crypto.Aad.{◌>>=◌, newline}
use keevault.Crypto.Aad.Injective.{SingleLine, Lacks_of_none}
use keevault.Crypto.Keys.{require_key_length}

-- `sign` of a private key in PKCS#8 and `verify` of a raw public key, both with Ed25519, and
-- `TextEncoder.encode`.
pub record Signatures : Type 0 where
  pub utf8_encode : Text → Bytes
  pub exported_x : Bytes → Option Text
  pub sign : Bytes → Bytes → Bytes
  pub verify : Bytes → Bytes → Bytes → Bool

abbrev pub signature_length : ℕ
signature_length = 64

abbrev pub ed25519_pkcs8_prefix : Bytes
ed25519_pkcs8_prefix =
    0x30 ∷ 0x2e ∷ 0x02 ∷ 0x01 ∷ 0x00 ∷ 0x30 ∷ 0x05 ∷ 0x06 ∷ 0x03 ∷ 0x2b ∷ 0x65 ∷ 0x70 ∷ 0x04 ∷ 0x22
    ∷ 0x04 ∷ 0x20 ∷ []

unfoldable pub import_ed25519_private_key : Bytes → Option Bytes
unfolding require_key_length concat_bytes
import_ed25519_private_key seed = do
  key ← require_key_length seed
  some (concat_bytes (ed25519_pkcs8_prefix ∷ key ∷ []))

unfoldable pub import_ed25519_public_key : Bytes → Option Bytes
unfolding require_key_length
import_ed25519_public_key public_key = require_key_length public_key

unfoldable pub ed25519_public_key_from_seed : Signatures → Bytes → Option Bytes
unfolding import_ed25519_private_key
ed25519_public_key_from_seed c seed = do
  private_key ← import_ed25519_private_key seed
  public_component ← c.exported_x private_key
  b64u_decode public_component

unfoldable pub build_resume_message : Text → Text → Text
build_resume_message boot_id challenge =
    join_parts newline (codes "vault-resume:v1" ∷ boot_id ∷ challenge ∷ [])

pub record SignResumeInput : Type 0 where
  pub seed : Bytes
  pub boot_id : Text
  pub challenge : Text

unfoldable pub sign_resume : Signatures → SignResumeInput → Option Text
unfolding build_resume_message import_ed25519_private_key
sign_resume c input = do
  private_key ← import_ed25519_private_key input.seed
  some (
      b64u_encode
        (c.sign private_key (c.utf8_encode (build_resume_message input.boot_id input.challenge))))

pub record VerifyResumeInput : Type 0 where
  pub public_key : Bytes
  pub boot_id : Text
  pub challenge : Text
  pub signature : Text

-- `none` where it throws: a signature that is not base64url, or a public key of a wrong length.
unfoldable pub verify_resume : Signatures → VerifyResumeInput → Option Bool
unfolding build_resume_message import_ed25519_public_key
verify_resume c input = do
  signature ← b64u_decode input.signature
  if not (length signature == signature_length) then some false else do
    public_key ← import_ed25519_public_key input.public_key
    some (
        c.verify public_key signature
          (c.utf8_encode (build_resume_message input.boot_id input.challenge)))

-- Ed25519 verifies what it has signed under the public key of the seed.
pub record Ed25519Laws (c : Signatures) : Type 0 where
  pub key_size :
      (seed public : Bytes) → ed25519_public_key_from_seed c seed ≡ some public → length public ≡ 32
  pub size : (key message : Bytes) → length (c.sign key message) ≡ 64
  pub bytes : (key message : Bytes) → All IsByte (c.sign key message)
  pub verifies :
      (seed public pkcs8 message : Bytes)
      → ed25519_public_key_from_seed c seed ≡ some public
      → import_ed25519_private_key seed ≡ some pkcs8
      → c.verify public (c.sign pkcs8 message) message ≡ true

-- The signature that the holder of a seed makes is verified under the seed's public key, for the same
-- boot and challenge.
pub verify-sign_resume :
    (c : Signatures) (laws : Ed25519Laws c) (input : SignResumeInput) (public pkcs8 : Bytes)
    → ed25519_public_key_from_seed c input.seed ≡ some public
    → import_ed25519_private_key input.seed ≡ some pkcs8
    → (signature : Text) × (sign_resume c input ≡ some signature)
      × (verify_resume c (record {
        public_key = public;
        boot_id = input.boot_id;
        challenge = input.challenge;
        signature = signature;
      })
          ≡ some true)
unfolding sign_resume verify_resume import_ed25519_public_key require_key_length
verify-sign_resume c laws input public pkcs8 hp hi =
    let message = c.utf8_encode (build_resume_message input.boot_id input.challenge) in
    let signature = c.sign pkcs8 message in
    (
      b64u_encode signature,
      rw hi refl,
      rw
          (
            b64u_decode-b64u_encode signature (laws.bytes pkcs8 message),
            laws.size pkcs8 message,
            laws.key_size input.seed public hp,
            laws.verifies input.seed public pkcs8 message hp hi,
          )
          refl,
    )

-- Two signed messages are the same text only for the same boot and the same challenge, if these have
-- no line break.
pub build_resume_message-injective :
    (boot_id challenge other_boot other_challenge : Text)
    → SingleLine boot_id
    → SingleLine challenge
    → SingleLine other_boot
    → SingleLine other_challenge
    → build_resume_message boot_id challenge ≡ build_resume_message other_boot other_challenge
    → (boot_id ≡ other_boot) × (challenge ≡ other_challenge)
unfolding build_resume_message
build_resume_message-injective b c b' c' hb hc hb' hc' h =
    let head : SingleLine (codes "vault-resume:v1") =
      Lacks_of_none (codes "vault-resume:v1") refl in
    let one = split-join_parts newline (codes "vault-resume:v1") (b ∷ c ∷ []) head (hb, (hc, tt)) in
    let two =
      split-join_parts newline (codes "vault-resume:v1") (b' ∷ c' ∷ []) head (hb', (hc', tt)) in
    let same = sym one ∙ ap (split newline) h ∙ two in (cc, cc)
