-- ===== src/Protocol/Messages.antt =====
-- The wire messages of packages/protocol/src/messages.ts, after validation. A time is kept as its
-- epoch milliseconds, and the literal fields `type` and `protocol` are the constructors. The
-- formats that zod checks (formats.ts) are not part of these types.
use keevault.Base.{ℕ, String, Option, List}

pub record ClientClaim : Type 0 where
  pub version : String
  pub os : String
  pub arch : String
  pub sha256 : Option String

pub record GitClaim : Type 0 where
  pub repository : String
  pub commit : String

pub record OciClaim : Type 0 where
  pub repository : String
  pub digest : String

pub record ProviderClaim : Type 0 where
  pub name : String
  pub deployment_id : Option String
  pub region : Option String

pub record WorkloadClaims : Type 0 where
  pub client : Option ClientClaim
  pub git : Option GitClaim
  pub oci : Option OciClaim
  pub provider : Option ProviderClaim

-- `SignedBuildManifestV1`, its `source` and `artifact` objects flattened.
pub record SignedBuildManifest : Type 0 where
  pub source_repository : String
  pub source_commit : String
  pub artifact_repository : String
  pub artifact_digest : String
  pub builder : String
  pub issued_at : ℕ

pub record SignedBuildManifestEvidence : Type 0 where
  pub manifest : SignedBuildManifest
  pub signature : String
  pub signer_fingerprint : String

-- `unknown` keeps the item's type and the text of its other fields.
pub data Evidence : Type 0 where
  signed_build_manifest : SignedBuildManifestEvidence → Evidence
  unknown : (type : String) (rest : String) → Evidence

pub record SecretRecord : Type 0 where
  pub id : String
  pub name : String
  pub version : ℕ
  pub env_key_version : ℕ
  pub nonce : String
  pub ciphertext : String

pub record KeyEnvelope : Type 0 where
  pub server_public_key : String
  pub salt : String
  pub nonce : String
  pub ciphertext : String

pub record BootHello : Type 0 where
  pub boot_nonce : String
  pub signing_public_key : String
  pub encryption_public_key : String
  pub claims : WorkloadClaims
  pub evidence : List Evidence

pub data ClientMessage : Type 0 where
  hello : BootHello → ClientMessage
  resume : (boot_id : String) → ClientMessage
  challenge_response : (boot_id : String) (signature : String) → ClientMessage
  received : (boot_id : String) (payload_digest : String) → ClientMessage

-- The statuses that a `boot.resumed` frame may name.
pub data ResumedStatus : Type 0 where
  pending approved delivered : ResumedStatus

pub record BootApproved : Type 0 where
  pub boot_id : String
  pub project_id : String
  pub environment_id : String
  pub environment_key_version : ℕ
  pub payload_expires_at : ℕ
  pub key_envelope : KeyEnvelope
  pub secrets : List SecretRecord

-- The close codes of packages/protocol/src/constants.ts.
pub data CloseCode : Type 0 where
  normal protocol_error unauthorized forbidden unknown_boot conflict terminal rate_limited :
      CloseCode

pub close_code : CloseCode → ℕ
close_code normal = 1000
close_code protocol_error = 4400
close_code unauthorized = 4401
close_code forbidden = 4403
close_code unknown_boot = 4404
close_code conflict = 4409
close_code terminal = 4410
close_code rate_limited = 4429

pub data ServerMessage : Type 0 where
  boot_pending : (boot_id : String) (expires_at : ℕ) → ServerMessage
  boot_challenge : (boot_id : String) (challenge : String) → ServerMessage
  boot_resumed : (boot_id : String) (status : ResumedStatus) (expires_at : ℕ) → ServerMessage
  boot_approved : BootApproved → ServerMessage
  boot_declined : (boot_id : String) (reason : Option String) → ServerMessage
  boot_expired : (boot_id : String) → ServerMessage
  boot_canceled : (boot_id : String) (reason : String) → ServerMessage
  boot_consumed : (boot_id : String) → ServerMessage
  boot_error : (code : CloseCode) (message : String) → ServerMessage
