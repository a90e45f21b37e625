-- ===== src/Store.antt =====
-- The D1 tables of packages/vault-store that the modelled code reads and writes, as lists of rows.
-- A time is kept as its epoch milliseconds; columns that no modelled code reads are left out.
pub mod Queries
pub mod Writes
pub mod Keys
use keevault.Base.{ℕ, String, Bool, Option, List}
use keevault.Protocol.State.{BootStatus}
use keevault.Provenance.{ProvenanceMode, ProvenancePolicyEntry, VerificationResult}

pub data KeyMode : Type 0 where
  cloud cold : KeyMode

pub record EnvironmentRow : Type 0 where
  pub id : String
  pub project_id : String
  pub key_mode : KeyMode
  pub current_env_key_version : ℕ
  pub provenance_mode : ProvenanceMode
  pub pending_ttl_seconds : ℕ
  pub approved_ttl_seconds : ℕ

-- `BootstrapTokenWithHashRow`.
pub record BootstrapTokenRow : Type 0 where
  pub id : String
  pub environment_id : String
  pub token_hash : String
  pub allowed_cidrs : Option (List String)
  pub max_pending_boots : ℕ
  pub expires_at : Option ℕ
  pub revoked_at : Option ℕ
  pub last_seen_at : Option ℕ

pub record SecretDeliveryRow : Type 0 where
  pub id : String
  pub environment_id : String
  pub name : String
  pub env_key_version : ℕ
  pub secret_version : ℕ
  pub nonce : String
  pub ciphertext : String

pub record TrustedSignerRow : Type 0 where
  pub id : String
  pub project_id : Option String
  pub environment_id : Option String
  pub label : String
  pub public_key : String
  pub fingerprint : String
  pub type : String
  pub enabled : Bool
  pub revoked_at : Option ℕ
  pub created_at : ℕ

pub record ProvenancePolicyRow : Type 0 where
  pub environment_id : String
  pub verifier_type : String
  pub required : Bool
  pub enabled : Bool

-- The index row of `boot_requests`.
pub record BootRequestRow : Type 0 where
  pub id : String
  pub environment_id : String
  pub bootstrap_token_id : String
  pub status : BootStatus
  pub source_ip : Option String
  pub signing_public_key : String
  pub encryption_public_key : String
  pub claimed_git_repository : Option String
  pub claimed_git_commit : Option String
  pub claimed_oci_repository : Option String
  pub claimed_oci_digest : Option String
  pub provenance_summary : Option (List VerificationResult)
  pub created_at : ℕ
  pub updated_at : ℕ
  pub approved_at : Option ℕ
  pub declined_at : Option ℕ
  pub delivered_at : Option ℕ
  pub consumed_at : Option ℕ
  pub expired_at : Option ℕ
  pub canceled_at : Option ℕ

pub record BootApprovalRow : Type 0 where
  pub boot_id : String
  pub approver_user_id : String
  pub approver_credential_id : String
  pub approved_at : ℕ
  pub client_signing_fingerprint : String
  pub client_encryption_fingerprint : String
  pub evidence_digest : String
  pub key_mode : KeyMode
  pub environment_key_version : ℕ
  pub release_context_digest : String

-- The scalars that audit metadata may hold.
pub data AuditValue : Type 0 where
  text : String → AuditValue
  number : ℕ → AuditValue
  flag : Bool → AuditValue

pub record AuditEventRow : Type 0 where
  pub id : String
  pub timestamp : ℕ
  pub actor_type : String
  pub actor_id : Option String
  pub action : String
  pub project_id : Option String
  pub environment_id : Option String
  pub boot_id : Option String
  pub metadata : List (String × AuditValue)

pub record ProjectRow : Type 0 where
  pub id : String
  pub current_project_key_version : ℕ

pub data KeyStatus : Type 0 where
  active retired : KeyStatus

pub record ProjectKeyRow : Type 0 where
  pub project_id : String
  pub version : ℕ
  pub master_key_version : ℕ
  pub wrapped_key : String
  pub nonce : String
  pub status : KeyStatus
  pub created_at : ℕ
  pub retired_at : Option ℕ

pub record EnvironmentKeyRow : Type 0 where
  pub environment_id : String
  pub version : ℕ
  pub project_key_version : ℕ
  pub wrapped_key : String
  pub nonce : String
  pub status : KeyStatus
  pub created_at : ℕ
  pub retired_at : Option ℕ

pub record VaultDatabase : Type 0 where
  pub projects : List ProjectRow
  pub project_keys : List ProjectKeyRow
  pub environment_keys : List EnvironmentKeyRow
  pub environments : List EnvironmentRow
  pub tokens : List BootstrapTokenRow
  pub secrets : List SecretDeliveryRow
  pub signers : List TrustedSignerRow
  pub policies : List ProvenancePolicyRow
  pub requests : List BootRequestRow
  pub approvals : List BootApprovalRow
  pub audit : List AuditEventRow
