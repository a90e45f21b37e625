-- ===== src/Provenance.antt =====
-- Provenance verification of apps/control-plane/src/server/provenance: types.ts. A verifier's
-- result is facts and warnings, with no numeric score.
pub mod Policy
pub mod Context
use keevault.Base.{ℕ, String, Bool, Option, List}
use keevault.Protocol.Messages.{WorkloadClaims, Evidence}

-- `VERIFICATION_STATUSES`.
pub data VerificationStatus : Type 0 where
  verified unverified failed unavailable : VerificationStatus

pub record VerificationFact : Type 0 where
  pub key : String
  pub value : String
  pub matches_claim : Option Bool

pub record VerificationResult : Type 0 where
  pub verifier : String
  pub status : VerificationStatus
  pub facts : List VerificationFact
  pub warnings : List String

pub record TrustedSigner : Type 0 where
  pub id : String
  pub label : String
  pub public_key : String
  pub fingerprint : String
  pub type : String

pub record VerifierInput : Type 0 where
  pub environment_id : String
  pub claims : WorkloadClaims
  pub evidence : List Evidence
  pub signers : List TrustedSigner

pub record ProvenancePolicyEntry : Type 0 where
  pub verifier_type : String
  pub required : Bool
  pub enabled : Bool

pub record PolicyEvaluation : Type 0 where
  pub approvable : Bool
  pub blockers : List String

-- `ProvenanceMode` of packages/vault-store/src/columns.ts.
pub data ProvenanceMode : Type 0 where
  off advisory required : ProvenanceMode
