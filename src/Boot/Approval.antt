-- ===== src/Boot/Approval.antt =====
-- The inputs of an approval in boot-session-core.ts and the tests on them. `#approvalState`,
-- `prepareApproval` and `completeApproval` are in the modules below.
pub mod State
pub mod Prepare
pub mod Complete
pub mod Safe
pub mod Snapshot
pub mod Binding
pub mod Preparing
use keevault.Base.{
  ℕ, ◌+◌, ◌*◌, String, Bool, true, false, Option, none, some, List, [], ◌∷◌, ◌&&◌, ◌||◌, not, any,
  is_empty, length, map, min, str_eq, ltb, leb, ◌==◌, if◌then◌else◌,
}
use keevault.Protocol.State.{
  BootStatus, pending, approved, BootEvent, approve, expire_pending, is_terminal,
}
use keevault.Protocol.Messages.{
  SecretRecord, KeyEnvelope, BootApproved, ServerMessage, boot_approved,
}
use keevault.Provenance.{VerificationResult, PolicyEvaluation}
use keevault.Provenance.Policy.{evaluate_policy}
use keevault.Provenance.Context.{ProvenanceContext}
use keevault.Store.{
  KeyMode, cloud, cold, EnvironmentRow, BootstrapTokenRow, SecretDeliveryRow, text, number,
}
use keevault.Store.Queries.{list_secrets_for_delivery}
use keevault.Store.Writes.{insert_boot_approval}
use keevault.Boot.{
  BootRow, PreparedBootApproval, ApprovalContextRow, World, Deps, M, pure, asks, pause, write, draw,
  ◌>>=◌, ◌>>◌,
}
use keevault.Boot.Table.{
  is_pending, read_boot, update_boot, apply, recompute_alarm, delete_expired_contexts,
  delete_contexts_of, insert_context, read_context,
}
use keevault.Boot.Report.{for_boot, audit, mirror}
use keevault.Boot.Lifecycle.{due, expire, deliver_to}
use keevault.Boot.Connection.{
  is_some, get_token, read_environment, load_provenance_context, run_verifiers, token_valid,
}
use keevault.Boot.Result.{
  BootActionFailure, not_found, conflict, terminal, token_invalid, policy_blocked,
  evidence_mismatch, key_error, cold_key_required, release_mismatch, Outcome, ok, failure,
  status_name, already, join, return_if,
}

-- `APPROVAL_CONTEXT_TTL_MS`.
abbrev pub approval_context_ttl_ms : ℕ
approval_context_ttl_ms = 60000

pub record ApproveBootInput : Type 0 where
  pub boot_id : String
  pub approver_user_id : String
  pub approver_credential_id : String
  pub evidence_digest : String

-- `CompleteBootApprovalInput`.
pub record CompleteInput : Type 0 where
  pub approval : ApproveBootInput
  pub context_id : String
  pub context_digest : String
  pub key_envelope : KeyEnvelope

pub record ApprovalState : Type 0 where
  pub boot : BootRow
  pub environment : EnvironmentRow
  pub results : List VerificationResult
  pub secrets : List SecretRecord
  pub secrets_digest : String

pub record Prepared : Type 0 where
  pub request : PreparedBootApproval
  pub context_digest : String

abbrev pub secret_record : SecretDeliveryRow → SecretRecord
secret_record row = record {
  id = row.id;
  name = row.name;
  version = row.secret_version;
  env_key_version = row.env_key_version;
  nonce = row.nonce;
  ciphertext = row.ciphertext;
}

abbrev is_cloud : KeyMode → Bool
is_cloud cloud = true
is_cloud cold = false

abbrev same_mode : KeyMode → KeyMode → Bool
same_mode cloud cloud = true
same_mode cold cold = true
same_mode _ _ = false

abbrev mode_text : KeyMode → String
mode_text cloud = "CLOUD"
mode_text cold = "COLD"

-- `Math.min(now + APPROVAL_CONTEXT_TTL_MS, boot.pending_expires_at ?? Infinity)`.
abbrev pub context_deadline : ℕ → Option ℕ → ℕ
context_deadline now none = now + approval_context_ttl_ms
context_deadline now (some at) = min (now + approval_context_ttl_ms) at

-- The stored request binds the approver, the boot, the key and the snapshot that are present now.
unfoldable pub release_matches :
    CompleteInput → BootRow → EnvironmentRow → String → ApprovalContextRow → Bool
release_matches input boot environment secrets_digest context =
    let request = context.request in
    str_eq context.context_digest input.context_digest
    && str_eq context.approver_user_id input.approval.approver_user_id
    && str_eq context.approver_credential_id input.approval.approver_credential_id
    && str_eq request.boot_id boot.id
    && str_eq request.environment_id environment.id
    && str_eq request.project_id environment.project_id
    && same_mode request.key_mode environment.key_mode
    && str_eq request.recipient_public_key boot.encryption_pk
    && request.environment_key_version == environment.current_env_key_version
    && str_eq request.evidence_digest input.approval.evidence_digest
    && str_eq request.secrets_digest secrets_digest

abbrev expired_by : ℕ → ℕ → Bool
expired_by at now = leb at now
