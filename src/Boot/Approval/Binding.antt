-- ===== src/Boot/Approval/Binding.antt =====
-- What holds when `completeApproval` of boot-session-core.ts succeeds.
use keevault.Base.{◌<◌, ◌||◌, ◌≡◌, true, Option, none, some, ◌||◌}
use keevault.Protocol.State.{pending}
use keevault.Store.{BootstrapTokenRow, cloud}
use keevault.Store.Queries.{get_bootstrap_token_by_token_id}
use keevault.Boot.{BootRow, PreparedBootApproval, ApprovalContextRow, World, Deps}
use keevault.Boot.Table.{select_boot, read_context}
use keevault.Boot.Connection.{bare_token_id}
use keevault.Boot.Approval.{CompleteInput, ApprovalState}
use keevault.Boot.Approval.Snapshot.{Ahead, Awaits}

-- The moment `v` at which the row is moved: the boot is PENDING and not overdue, its token is valid,
-- and neither deadline of the prepared release has passed.
pub record Releasable (s : ApprovalState) (request : PreparedBootApproval) (v : World)
    : Type 0 where
  pub current : BootRow
  pub found : select_boot s.boot.id v.boots ≡ some current
  pub waiting : current.status ≡ pending
  pub in_time : Ahead v.clock current.pending_expires_at
  pub token : BootstrapTokenRow
  pub token_found :
      get_bootstrap_token_by_token_id v.db (bare_token_id s.boot.token_id) ≡ some token
  pub unrevoked : token.revoked_at ≡ none
  pub token_in_time : Ahead v.clock token.expires_at
  pub release_in_time : v.clock < request.expires_at
  pub payload_in_time : v.clock < request.payload_expires_at

-- The stored context is of the digest and the approver that the input names, and its request of the
-- boot, the environment, the key, the evidence and the secrets that are present now.
pub record Binds (input : CompleteInput) (s : ApprovalState) (context : ApprovalContextRow)
    : Type 0 where
  pub digest : context.context_digest ≡ input.context_digest
  pub approver : context.approver_user_id ≡ input.approval.approver_user_id
  pub credential : context.approver_credential_id ≡ input.approval.approver_credential_id
  pub boot : context.request.boot_id ≡ s.boot.id
  pub environment : context.request.environment_id ≡ s.environment.id
  pub project : context.request.project_id ≡ s.environment.project_id
  pub key_mode : context.request.key_mode ≡ s.environment.key_mode
  pub recipient : context.request.recipient_public_key ≡ s.boot.encryption_pk
  pub key_version : context.request.environment_key_version ≡ s.environment.current_env_key_version
  pub evidence : context.request.evidence_digest ≡ input.approval.evidence_digest
  pub secrets : context.request.secrets_digest ≡ s.secrets_digest

-- What an approval that succeeds does after its snapshot `s`, which was returned in the world `u`: the
-- release that was prepared is found there by the context that the approver names, and binds the
-- approver, the boot, the key and the snapshot. After two more awaits, of the digest of the payload
-- and of the token, the row is moved.
pub record Released (d : Deps) (input : CompleteInput) (s : ApprovalState) (u : World)
    : Type 0 where
  pub context : ApprovalContextRow
  pub stored : (read_context input.context_id input.approval.boot_id u) ≡ (some (some context), u)
  pub binds : Binds input s context
  pub is_released : s.environment.key_mode ≡ cloud
  pub envelope : d.is_key_envelope input.key_envelope ≡ true
  pub early :
      (u.clock < context.request.expires_at) × (u.clock < context.request.payload_expires_at)
  pub at_digest : World
  pub digest_awaited : Awaits d u at_digest
  pub moment : World
  pub token_awaited : Awaits d at_digest moment
  pub releasable : Releasable s context.request moment
