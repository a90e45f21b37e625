-- ===== src/Boot/Approval/Prepare.antt =====
-- `prepareApproval` of boot-session-core.ts.
use keevault.Base.{
  ℕ, ◌+◌, ◌*◌, String, Bool, false, Option, none, some, not, ltb, leb, if◌then◌else◌,
}
use keevault.Boot.{BootRow, PreparedBootApproval, Deps, M, pure, asks, pause, draw, ◌>>=◌, ◌>>◌}
use keevault.Boot.Table.{is_pending, read_boot, delete_expired_contexts, insert_context}
use keevault.Boot.Result.{
  BootActionFailure, conflict, key_error, cold_key_required, Outcome, ok, failure, return_if,
}
use keevault.Boot.Approval.{ApproveBootInput, ApprovalState, Prepared, is_cloud, context_deadline}
use keevault.Boot.Approval.State.{approval_state}

module _ (d : Deps) where
  abbrev pub request_of : ApproveBootInput → ApprovalState → String → ℕ → ℕ → PreparedBootApproval
  request_of input s context_id now expires_at = record {
    context_id = context_id;
    boot_id = s.boot.id;
    environment_id = s.boot.environment_id;
    project_id = s.boot.project_id;
    key_mode = s.environment.key_mode;
    environment_key_version = s.environment.current_env_key_version;
    recipient_public_key = s.boot.encryption_pk;
    evidence_digest = input.evidence_digest;
    secrets_digest = s.secrets_digest;
    expires_at = expires_at;
    payload_expires_at = now + s.environment.approved_ttl_seconds * 1000;
  }

  abbrev pub still_pending : Option BootRow → Bool
  still_pending none = false
  still_pending (some boot) = is_pending boot.status

  unfoldable pub store_context :
      ApproveBootInput → PreparedBootApproval → ℕ → Option BootRow → M (Outcome Prepared)
  store_context input request now current =
      return_if (not (still_pending current)) conflict "That boot changed during preparation." (do
        delete_expired_contexts now
        insert_context (record {
          context_id = request.context_id;
          boot_id = request.boot_id;
          request = request;
          context_digest = d.digest_request request;
          approver_user_id = input.approver_user_id;
          approver_credential_id = input.approver_credential_id;
          expires_at = request.expires_at;
        })
        pure (ok (record { request = request; context_digest = d.digest_request request })))

  unfoldable pub prepare_state : ApproveBootInput → Outcome ApprovalState → M (Outcome Prepared)
  unfolding store_context
  prepare_state input (failure reason message) = pure (failure reason message)
  prepare_state input (ok s) =
      return_if (ltb s.environment.current_env_key_version 1)
        (if is_cloud s.environment.key_mode then key_error else cold_key_required)
        "This environment has no provisioned encryption key."
        (do
          now ← asks (λ w. w.clock)
          let expires_at = context_deadline now s.boot.pending_expires_at
          return_if (leb expires_at now) BootActionFailure.expired
              "That boot request expired during preparation."
              (do
                context_id ← draw d.random_challenge
                pause d
                current ← read_boot s.boot.id
                store_context input (request_of input s context_id now expires_at) now current))

  unfoldable pub prepare_approval : ApproveBootInput → M (Outcome Prepared)
  unfolding prepare_state
  prepare_approval input = do state ← approval_state d input; prepare_state input state
