-- ===== src/Boot/Approval/Complete.antt =====
-- `completeApproval` of boot-session-core.ts.
use keevault.Base.{
  ℕ, String, Option, none, some, List, [], ◌∷◌, ◌||◌, not, is_empty, length, if◌then◌else◌,
}
use keevault.Protocol.State.{BootStatus, approved, approve}
use keevault.Protocol.Messages.{KeyEnvelope, ServerMessage, boot_approved}
use keevault.Provenance.{VerificationResult}
use keevault.Store.{text, number}
use keevault.Store.Writes.{insert_boot_approval}
use keevault.Boot.{
  BootRow, PreparedBootApproval, ApprovalContextRow, Deps, M, pure, asks, pause, write, ◌>>=◌, ◌>>◌,
}
use keevault.Boot.Table.{
  is_pending, read_boot, update_boot, apply, recompute_alarm, delete_contexts_of, read_context,
}
use keevault.Boot.Report.{for_boot, audit, mirror}
use keevault.Boot.Lifecycle.{due, deliver_to}
use keevault.Boot.Connection.{get_token, token_valid}
use keevault.Boot.Result.{
  BootActionFailure, conflict, token_invalid, key_error, cold_key_required, release_mismatch,
  Outcome, ok, failure, return_if,
}
use keevault.Boot.Approval.{
  CompleteInput, ApprovalState, is_cloud, mode_text, release_matches, expired_by,
}
use keevault.Boot.Approval.State.{approval_state}

module _ (d : Deps) where
  abbrev pub approved_frame : ApprovalState → PreparedBootApproval → KeyEnvelope → ServerMessage
  approved_frame s request envelope = boot_approved (record {
    boot_id = s.boot.id;
    project_id = s.environment.project_id;
    environment_id = s.environment.id;
    environment_key_version = request.environment_key_version;
    payload_expires_at = request.payload_expires_at;
    key_envelope = envelope;
    secrets = s.secrets;
  })

  -- Deliver at once to the sockets that are attached.
  unfoldable pub deliver_stored : Option BootRow → List ℕ → M (Unit {0})
  deliver_stored none attached = pure tt
  deliver_stored (some stored) attached =
      if is_empty attached then pure tt else deliver_to d stored attached

  abbrev pub status_or : Option BootRow → BootStatus
  status_or none = approved
  status_or (some boot) = boot.status

  -- The columns that an approval writes.
  abbrev pub granted :
      ℕ
      → PreparedBootApproval
      → ServerMessage
      → String
      → List VerificationResult
      → BootRow
      → BootRow
  granted at request payload digest results b = record b {
    provenance = results;
    approved_at = some at;
    payload_expires_at = some request.payload_expires_at;
    delivered_frame = some payload;
    payload_digest = some digest;
  }

  -- What follows the update of the row in the same method.
  unfoldable pub approved_rest :
      CompleteInput → ApprovalState → PreparedBootApproval → ℕ → M (Outcome BootStatus)
  unfolding deliver_stored
  approved_rest input s request at = do
    delete_contexts_of s.boot.id
    mirror d s.boot.id approved (some "approved")
    pause d
    write (
        insert_boot_approval (record {
          boot_id = s.boot.id;
          approver_user_id = input.approval.approver_user_id;
          approver_credential_id = input.approval.approver_credential_id;
          approved_at = at;
          client_signing_fingerprint = s.boot.signing_fp;
          client_encryption_fingerprint = s.boot.encryption_fp;
          evidence_digest = input.approval.evidence_digest;
          key_mode = s.environment.key_mode;
          environment_key_version = request.environment_key_version;
          release_context_digest = input.context_digest;
        }))
    audit d "boot.approved" s.boot "user" (some input.approval.approver_user_id) (
        ("environmentKeyVersion", number request.environment_key_version)
        ∷ ("keyMode", text (mode_text s.environment.key_mode))
        ∷ ("releaseContextDigest", text input.context_digest)
        ∷ ("secretCount", number (length s.secrets))
        ∷ ("evidenceDigest", text input.approval.evidence_digest)
        ∷ [])
    attached ← for_boot s.boot.id
    stored ← read_boot s.boot.id
    deliver_stored stored attached
    recompute_alarm
    final ← read_boot s.boot.id
    pure (ok (status_or final))

  unfoldable pub approve_moved :
      CompleteInput
      → ApprovalState
      → PreparedBootApproval
      → ServerMessage
      → ℕ
      → Option BootStatus
      → M (Outcome BootStatus)
  unfolding approved_rest
  approve_moved input s request payload at none =
      pure (failure conflict "That boot changed during approval.")
  approve_moved input s request payload at (some to) = do
    update_boot s.boot.id (granted at request payload (d.digest_frame payload) s.results)
    approved_rest input s request at

  -- The row as it is now: it must be PENDING and not overdue.
  unfoldable pub approve_current :
      CompleteInput
      → ApprovalState
      → PreparedBootApproval
      → ServerMessage
      → ℕ
      → Option BootRow
      → M (Outcome BootStatus)
  unfolding approve_moved
  approve_current input s request payload at none =
      pure (failure conflict "That boot changed state while it was being approved.")
  approve_current input s request payload at (some current) =
      return_if (not (is_pending current.status)) conflict
        "That boot changed state while it was being approved."
        (return_if (due current.pending_expires_at at) BootActionFailure.expired
          "That boot request expired before delivery."
          (do next ← apply current approve; approve_moved input s request payload at next))

  -- Hash the payload, then check the token and the times again before the row is touched.
  unfoldable pub release :
      CompleteInput → ApprovalState → PreparedBootApproval → M (Outcome BootStatus)
  unfolding approve_current
  release input s request =
      return_if (not (d.is_key_envelope input.key_envelope)) key_error
        "The key envelope is malformed."
        (do
          now ← asks (λ w. w.clock)
          return_if (expired_by request.expires_at now || expired_by request.payload_expires_at now)
              BootActionFailure.expired "The prepared key release expired. Prepare a new approval."
              (do
                pause d
                token ← get_token d s.boot.token_id
                at ← asks (λ w. w.clock)
                return_if (not (token_valid at token)) token_invalid
                    "The bootstrap token is no longer valid."
                    (return_if
                      (expired_by request.expires_at at || expired_by request.payload_expires_at at)
                      BootActionFailure.expired
                      "The prepared key release expired. Prepare a new approval."
                      (do
                        current ← read_boot s.boot.id
                        approve_current input s request
                            (approved_frame s request input.key_envelope) at current))))

  unfoldable pub check_context :
      CompleteInput → ApprovalState → Option ApprovalContextRow → M (Outcome BootStatus)
  unfolding release release_matches
  check_context input s none =
      pure (failure release_mismatch "No matching key release was prepared.")
  check_context input s (some context) =
      return_if (not (release_matches input s.boot s.environment s.secrets_digest context))
        release_mismatch "The boot, key, or secret snapshot changed after preparation."
        (release input s context.request)

  unfoldable pub complete_state : CompleteInput → Outcome ApprovalState → M (Outcome BootStatus)
  unfolding check_context
  complete_state input (failure reason message) = pure (failure reason message)
  complete_state input (ok s) =
      return_if (not (is_cloud s.environment.key_mode)) cold_key_required
        "Cold environments require a signed local approval."
        (do
          context ← read_context input.context_id input.approval.boot_id
          check_context input s context)

  unfoldable pub complete_approval : CompleteInput → M (Outcome BootStatus)
  unfolding complete_state
  complete_approval input = do state ← approval_state d input.approval; complete_state input state
