-- ===== src/Boot/Approval/State.antt =====
-- `#approvalState` of boot-session-core.ts: the authorization and the snapshot on which a preparation
-- and an approval rest.
use keevault.Base.{ℕ, Option, none, some, List, not, any, map, str_eq, ◌==◌, if◌then◌else◌}
use keevault.Protocol.State.{expire_pending, is_terminal}
use keevault.Protocol.Messages.{SecretRecord}
use keevault.Provenance.{VerificationResult, PolicyEvaluation}
use keevault.Provenance.Policy.{evaluate_policy}
use keevault.Store.{EnvironmentRow, BootstrapTokenRow}
use keevault.Store.Queries.{list_secrets_for_delivery}
use keevault.Boot.{BootRow, Deps, M, pure, asks, pause, ◌>>=◌, ◌>>◌}
use keevault.Boot.Table.{is_pending, read_boot, recompute_alarm}
use keevault.Boot.Lifecycle.{due, expire}
use keevault.Boot.Connection.{
  is_some, get_token, read_environment, load_provenance_context, run_verifiers,
}
use keevault.Boot.Result.{
  BootActionFailure, not_found, conflict, terminal, token_invalid, policy_blocked,
  evidence_mismatch, key_error, Outcome, ok, failure, already, join, return_if,
}
use keevault.Boot.Approval.{ApproveBootInput, ApprovalState, secret_record}

module _ (d : Deps) where
  -- The snapshot is taken after policy and evidence have been checked.
  unfoldable pub snapshot :
      BootRow → EnvironmentRow → List VerificationResult → M (Outcome ApprovalState)
  snapshot boot environment results = do
    pause d
    secrets ← asks (λ w. map secret_record (list_secrets_for_delivery w.db boot.environment_id))
    return_if
        (any (λ (s : SecretRecord). not (s.env_key_version == environment.current_env_key_version))
          secrets)
        key_error "The secret snapshot does not match the current environment key."
        (do
          pause d
          pure (
              ok (record {
                boot = boot;
                environment = environment;
                results = results;
                secrets = secrets;
                secrets_digest = d.digest_secrets secrets;
              })))

  unfoldable pub check_evidence :
      ApproveBootInput
      → BootRow
      → EnvironmentRow
      → List VerificationResult
      → PolicyEvaluation
      → M (Outcome ApprovalState)
  unfolding snapshot join
  check_evidence input boot environment results evaluation =
      return_if (not evaluation.approvable) policy_blocked (join "; " evaluation.blockers) (do
        pause d
        return_if (not (str_eq (d.digest_summary results) input.evidence_digest)) evidence_mismatch
            "The evidence changed since this screen was loaded. Review it again."
            (snapshot boot environment results))

  unfoldable pub check_environment :
      ApproveBootInput → BootRow → Option EnvironmentRow → M (Outcome ApprovalState)
  unfolding check_evidence
  check_environment input boot none = pure (failure not_found "That environment no longer exists.")
  check_environment input boot (some environment) = do
    context ← load_provenance_context d boot.environment_id environment.provenance_mode
    results ← run_verifiers d d.verifiers (record {
      environment_id = boot.environment_id;
      claims = boot.claims;
      evidence = boot.evidence;
      signers = context.signers;
    })
    check_evidence input boot environment results
        (evaluate_policy context.mode results context.policies)

  -- `now` is the time at which the row was read.
  unfoldable pub check_token :
      ApproveBootInput → BootRow → ℕ → Option BootstrapTokenRow → M (Outcome ApprovalState)
  unfolding check_environment
  check_token input boot now none =
      pure (failure token_invalid "The bootstrap token for that boot is no longer valid.")
  check_token input boot now (some token) =
      return_if (is_some token.revoked_at) token_invalid
        "The bootstrap token for that boot is no longer valid."
        (return_if (due token.expires_at now) token_invalid
          "The bootstrap token for that boot has expired."
          (do
            environment ← read_environment d boot.environment_id
            check_environment input boot environment))

  unfoldable pub expire_overdue : BootRow → M (Outcome ApprovalState)
  expire_overdue boot = do
    expire d boot expire_pending
    recompute_alarm
    pure (failure BootActionFailure.expired "That boot request expired before it was approved.")

  unfoldable pub check_boot : ApproveBootInput → Option BootRow → M (Outcome ApprovalState)
  unfolding check_token already expire_overdue
  check_boot input none = pure (failure not_found "That boot is unknown to this environment.")
  check_boot input (some boot) =
      return_if (is_terminal boot.status) terminal (already boot.status) (
        return_if (not (is_pending boot.status)) conflict (already boot.status) (do
          now ← asks (λ w. w.clock)
          if due boot.pending_expires_at now
              then expire_overdue boot
              else do token ← get_token d boot.token_id; check_token input boot now token))

  unfoldable pub approval_state : ApproveBootInput → M (Outcome ApprovalState)
  unfolding check_boot
  approval_state input = do boot ← read_boot input.boot_id; check_boot input boot
