-- ===== src/Boot/Connection/Hello.antt =====
-- `#handleHello` of boot-session-core.ts.
use keevault.Base.{
  ℕ, ◌+◌, ◌*◌, String, Option, none, some, List, [], ◌∷◌, ◌&&◌, not, length, str_eq, leb,
  if◌then◌else◌,
}
use keevault.Protocol.State.{pending}
use keevault.Protocol.Messages.{BootHello, CloseCode, GitClaim, OciClaim, boot_pending}
use keevault.Provenance.{VerificationResult}
use keevault.Store.{EnvironmentRow, number}
use keevault.Store.Writes.{insert_boot_request}
use keevault.Boot.{BootRow, BootIdentity, Deps, M, pure, asks, pause, write, draw, ◌>>=◌, ◌>>◌}
use keevault.Boot.Table.{
  read_boot, insert_boot, count_pending, count_recent_from_source, recompute_alarm,
}
use keevault.Boot.Report.{send, send_error, attached_boot_id, attach, audit}
use keevault.Boot.Lifecycle.{expire_due}
use keevault.Boot.Connection.{
  max_boots_per_source, is_some, optional, pending_limit, claim_of, read_environment,
  load_provenance_context, run_verifiers,
}

module _ (d : Deps) where
  -- The row that a hello inserts.
  abbrev pub new_boot :
      BootIdentity → BootHello → EnvironmentRow → List VerificationResult → String → ℕ → BootRow
  new_boot identity h environment results boot_id created_at = record {
    id = boot_id;
    environment_id = d.environment_id;
    project_id = environment.project_id;
    status = pending;
    token_id = identity.token_id;
    source_ip = optional identity.source_ip;
    signing_pk = h.signing_public_key;
    encryption_pk = h.encryption_public_key;
    signing_fp = d.key_fingerprint h.signing_public_key;
    encryption_fp = d.key_fingerprint h.encryption_public_key;
    claims = h.claims;
    evidence = h.evidence;
    provenance = results;
    created_at = created_at;
    pending_expires_at = some (created_at + environment.pending_ttl_seconds * 1000);
    approved_at = none;
    payload_expires_at = none;
    delivered_frame = none;
    payload_digest = none;
    consumed_at = none;
    terminal_reason = none;
  }

  unfoldable pub audit_requested : String → ℕ → Option BootRow → M (Unit {0})
  audit_requested boot_id items none = pure tt
  audit_requested boot_id items (some boot) =
      audit d "boot.requested" boot "boot" (some boot_id) (("evidenceItems", number items) ∷ [])

  -- The second half of `#handleHello`, once the boot is admitted.
  unfoldable pub open_boot : ℕ → BootIdentity → BootHello → EnvironmentRow → M (Unit {0})
  unfolding audit_requested
  open_boot socket identity h environment = do
    context ← load_provenance_context d d.environment_id environment.provenance_mode
    results ← run_verifiers d d.verifiers (record {
      environment_id = d.environment_id;
      claims = h.claims;
      evidence = h.evidence;
      signers = context.signers;
    })
    boot_id ← draw d.new_boot_id
    created_at ← asks (λ w. w.clock)
    pause d
    pause d
    let boot = new_boot identity h environment results boot_id created_at
    insert_boot boot
    pause d
    write (
        insert_boot_request (record {
          id = boot_id;
          environment_id = d.environment_id;
          bootstrap_token_id = identity.token_id;
          status = pending;
          source_ip = optional identity.source_ip;
          signing_public_key = h.signing_public_key;
          encryption_public_key = h.encryption_public_key;
          claimed_git_repository = claim_of (λ (g : GitClaim). g.repository) h.claims.git;
          claimed_git_commit = claim_of (λ (g : GitClaim). g.commit) h.claims.git;
          claimed_oci_repository = claim_of (λ (o : OciClaim). o.repository) h.claims.oci;
          claimed_oci_digest = claim_of (λ (o : OciClaim). o.digest) h.claims.oci;
          provenance_summary = some results;
          created_at = created_at;
          updated_at = created_at;
          approved_at = none;
          declined_at = none;
          delivered_at = none;
          consumed_at = none;
          expired_at = none;
          canceled_at = none;
        }))
    stored ← read_boot boot_id
    audit_requested boot_id (length h.evidence) stored
    attach socket boot_id created_at
    send socket (boot_pending boot_id (created_at + environment.pending_ttl_seconds * 1000))
    recompute_alarm

  unfoldable pub hello_environment :
      ℕ → BootIdentity → BootHello → Option EnvironmentRow → M (Unit {0})
  unfolding open_boot
  hello_environment socket identity h none =
      send_error socket CloseCode.unknown_boot "This environment no longer exists."
  hello_environment socket identity h (some environment) = open_boot socket identity h environment

  unfoldable pub handle_hello : ℕ → BootIdentity → BootHello → M (Unit {0})
  unfolding hello_environment
  handle_hello socket identity h = do
    attached ← attached_boot_id socket
    if is_some attached
        then send_error socket CloseCode.protocol_error "This connection already belongs to a boot."
        else do
          expire_due d
          recent ← count_recent_from_source identity.source_ip
          if not (str_eq identity.source_ip "") && leb max_boots_per_source recent
              then send_error socket CloseCode.rate_limited
                  "This source address has created too many boot requests. Try again shortly."
              else do
                waiting ← count_pending identity.token_id
                if leb (pending_limit identity) waiting
                    then send_error socket CloseCode.conflict
                        "This bootstrap token already has the maximum number of pending boots."
                    else do
                      environment ← read_environment d d.environment_id
                      hello_environment socket identity h environment
