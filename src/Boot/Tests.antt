-- ===== src/Boot/Tests.antt =====
-- One concrete environment of boot-session-core.ts: its dependencies, its rows and its database.
mod Witnesses
mod Races
use mathlib.Core.Option.{some-injective}
use Prim.Native.String.{◌++◌ as text_append}
use keevault.Base.{
  zero, suc, sym, ap, ◌≡◌, refl, ℕ, ◌+◌, String, Bool, true, false, Option, none, some, List, [],
  ◌∷◌, str_eq, sort_by, take_text, str_le, if◌then◌else◌, ◌==◌,
}
use keevault.Protocol.State.{
  BootStatus, pending, approved, delivered, consumed, declined, canceled, transition, is_terminal,
}
use keevault.Protocol.Messages.{
  WorkloadClaims, BootHello, KeyEnvelope, SecretRecord, BootApproved, ServerMessage, boot_approved,
  ClientMessage,
}
use keevault.Provenance.{VerificationResult, VerifierInput, unverified, advisory}
use keevault.Store.{
  VaultDatabase, EnvironmentRow, BootstrapTokenRow, SecretDeliveryRow, BootRequestRow, cloud,
}
use keevault.Boot.{
  BootRow, ChallengeRow, PreparedBootApproval, ApprovalContextRow, Socket, World, Deps,
  BootIdentity, ProvenanceVerifier, pause, write, draw,
}
use keevault.Boot.Table.{
  select_boot, read_boot, update_boot, update_boots, apply, min_deadline, recompute_alarm,
  read_challenge, delete_challenges, delete_contexts_of, read_context, delete_expired_contexts,
  insert_context,
}
use keevault.Provenance.Policy.{evaluate_policy, required_of, result_for}
use keevault.Provenance.Context.{usable_signers, policy_entries}
use keevault.Store.Queries.{
  get_environment, get_bootstrap_token_by_token_id, list_secrets_for_delivery,
  list_trusted_signers_for_environment, list_provenance_policies_by_environment,
}
use keevault.Boot.Result.{already, status_name, Outcome, ok, failure, return_if}
use keevault.Boot.Table.Deadlines.{Covers, recompute_alarm-Covers}
use keevault.Boot.Connection.Hello.{hello_environment}
use keevault.Boot.Connection.{
  get_token, bare_token_id, read_environment, load_provenance_context, run_verifiers,
}
use keevault.Boot.Connection.Challenge.{token_still_valid, handle_challenge_response}
use keevault.Boot.Connection.Received.{handle_received}
use keevault.Boot.Connection.Resume.{handle_resume}
use keevault.Boot.Quiet.{Quiet, Quiet-Guarded}
use keevault.Boot.Report.{
  send_terminal, sockets_for, send_error, attach, attached_boot_id, attached_to, close, mirror,
  audit, for_boot, send_all, send,
}
use keevault.Boot.Lifecycle.{
  cancel_one, tell_ended, tell_row, expire, expire_if_due, send_terminal_once, row_or, deliver_to,
  deliver_moved, record_delivery,
}
use keevault.Store.Writes.{
  insert_boot_request, update_boot_request_status, insert_boot_approval, append_audit_event,
}
use keevault.Boot.Approval.Snapshot.{Established}
use keevault.Boot.Approval.Preparing.{Ready, prepare_approval-ok}
use keevault.Boot.Approval.Binding.{Released}
use keevault.Boot.Approval.{
  ApprovalState, release_matches, ApproveBootInput, CompleteInput, Prepared,
}
use keevault.Boot.Approval.State.{approval_state}
use keevault.Boot.Approval.Prepare.{prepare_approval}
use keevault.Boot.Approval.Complete.{complete_approval}
use keevault.Boot.Admin.{CancelBootInput, cancel_boot}
use keevault.Boot.Safe.{Guarded, Safe, Sound, SafeRows-insert, keys_of}
use keevault.Boot.Session.{
  Step, Run, hello, resume, received, prepare, complete, done, next, Step-Safe, Run-Sound,
}
use keevault.Protocol.State.Reach.{Reach, Visits}

abbrev claims : WorkloadClaims
claims = record { client = none; git = none; oci = none; provider = none }

abbrev claims_only : VerificationResult
claims_only = record { verifier = "claims-only"; status = unverified; facts = []; warnings = [] }

-- A text of its own for each number.
abbrev audit_id : ℕ → String
audit_id zero = "aud"
audit_id (suc n) = text_append "_" (audit_id n)

-- The rest of the system lets a millisecond pass at each await, and does nothing else.
abbrev calm : Deps
calm = record {
  environment_id = "env_1";
  new_boot_id = λ n. "boot_new";
  new_audit_id = audit_id;
  random_challenge = λ n. "challenge_1";
  verifiers = record { id = "claims-only"; verify = λ input. claims_only } ∷ [];
  key_fingerprint = λ key. key;
  verify_resume = λ key boot challenge signature. some (str_eq signature "good");
  digest_frame = λ frame. "digest_1";
  digest_request = λ request. "request_1";
  digest_secrets = λ secrets. "secrets_1";
  digest_summary = λ results. "evidence_1";
  is_key_envelope = λ envelope. true;
  others = λ w. some (record w { clock = w.clock + 1 });
}

calm-Quiet : Quiet calm
calm-Quiet w w' e = ap (λ (v : World). v.boots) (sym (some-injective _ _ e))

calm-Guarded : Guarded calm
calm-Guarded = Quiet-Guarded calm calm-Quiet

abbrev waiting : BootRow
waiting = record {
  id = "boot_1";
  environment_id = "env_1";
  project_id = "prj_1";
  status = pending;
  token_id = "tok_a";
  source_ip = none;
  signing_pk = "spk";
  encryption_pk = "epk";
  signing_fp = "sfp";
  encryption_fp = "efp";
  claims = claims;
  evidence = [];
  provenance = [];
  created_at = 1000;
  pending_expires_at = some 900000;
  approved_at = none;
  payload_expires_at = none;
  delivered_frame = none;
  payload_digest = none;
  consumed_at = none;
  terminal_reason = none;
}

abbrev envelope : KeyEnvelope
envelope = record { server_public_key = "s"; salt = "t"; nonce = "n"; ciphertext = "c" }

abbrev payload : ServerMessage
payload = boot_approved (record {
  boot_id = "boot_2";
  project_id = "prj_1";
  environment_id = "env_1";
  environment_key_version = 1;
  payload_expires_at = 800000;
  key_envelope = envelope;
  secrets = [];
})

-- A boot whose payload has been sent and is not yet acknowledged.
abbrev sent_boot : BootRow
sent_boot = record waiting {
  id = "boot_2";
  status = delivered;
  approved_at = some 1500;
  payload_expires_at = some 800000;
  delivered_frame = some payload;
  payload_digest = some "digest_1";
}

abbrev request_row : String → BootStatus → BootRequestRow
request_row id status = record {
  id = id;
  environment_id = "env_1";
  bootstrap_token_id = "tok_a";
  status = status;
  source_ip = none;
  signing_public_key = "spk";
  encryption_public_key = "epk";
  claimed_git_repository = none;
  claimed_git_commit = none;
  claimed_oci_repository = none;
  claimed_oci_digest = none;
  provenance_summary = none;
  created_at = 1000;
  updated_at = 1000;
  approved_at = none;
  declined_at = none;
  delivered_at = none;
  consumed_at = none;
  expired_at = none;
  canceled_at = none;
}

abbrev environment : EnvironmentRow
environment = record {
  id = "env_1";
  project_id = "prj_1";
  key_mode = cloud;
  current_env_key_version = 1;
  provenance_mode = advisory;
  pending_ttl_seconds = 900;
  approved_ttl_seconds = 600;
}

abbrev db : VaultDatabase
db = record {
  projects = [];
  project_keys = [];
  environment_keys = [];
  environments = environment ∷ [];
  tokens =
      record {
        id = "tok_a";
        environment_id = "env_1";
        token_hash = "hash";
        allowed_cidrs = none;
        max_pending_boots = 3;
        expires_at = none;
        revoked_at = none;
        last_seen_at = none;
      }
      ∷ [];
  secrets =
      record {
        id = "sec_1";
        environment_id = "env_1";
        name = "API_KEY";
        env_key_version = 1;
        secret_version = 4;
        nonce = "n";
        ciphertext = "c";
      }
      ∷ [];
  signers = [];
  policies = [];
  requests = request_row "boot_1" pending ∷ request_row "boot_2" delivered ∷ [];
  approvals = [];
  audit = [];
}

-- Two boots: one waits for approval, one has been sent its payload on socket 7.
abbrev busy : World
busy = record {
  boots = waiting ∷ sent_boot ∷ [];
  challenges = record { boot_id = "boot_1"; challenge = "challenge_1"; expires_at = 90000 } ∷ [];
  contexts = [];
  db = db;
  sockets =
      record { id = 7; attachment = some (record { boot_id = "boot_2"; generation = 1 }) }
      ∷ record { id = 8; attachment = some (record { boot_id = "boot_1"; generation = 1 }) }
      ∷ [];
  outputs = [];
  alarm = none;
  clock = 2000;
  draws = 0;
  ticks = 0;
}

abbrev approve_input : ApproveBootInput
approve_input = record {
  boot_id = "boot_1";
  approver_user_id = "user_1";
  approver_credential_id = "cred_1";
  evidence_digest = "evidence_1";
}

abbrev identity : BootIdentity
identity = record { token_id = "tok_a"; source_ip = ""; max_pending_boots = 0 }
