-- ===== src/Boot/Tests/Witnesses.antt =====
-- The theorems on the boot session of boot-session-core.ts at a run of one concrete environment:
-- a boot is approved, delivered and acknowledged.
use keevault.Base.{◌≡◌, refl, some, [], ◌∷◌, str_eq, sort_by}
use keevault.Protocol.State.{delivered, is_terminal}
use keevault.Protocol.Messages.{BootHello}
use keevault.Store.{cloud}
use keevault.Boot.{BootRow, World, pause, draw}
use keevault.Boot.Table.{
  select_boot, read_boot, recompute_alarm, delete_expired_contexts, insert_context,
}
use keevault.Provenance.Policy.{evaluate_policy, required_of, result_for}
use keevault.Provenance.Context.{usable_signers, policy_entries}
use keevault.Store.Queries.{
  get_environment, get_bootstrap_token_by_token_id, list_secrets_for_delivery,
  list_trusted_signers_for_environment, list_provenance_policies_by_environment,
}
use keevault.Boot.Result.{ok, return_if}
use keevault.Boot.Table.Deadlines.{Covers, recompute_alarm-Covers}
use keevault.Boot.Connection.Hello.{hello_environment}
use keevault.Boot.Connection.{
  get_token, bare_token_id, read_environment, load_provenance_context, run_verifiers,
}
use keevault.Boot.Connection.Received.{handle_received}
use keevault.Boot.Connection.Resume.{handle_resume}
use keevault.Boot.Connection.Challenge.{handle_challenge_response}
use keevault.Boot.Connection.Quiet.{handle_challenge_response-Safe}
use keevault.Boot.Report.{attached_to}
use keevault.Boot.Approval.Snapshot.{approval_state-ok, Established}
use keevault.Boot.Approval.Preparing.{Ready, prepare_approval-ok}
use keevault.Boot.Approval.{ApprovalState, CompleteInput, Prepared}
use keevault.Boot.Approval.State.{approval_state}
use keevault.Boot.Approval.Prepare.{prepare_approval}
use keevault.Boot.Approval.Complete.{complete_approval}
use keevault.Boot.Safe.{Safe, Sound}
use keevault.Boot.Session.{hello, resume, complete, done, next, Step-Safe, Run-Sound}
use keevault.Boot.Lifecycle.{expire_due, expire_rows}
use keevault.Boot.Table.{read_live, live_boots}
use keevault.Boot.Connection.Hello.{handle_hello}
use keevault.Boot.Connection.Limits.{WithinLimits, handle_hello-WithinLimits}
use keevault.Boot.Connection.Acknowledge.{Refusable, acknowledged, handle_received-acknowledged}
use keevault.Boot.Connection.TokenIds.{get_token-bare}
use keevault.Base.{find}
use keevault.Store.{BootstrapTokenRow}
use keevault.Boot.Tests.{
  calm-Quiet, db, claims_only, environment, claims, calm, calm-Quiet, calm-Guarded, waiting,
  envelope, environment, busy, approve_input, identity,
}

abbrev prepared_at : World
prepared_at = (prepare_approval calm approve_input busy).1

abbrev prepared : Prepared
prepared = record {
  request = record {
    context_id = "challenge_1";
    boot_id = "boot_1";
    environment_id = "env_1";
    project_id = "prj_1";
    key_mode = cloud;
    environment_key_version = 1;
    recipient_public_key = "epk";
    evidence_digest = "evidence_1";
    secrets_digest = "secrets_1";
    expires_at = 62008;
    payload_expires_at = 602008;
  };
  context_digest = "request_1";
}

prepares : prepare_approval calm approve_input busy ≡ (some (ok prepared), prepared_at)
unfolding prepare_approval approval_state read_boot select_boot str_eq is_terminal get_token pause
    bare_token_id get_bootstrap_token_by_token_id read_environment get_environment return_if
    load_provenance_context usable_signers list_trusted_signers_for_environment sort_by
    policy_entries list_provenance_policies_by_environment run_verifiers evaluate_policy required_of
    result_for list_secrets_for_delivery draw delete_expired_contexts insert_context
prepares = refl

prepare_approval-ok_example :
    (s : ApprovalState) × (v : World) × Established calm approve_input busy s v
    × Ready calm approve_input s prepared v prepared_at
prepare_approval-ok_example =
    prepare_approval-ok calm approve_input busy prepared_at {p = prepared} prepares

abbrev complete_input : CompleteInput
complete_input = record {
  approval = approve_input;
  context_id = "challenge_1";
  context_digest = "request_1";
  key_envelope = envelope;
}

abbrev completed_at : World
completed_at = (complete_approval calm complete_input prepared_at).1

abbrev snapshot_at : World
snapshot_at = (approval_state calm approve_input busy).1

abbrev snapshot_state : ApprovalState
snapshot_state = record {
  boot = waiting;
  environment = environment;
  results = claims_only ∷ [];
  secrets =
      record {
        id = "sec_1";
        name = "API_KEY";
        version = 4;
        env_key_version = 1;
        nonce = "n";
        ciphertext = "c";
      }
      ∷ [];
  secrets_digest = "secrets_1";
}

snapshots : approval_state calm approve_input busy ≡ (some (ok snapshot_state), snapshot_at)
unfolding approval_state read_boot select_boot str_eq is_terminal get_token pause bare_token_id
    get_bootstrap_token_by_token_id read_environment get_environment return_if
    load_provenance_context usable_signers list_trusted_signers_for_environment sort_by
    policy_entries list_provenance_policies_by_environment run_verifiers evaluate_policy required_of
    result_for list_secrets_for_delivery
snapshots = refl

approval_state-ok_example : Established calm approve_input busy snapshot_state snapshot_at
approval_state-ok_example =
    approval_state-ok calm approve_input busy snapshot_at {s = snapshot_state} snapshots

abbrev hello_frame : BootHello
hello_frame = record {
  boot_nonce = "nonce";
  signing_public_key = "spk";
  encryption_public_key = "epk";
  claims = claims;
  evidence = [];
}

-- The same environment before any boot.
abbrev fresh : World
fresh = record busy { boots = []; challenges = [] }

Run-Sound_example :
    Sound calm
      (handle_resume calm 8 identity "boot_new"
        (hello_environment calm 8 identity hello_frame (some environment) fresh).1).1.boots
Run-Sound_example = Run-Sound calm calm-Guarded {w = fresh} refl (
    next (hello 8 identity hello_frame (some environment))
      (next (resume 8 identity "boot_new") done))

Step-Safe_example : Safe calm prepared_at (complete_approval calm complete_input prepared_at).1
Step-Safe_example = Step-Safe calm calm-Guarded {w = prepared_at} (complete complete_input)

handle_challenge_response-Safe_example :
    Safe calm busy (handle_challenge_response calm 9 identity "boot_1" "good" busy).1
handle_challenge_response-Safe_example =
    handle_challenge_response-Safe calm calm-Quiet 9 identity "boot_1" "good" busy

recompute_alarm-Covers_example : Covers ((recompute_alarm busy).1).alarm busy.boots
recompute_alarm-Covers_example = recompute_alarm-Covers busy

-- No boot is due, so the expiry before a hello changes nothing.
abbrev after_expiry : World
after_expiry = (expire_due calm busy).1

expires_none : expire_due calm busy ≡ (some tt, after_expiry)
unfolding expire_due expire_rows read_live live_boots sort_by
expires_none = refl

handle_hello-WithinLimits_example :
    WithinLimits calm calm-Quiet identity after_expiry.clock after_expiry.boots
      (handle_hello calm 9 identity hello_frame busy).1.boots
unfolding attached_to
handle_hello-WithinLimits_example =
    handle_hello-WithinLimits calm calm-Quiet 9 identity hello_frame busy after_expiry refl
      expires_none

handle_received-acknowledged_example :
    (Refusable calm busy 7 "boot_2" "digest_1"
      → (handle_received calm 7 "boot_2" "digest_1" busy).1.boots ≡ busy.boots)
    × ((b : BootRow)
        → attached_to 7 busy.sockets ≡ some "boot_2"
        → select_boot "boot_2" busy.boots ≡ some b
        → b.payload_digest ≡ some "digest_1"
        → b.status ≡ delivered
        → select_boot "boot_2" (handle_received calm 7 "boot_2" "digest_1" busy).1.boots
          ≡ some (acknowledged calm busy.clock b))
handle_received-acknowledged_example =
    handle_received-acknowledged calm calm-Quiet 7 "boot_2" "digest_1" busy

get_token-bare_example :
    get_bootstrap_token_by_token_id db (bare_token_id "tok_a")
    ≡ find (λ (row : BootstrapTokenRow). str_eq row.id "tok_a") db.tokens
get_token-bare_example = get_token-bare db "a"
