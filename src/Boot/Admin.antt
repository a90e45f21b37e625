-- ===== src/Boot/Admin.antt =====
-- Decline and cancel, and the dashboard's view: `decline`, `cancelBoot`, `cancel`,
-- `cancelForToken`, `get`, `listLive` and `#view` of boot-session-core.ts.
pub mod Safe
use keevault.Base.{
  ℕ, ◌+◌, String, Bool, true, false, Option, none, some, List, [], ◌∷◌, not, is_empty, length, map,
  str_eq, if◌then◌else◌,
}
use keevault.Protocol.State.{
  BootStatus, pending, approved, delivered, consumed, declined, canceled, decline, is_terminal,
}
use keevault.Protocol.Messages.{WorkloadClaims}
use keevault.Provenance.{VerificationResult}
use keevault.Boot.{BootRow, Socket, World, Deps, M, pure, ◌>>=◌, ◌>>◌}
use keevault.Boot.Table.{
  select_boot, live_boots, read_boot, update_boot, read_live, apply, recompute_alarm,
}
use keevault.Boot.Report.{sockets_for, audit, mirror}
use keevault.Boot.Lifecycle.{ended, tell_ended, cancel_one}
use keevault.Boot.Result.{
  BootActionFailure, not_found, conflict, terminal, Outcome, ok, failure, already,
}

pub record DeclineBootInput : Type 0 where
  pub boot_id : String
  pub approver_user_id : String
  pub reason : String

pub record CancelBootInput : Type 0 where
  pub boot_id : String
  pub actor_user_id : String
  pub reason : String

-- An action that does not apply: `isTerminal(boot.status) ? "terminal" : "conflict"`.
abbrev finished_or_conflict : BootStatus → BootActionFailure
finished_or_conflict status = if is_terminal status then terminal else conflict

-- `BootView`.
pub record BootView : Type 0 where
  pub boot_id : String
  pub environment_id : String
  pub project_id : String
  pub status : BootStatus
  pub token_id : String
  pub source_ip : Option String
  pub signing_fingerprint : String
  pub encryption_fingerprint : String
  pub claims : WorkloadClaims
  pub evidence_count : ℕ
  pub provenance : List VerificationResult
  pub created_at : ℕ
  pub pending_expires_at : Option ℕ
  pub approved_at : Option ℕ
  pub payload_expires_at : Option ℕ
  pub consumed_at : Option ℕ
  pub terminal_reason : Option String
  pub connected : Bool

view : List Socket → BootRow → BootView
unfolding sockets_for
view sockets boot = record {
  boot_id = boot.id;
  environment_id = boot.environment_id;
  project_id = boot.project_id;
  status = boot.status;
  token_id = boot.token_id;
  source_ip = boot.source_ip;
  signing_fingerprint = boot.signing_fp;
  encryption_fingerprint = boot.encryption_fp;
  claims = boot.claims;
  evidence_count = length boot.evidence;
  provenance = boot.provenance;
  created_at = boot.created_at;
  pending_expires_at = boot.pending_expires_at;
  approved_at = boot.approved_at;
  payload_expires_at = boot.payload_expires_at;
  consumed_at = boot.consumed_at;
  terminal_reason = boot.terminal_reason;
  connected = not (is_empty (sockets_for boot.id sockets));
}

get : World → String → Option BootView
unfolding view
get w boot_id = mathlib.Core.Option.map (view w.sockets) (select_boot boot_id w.boots)

list_live : World → List BootView
unfolding view live_boots
list_live w = map (view w.sockets) (live_boots w.boots)

module _ (d : Deps) where
  decline_moved : DeclineBootInput → BootRow → Option BootStatus → M (Outcome BootStatus)
  decline_moved input boot none =
      pure (failure (finished_or_conflict boot.status) (already boot.status))
  decline_moved input boot (some to) = do
    update_boot boot.id (ended input.reason)
    mirror d boot.id declined (some "declined")
    audit d "boot.declined" boot "user" (some input.approver_user_id) []
    tell_ended boot.id
    recompute_alarm
    pure (ok declined)

  decline_row : DeclineBootInput → Option BootRow → M (Outcome BootStatus)
  unfolding decline_moved
  decline_row input none = pure (failure not_found "That boot is unknown to this environment.")
  decline_row input (some boot) = do next ← apply boot decline; decline_moved input boot next

  pub decline_boot : DeclineBootInput → M (Outcome BootStatus)
  unfolding decline_row
  decline_boot input = do boot ← read_boot input.boot_id; decline_row input boot

  cancel_row : CancelBootInput → Option BootRow → M (Outcome BootStatus)
  cancel_row input none = pure (failure not_found "That boot is unknown to this environment.")
  cancel_row input (some boot) = do
    done ← cancel_one d boot input.reason (some input.actor_user_id)
    recompute_alarm
    if not done
        then pure (failure (finished_or_conflict boot.status) (already boot.status))
        else pure (ok canceled)

  unfoldable pub cancel_boot : CancelBootInput → M (Outcome BootStatus)
  unfolding cancel_row
  cancel_boot input = do boot ← read_boot input.boot_id; cancel_row input boot

  abbrev tally : Bool → ℕ → ℕ
  tally done n = if done then n + 1 else n

  -- The loops of `cancel` and `cancelForToken` over the rows that are live when they start.
  cancel_rows : String → ℕ → List BootRow → M ℕ
  cancel_rows reason n [] = pure n
  cancel_rows reason n (boot ∷ boots) = do
    done ← cancel_one d boot reason none
    cancel_rows reason (tally done n) boots

  cancel_all : String → M ℕ
  unfolding cancel_rows
  cancel_all reason = do boots ← read_live; n ← cancel_rows reason 0 boots; recompute_alarm; pure n

  cancel_token_rows : String → String → ℕ → List BootRow → M ℕ
  cancel_token_rows token_id reason n [] = pure n
  cancel_token_rows token_id reason n (boot ∷ boots) = do
    done ← (if str_eq boot.token_id token_id then cancel_one d boot reason none else pure false)
    cancel_token_rows token_id reason (tally done n) boots

  cancel_for_token : String → String → M ℕ
  unfolding cancel_token_rows
  cancel_for_token token_id reason = do
    boots ← read_live
    n ← cancel_token_rows token_id reason 0 boots
    recompute_alarm
    pure n
