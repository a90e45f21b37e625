-- ===== src/Boot/Tests/Races.antt =====
-- Interleavings of boot-session-core.ts in which a method goes on with a row that it read before an
-- await, while the row has changed.
use keevault.Base.{◌≡◌, refl, Option, none, some, [], ◌∷◌, str_eq, take_text, if◌then◌else◌, ◌==◌}
use keevault.Protocol.State.{BootStatus, approved, delivered, canceled, transition, is_terminal}
use keevault.Boot.{BootRow, World, Deps, pause, write, draw}
use keevault.Boot.Table.{
  select_boot, read_boot, update_boot, update_boots, apply, min_deadline, recompute_alarm,
  read_challenge, delete_challenges,
}
use keevault.Store.Queries.{get_bootstrap_token_by_token_id}
use keevault.Boot.Result.{already, status_name}
use keevault.Boot.Connection.{get_token, bare_token_id}
use keevault.Boot.Connection.Challenge.{token_still_valid, handle_challenge_response}
use keevault.Boot.Report.{
  send_terminal, sockets_for, send_error, attach, attached_boot_id, attached_to, close, mirror,
  audit, for_boot, send_all, send,
}
use keevault.Boot.Lifecycle.{
  cancel_one, tell_ended, tell_row, expire, expire_if_due, send_terminal_once, deliver_to,
  deliver_moved, record_delivery,
}
use keevault.Store.Writes.{update_boot_request_status, append_audit_event}
use keevault.Boot.Admin.{CancelBootInput, cancel_boot}
use keevault.Boot.Tests.{calm, sent_boot, request_row, db, busy, identity}

-- An APPROVED boot whose client comes back, while an administrator cancels it during the second
-- await of the answer. The method goes on with the row that it read at first.
abbrev ready_boot : BootRow
ready_boot = record sent_boot { id = "boot_3"; status = approved }

abbrev cancel_input : CancelBootInput
cancel_input = record { boot_id = "boot_3"; actor_user_id = "user_1"; reason = "lost machine" }

abbrev racing : Deps
racing = record calm {
  others = λ w. some (if w.ticks == 1 then (cancel_boot calm cancel_input w).1 else w);
}

abbrev ready_world : World
ready_world = record busy {
  boots = ready_boot ∷ [];
  challenges = record { boot_id = "boot_3"; challenge = "challenge_1"; expires_at = 90000 } ∷ [];
  db = record db { requests = request_row "boot_3" approved ∷ [] };
  sockets = record { id = 9; attachment = none } ∷ [];
}

abbrev status_of : Option BootRow → Option BootStatus
status_of none = none
status_of (some b) = some b.status

cancel_alone :
    status_of (select_boot "boot_3" (cancel_boot calm cancel_input ready_world).1.boots)
    ≡ some canceled
unfolding cancel_boot select_boot read_boot str_eq cancel_one apply transition mirror pause write
    update_boot_request_status audit draw append_audit_event tell_ended tell_row update_boots
    for_boot close send send_terminal sockets_for already status_name min_deadline recompute_alarm
    update_boot is_terminal
cancel_alone = refl

revived :
    status_of (
      select_boot "boot_3"
        (handle_challenge_response racing 9 identity "boot_3" "good" ready_world).1.boots)
    ≡ some delivered
unfolding cancel_boot select_boot read_boot str_eq cancel_one apply transition mirror pause write
    update_boot_request_status audit draw append_audit_event tell_ended tell_row update_boots
    for_boot close send send_terminal sockets_for already status_name min_deadline recompute_alarm
    update_boot is_terminal handle_challenge_response read_challenge delete_challenges
    token_still_valid get_token get_bootstrap_token_by_token_id take_text bare_token_id
    deliver_moved deliver_to expire expire_if_due record_delivery send_terminal_once attach
    attached_boot_id attached_to send_all send_error
revived = refl
