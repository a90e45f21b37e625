-- ===== src/Boot/Report.antt =====
-- What the boot session of boot-session-core.ts tells others: frames to sockets, the audit log and
-- the index row in D1.
pub mod Safe
use keevault.Base.{
  ℕ, String, Bool, true, false, Option, none, some, List, [], ◌∷◌, map, filter, str_eq, take_text,
  ◌==◌, if◌then◌else◌,
}
use keevault.Protocol.State.{
  BootStatus, pending, approved, delivered, consumed, declined, expired, canceled,
}
use keevault.Protocol.Messages.{
  CloseCode, close_code, ServerMessage, boot_declined, boot_expired, boot_canceled, boot_error,
}
use keevault.Store.{AuditValue}
use keevault.Store.Writes.{append_audit_event, update_boot_request_status}
use keevault.Boot.{
  BootRow, Attachment, Socket, Output, sent, closed, World, Deps, M, pure, asks, modify, pause,
  write, draw, ◌>>=◌, ◌>>◌,
}

-- `socket.send` and `socket.close`.
unfoldable pub send : ℕ → ServerMessage → M (Unit {0})
send socket message = modify (λ w. record w { outputs = sent socket message ∷ w.outputs })

unfoldable pub close : ℕ → ℕ → String → M (Unit {0})
close socket code reason =
    modify (λ w. record w { outputs = closed socket code reason ∷ w.outputs })

unfoldable pub send_error : ℕ → CloseCode → String → M (Unit {0})
unfolding send close
send_error socket code message = do
  send socket (boot_error code message)
  close socket (close_code code) (take_text 100 message)

-- `attachedBootId` and `attach` of the connection.
abbrev attachment_boot : Option Attachment → Option String
attachment_boot none = none
attachment_boot (some a) = some a.boot_id

unfoldable pub attached_to : ℕ → List Socket → Option String
attached_to socket [] = none
attached_to socket (s ∷ sockets) =
    if s.id == socket then attachment_boot s.attachment else attached_to socket sockets

unfoldable pub attached_boot_id : ℕ → M (Option String)
unfolding attached_to
attached_boot_id socket = asks (λ w. attached_to socket w.sockets)

unfoldable pub attach : ℕ → String → ℕ → M (Unit {0})
attach socket boot_id generation = modify (λ w. record w {
  sockets =
      map
        (λ (s : Socket).
          if s.id == socket
          then record s {
            attachment = some (record { boot_id = boot_id; generation = generation });
          }
          else s)
        w.sockets;
})

abbrev is_attached : String → Option Attachment → Bool
is_attached boot_id none = false
is_attached boot_id (some a) = str_eq a.boot_id boot_id

-- `sockets.forBoot`: `#socketsFor` of environment-session.ts.
unfoldable pub sockets_for : String → List Socket → List ℕ
sockets_for boot_id sockets =
    map (λ (s : Socket). s.id) (filter (λ (s : Socket). is_attached boot_id s.attachment) sockets)

unfoldable pub for_boot : String → M (List ℕ)
unfolding sockets_for
for_boot boot_id = asks (λ w. sockets_for boot_id w.sockets)

unfoldable pub send_all : ServerMessage → List ℕ → M (Unit {0})
send_all message [] = pure tt
send_all message (s ∷ sockets) = do send s message; send_all message sockets

abbrev text_or_empty : Option String → String
text_or_empty none = ""
text_or_empty (some s) = s

-- The frame that says how a boot ended.
abbrev pub terminal_frame : BootStatus → String → Option String → ServerMessage
terminal_frame declined boot_id reason =
    boot_declined boot_id
      (if str_eq (text_or_empty reason) "" then none else some (text_or_empty reason))
terminal_frame expired boot_id reason = boot_expired boot_id
terminal_frame canceled boot_id reason =
    boot_canceled boot_id
      (if str_eq (text_or_empty reason) "" then "canceled" else text_or_empty reason)
terminal_frame _ boot_id reason = boot_error CloseCode.terminal "This boot has already finished."

unfoldable pub send_terminal : BootRow → List ℕ → M (Unit {0})
unfolding send close
send_terminal boot [] = pure tt
send_terminal boot (s ∷ sockets) = do
  send s (terminal_frame boot.status boot.id boot.terminal_reason)
  close s (close_code CloseCode.terminal) "boot is terminal"
  send_terminal boot sockets

-- `stamp === name ? now : null`.
abbrev stamped : Option String → String → ℕ → Option ℕ
stamped none name now = none
stamped (some stamp) name now = if str_eq stamp name then some now else none

module _ (d : Deps) where
  unfoldable pub audit :
      String → BootRow → String → Option String → List (String × AuditValue) → M (Unit {0})
  audit action boot actor_type actor_id metadata = do
    id ← draw d.new_audit_id
    now ← asks (λ w. w.clock)
    pause d
    write (
        append_audit_event (record {
          id = id;
          timestamp = now;
          actor_type = actor_type;
          actor_id = actor_id;
          action = action;
          project_id = some boot.project_id;
          environment_id = some boot.environment_id;
          boot_id = some boot.id;
          metadata = metadata;
        }))

  unfoldable pub mirror : String → BootStatus → Option String → M (Unit {0})
  mirror boot_id status stamp = do
    now ← asks (λ w. w.clock)
    pause d
    write (
        update_boot_request_status (record {
          boot_id = boot_id;
          status = status;
          now = now;
          approved_at = stamped stamp "approved" now;
          declined_at = stamped stamp "declined" now;
          delivered_at = stamped stamp "delivered" now;
          consumed_at = stamped stamp "consumed" now;
          expired_at = stamped stamp "expired" now;
          canceled_at = stamped stamp "canceled" now;
        }))
