-- ===== src/Boot/Lifecycle.antt =====
-- Delivery, expiry and cancellation of one boot: `#deliver`, `#sendTerminalOnce`, `#expire`,
-- `#expireIfDue`, `#expireDue`, `onAlarm` and `#cancelOne` of boot-session-core.ts.
pub mod Safe
use keevault.Base.{
  ℕ, String, Bool, true, false, Option, none, some, List, [], ◌∷◌, ◌||◌, not, is_empty, str_eq, leb,
  if◌then◌else◌,
}
use keevault.Protocol.State.{
  BootStatus, pending, approved, delivered, consumed, declined, expired, canceled, BootEvent,
  deliver, redeliver, expire_pending, expire_payload, cancel, is_terminal,
}
use keevault.Protocol.Messages.{ServerMessage}
use keevault.Store.{AuditValue, text, flag}
use keevault.Boot.{BootRow, World, Deps, M, pure, asks, ◌>>=◌, ◌>>◌}
use keevault.Boot.Table.{
  is_pending, read_boot, update_boot, read_live, apply, deadline_of, recompute_alarm,
}
use keevault.Boot.Report.{audit, mirror, send_all, for_boot, send_terminal, attached_boot_id}

abbrev is_approved : BootStatus → Bool
is_approved approved = true
is_approved _ = false

-- `?? boot`.
abbrev pub row_or : BootRow → Option BootRow → BootRow
row_or boot none = boot
row_or boot (some row) = row

abbrev pub due : Option ℕ → ℕ → Bool
due none now = false
due (some at) now = leb at now

-- The `event` of `#expire` as the recorded reason.
abbrev expiry_reason : BootEvent → String
expiry_reason expire_pending = "pending ttl elapsed"
expiry_reason _ = "payload ttl elapsed"

abbrev pub expiry_event : BootStatus → BootEvent
expiry_event pending = expire_pending
expiry_event _ = expire_payload

abbrev attached_here : Option String → String → Bool
attached_here none boot_id = false
attached_here (some id) boot_id = str_eq id boot_id

-- Clear the payload and record why the boot ended.
abbrev pub ended : String → BootRow → BootRow
ended reason b = record b { delivered_frame = none; terminal_reason = some reason }

-- The last lines of `#expire` and `#cancelOne`: tell every attached socket.
unfoldable pub tell_row : String → Option BootRow → M (Unit {0})
tell_row boot_id none = pure tt
tell_row boot_id (some row) = do sockets ← for_boot boot_id; send_terminal row sockets

unfoldable pub tell_ended : String → M (Unit {0})
tell_ended boot_id = do row ← read_boot boot_id; tell_row boot_id row

module _ (d : Deps) where
  unfoldable pub record_delivery : BootRow → Bool → M (Unit {0})
  record_delivery boot true = do
    mirror d boot.id delivered (some "delivered")
    audit d "boot.delivered" boot "system" none []
  record_delivery boot false =
      audit d "boot.delivered" boot "system" none (("redelivery", flag true) ∷ [])

  -- After `#apply` has moved the row: `next === null` leaves at once.
  unfoldable pub deliver_moved :
      BootRow → ServerMessage → List ℕ → Bool → Option BootStatus → M (Unit {0})
  deliver_moved boot payload sockets first none = pure tt
  deliver_moved boot payload sockets first (some to) = do
    send_all payload sockets
    record_delivery boot first

  abbrev deliver_payload : BootRow → List ℕ → Option ServerMessage → M (Unit {0})
  deliver_payload boot sockets none = pure tt
  deliver_payload boot sockets (some payload) = if is_empty sockets then pure tt else do
    next ← apply boot (if is_approved boot.status then deliver else redeliver)
    deliver_moved boot payload sockets (is_approved boot.status) next

  unfoldable pub deliver_to : BootRow → List ℕ → M (Unit {0})
  deliver_to boot sockets = deliver_payload boot sockets boot.delivered_frame

  expire_moved : BootRow → BootEvent → Option BootStatus → M (Unit {0})
  expire_moved boot event none = pure tt
  expire_moved boot event (some to) = do
    update_boot boot.id (ended (expiry_reason event))
    mirror d boot.id expired (some "expired")
    audit d "boot.expired" boot "system" none []
    tell_ended boot.id

  unfoldable pub expire : BootRow → BootEvent → M (Unit {0})
  unfolding expire_moved
  expire boot event = do next ← apply boot event; expire_moved boot event next

  unfoldable pub expire_if_due : BootRow → M BootRow
  expire_if_due boot = do
    now ← asks (λ w. w.clock)
    if is_terminal boot.status || not (due (deadline_of boot) now) then pure boot else do
      expire boot (expiry_event boot.status)
      recompute_alarm
      row ← read_boot boot.id
      pure (row_or boot row)

  unfoldable pub expire_rows : ℕ → List BootRow → M (Unit {0})
  expire_rows now [] = pure tt
  expire_rows now (boot ∷ boots) = do
    if due (deadline_of boot) now then expire boot (expiry_event boot.status) else pure tt
    expire_rows now boots

  -- `now` is read once, before the loop over the rows that are live then.
  unfoldable pub expire_due : M (Unit {0})
  expire_due = do now ← asks (λ w. w.clock); boots ← read_live; expire_rows now boots

  unfoldable pub send_terminal_once : BootRow → ℕ → M (Unit {0})
  send_terminal_once boot socket = do
    attached ← attached_boot_id socket
    if attached_here attached boot.id then pure tt else send_terminal boot (socket ∷ [])

  on_alarm : M (Unit {0})
  on_alarm = do expire_due; recompute_alarm

  abbrev actor_type : Option String → String
  actor_type none = "system"
  actor_type (some id) = "user"

  cancel_moved : BootRow → String → Option String → Option BootStatus → M Bool
  cancel_moved boot reason actor_id none = pure false
  cancel_moved boot reason actor_id (some to) = do
    update_boot boot.id (ended reason)
    mirror d boot.id canceled (some "canceled")
    audit d "boot.canceled" boot (actor_type actor_id) actor_id (("reason", text reason) ∷ [])
    tell_ended boot.id
    pure true

  unfoldable pub cancel_one : BootRow → String → Option String → M Bool
  unfolding cancel_moved
  cancel_one boot reason actor_id = do
    next ← apply boot cancel
    cancel_moved boot reason actor_id next
