-- ===== src/Boot/Connection/Received.antt =====
-- `#handleReceived` of boot-session-core.ts.
use keevault.Base.{ℕ, String, Bool, false, Option, none, some, [], not, str_eq, if◌then◌else◌}
use keevault.Protocol.State.{BootStatus, consumed, consume, is_terminal}
use keevault.Protocol.Messages.{CloseCode, close_code, boot_consumed}
use keevault.Boot.{BootRow, Deps, M, asks, ◌>>=◌, ◌>>◌}
use keevault.Boot.Table.{read_boot, update_boot, apply, recompute_alarm}
use keevault.Boot.Report.{send, close, send_error, attached_boot_id, audit, mirror}

module _ (d : Deps) where
  -- `boot.payload_digest === null || boot.payload_digest !== payloadDigest`, negated.
  abbrev pub digest_matches : Option String → String → Bool
  digest_matches none payload_digest = false
  digest_matches (some digest) payload_digest = str_eq digest payload_digest

  unfoldable pub consume_moved : ℕ → String → BootRow → Option BootStatus → M (Unit {0})
  consume_moved socket boot_id boot none =
      send_error socket (if is_terminal boot.status then CloseCode.terminal else CloseCode.conflict)
        "This boot cannot be consumed in its current state."
  consume_moved socket boot_id boot (some to) = do
    now ← asks (λ w. w.clock)
    update_boot boot_id (λ b. record b { delivered_frame = none; consumed_at = some now })
    mirror d boot_id consumed (some "consumed")
    audit d "boot.consumed" boot "boot" (some boot_id) []
    send socket (boot_consumed boot_id)
    close socket (close_code CloseCode.normal) "boot consumed"
    recompute_alarm

  unfoldable pub receive_boot : ℕ → String → String → Option BootRow → M (Unit {0})
  unfolding consume_moved
  receive_boot socket boot_id payload_digest none =
      send_error socket CloseCode.unknown_boot "This environment has no such boot."
  receive_boot socket boot_id payload_digest (some boot) =
      if not (digest_matches boot.payload_digest payload_digest)
      then send_error socket CloseCode.protocol_error
          "The acknowledged payload digest does not match what was sent."
      else do next ← apply boot consume; consume_moved socket boot_id boot next

  abbrev pub owns : Option String → String → Bool
  owns none boot_id = false
  owns (some id) boot_id = str_eq id boot_id

  unfoldable pub handle_received : ℕ → String → String → M (Unit {0})
  unfolding receive_boot
  handle_received socket boot_id payload_digest = do
    attached ← attached_boot_id socket
    if not (owns attached boot_id)
        then send_error socket CloseCode.unknown_boot "This socket does not own that boot."
        else do boot ← read_boot boot_id; receive_boot socket boot_id payload_digest boot
