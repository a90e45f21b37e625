-- ===== src/Boot/Connection/Resume.antt =====
-- `#handleResume` of boot-session-core.ts.
use keevault.Base.{ℕ, ◌+◌, ◌*◌, String, Option, none, some, not, str_eq, if◌then◌else◌}
use keevault.Protocol.State.{is_terminal}
use keevault.Protocol.Messages.{CloseCode, boot_challenge}
use keevault.Boot.{BootRow, BootIdentity, Deps, M, asks, draw, ◌>>=◌, ◌>>◌}
use keevault.Boot.Table.{read_boot, delete_challenges, insert_challenge}
use keevault.Boot.Report.{send, send_error}
use keevault.Boot.Lifecycle.{expire_if_due, send_terminal_once}
use keevault.Boot.Connection.{default_challenge_ttl_seconds}

module _ (d : Deps) where
  -- The boot is known: check its token, expire it if due, and challenge.
  unfoldable pub resume_boot : ℕ → BootIdentity → String → Option BootRow → M (Unit {0})
  resume_boot socket identity boot_id none =
      send_error socket CloseCode.unknown_boot "This environment has no such boot."
  resume_boot socket identity boot_id (some boot) =
      if not (str_eq identity.token_id boot.token_id)
      then send_error socket CloseCode.forbidden "This bootstrap token did not open that boot."
      else do
        current ← expire_if_due d boot
        if is_terminal current.status then send_terminal_once d current socket else do
          challenge ← draw d.random_challenge
          now ← asks (λ w. w.clock)
          delete_challenges boot_id
          insert_challenge (record {
            boot_id = boot_id;
            challenge = challenge;
            expires_at = now + default_challenge_ttl_seconds * 1000;
          })
          send socket (boot_challenge boot_id challenge)

  unfoldable pub handle_resume : ℕ → BootIdentity → String → M (Unit {0})
  unfolding resume_boot
  handle_resume socket identity boot_id = do
    boot ← read_boot boot_id
    resume_boot socket identity boot_id boot
