-- ===== src/Boot/Connection/Challenge.antt =====
-- `#handleChallengeResponse` and `#tokenStillValid` of boot-session-core.ts.
use keevault.Base.{ℕ, String, Bool, Option, none, some, [], ◌∷◌, not, str_eq, leb, if◌then◌else◌}
use keevault.Protocol.State.{is_terminal}
use keevault.Protocol.Messages.{CloseCode, ResumedStatus, boot_resumed}
use keevault.Boot.{
  BootRow, ChallengeRow, BootIdentity, Deps, M, pure, asks, pause, settle, ◌>>=◌, ◌>>◌,
}
use keevault.Boot.Table.{is_pending, read_boot, recompute_alarm, delete_challenges, read_challenge}
use keevault.Boot.Report.{send, send_error, attach, audit}
use keevault.Boot.Lifecycle.{deliver_to, expire_if_due, send_terminal_once, cancel_one}
use keevault.Boot.Connection.{token_valid, or_now, resumed_status, get_token}

module _ (d : Deps) where
  unfoldable pub token_still_valid : String → M Bool
  token_still_valid token_id = do
    token ← get_token d token_id
    now ← asks (λ w. w.clock)
    pure (token_valid now token)

  -- Tell the client where its boot stands, and deliver the payload that is ready.
  unfoldable pub send_resumed : ℕ → String → BootRow → M (Unit {0})
  send_resumed socket boot_id current = do
    now ← asks (λ w. w.clock)
    if is_pending current.status
        then send socket
            (boot_resumed boot_id ResumedStatus.pending (or_now current.pending_expires_at now))
        else do
          send socket (
              boot_resumed boot_id (resumed_status current.status)
                (or_now current.payload_expires_at now))
          deliver_to d current (socket ∷ [])

  unfoldable pub attach_resumed : ℕ → String → BootRow → M (Unit {0})
  unfolding send_resumed
  attach_resumed socket boot_id current = do
    generation ← asks (λ w. w.clock)
    attach socket boot_id generation
    audit d "boot.reconnected" current "boot" (some boot_id) []
    send_resumed socket boot_id current

  -- The proof has verified and the token is valid.
  unfoldable pub reattach : ℕ → String → BootRow → M (Unit {0})
  unfolding attach_resumed
  reattach socket boot_id boot = do
    current ← expire_if_due d boot
    if is_terminal current.status
        then send_terminal_once d current socket
        else attach_resumed socket boot_id current

  unfoldable pub check_token : ℕ → BootIdentity → String → BootRow → M (Unit {0})
  unfolding reattach
  check_token socket identity boot_id boot =
      if not (str_eq identity.token_id boot.token_id)
      then send_error socket CloseCode.forbidden "This bootstrap token did not open that boot."
      else do
        valid ← token_still_valid boot.token_id
        if valid then reattach socket boot_id boot else do
          done ← cancel_one d boot "bootstrap token revoked" none
          recompute_alarm
          send_error socket CloseCode.forbidden
              "The bootstrap token for that boot is no longer valid."

  -- A challenge is good for one attempt: it is deleted before it is checked.
  unfoldable pub check_challenge :
      ℕ → BootIdentity → String → String → BootRow → Option ChallengeRow → M (Unit {0})
  unfolding check_token
  check_challenge socket identity boot_id signature boot none =
      send_error socket CloseCode.protocol_error "No challenge is outstanding."
  check_challenge socket identity boot_id signature boot (some c) = do
    delete_challenges boot_id
    now ← asks (λ w. w.clock)
    if leb c.expires_at now
        then send_error socket CloseCode.protocol_error "The challenge expired."
        else do
          pause d
          valid ← settle (d.verify_resume boot.signing_pk boot_id c.challenge signature)
          if not valid
              then send_error socket CloseCode.protocol_error "The resume proof did not verify."
              else check_token socket identity boot_id boot

  unfoldable pub answer_boot : ℕ → BootIdentity → String → String → Option BootRow → M (Unit {0})
  unfolding check_challenge
  answer_boot socket identity boot_id signature none =
      send_error socket CloseCode.unknown_boot "This environment has no such boot."
  answer_boot socket identity boot_id signature (some boot) = do
    challenge ← read_challenge boot_id
    check_challenge socket identity boot_id signature boot challenge

  unfoldable pub handle_challenge_response : ℕ → BootIdentity → String → String → M (Unit {0})
  unfolding answer_boot
  handle_challenge_response socket identity boot_id signature = do
    boot ← read_boot boot_id
    answer_boot socket identity boot_id signature boot
