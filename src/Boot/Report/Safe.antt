-- ===== src/Boot/Report/Safe.antt =====
-- Frames, audit events and index rows of boot-session-core.ts, and the table `boots` around them.
use keevault.Base.{refl, ℕ, String, Option, List, [], ◌∷◌}
use keevault.Protocol.State.{BootStatus}
use keevault.Protocol.Messages.{CloseCode, terminal, close_code, ServerMessage}
use keevault.Store.{AuditValue}
use keevault.Boot.{BootRow, Deps}
use keevault.Boot.Report.{
  send, close, attach, attached_boot_id, send_all, send_error, send_terminal, for_boot,
  terminal_frame, audit, mirror,
}
use keevault.Boot.Safe.{Guarded, Safe-same, Keeps, >>=-Keeps, keeping}

module _ (d : Deps) where
  pub send-Keeps : (socket : ℕ) (message : ServerMessage) → Keeps d (send socket message)
  unfolding send
  send-Keeps socket message = record { from = λ w. Safe-same d w _ refl }

  pub close-Keeps : (socket code : ℕ) (reason : String) → Keeps d (close socket code reason)
  unfolding close
  close-Keeps socket code reason = record { from = λ w. Safe-same d w _ refl }

  pub attach-Keeps :
      (socket : ℕ) (boot_id : String) (generation : ℕ) → Keeps d (attach socket boot_id generation)
  unfolding attach
  attach-Keeps socket boot_id generation = record { from = λ w. Safe-same d w _ refl }

  pub attached_boot_id-Keeps : (socket : ℕ) → Keeps d (attached_boot_id socket)
  unfolding attached_boot_id
  attached_boot_id-Keeps socket = search keeping

  pub for_boot-Keeps : (boot_id : String) → Keeps d (for_boot boot_id)
  unfolding for_boot
  for_boot-Keeps boot_id = search keeping

  pub send_error-Keeps :
      (socket : ℕ) (code : CloseCode) (message : String) → Keeps d (send_error socket code message)
  unfolding send_error
  send_error-Keeps socket code message = record { from = λ w. Safe-same d w _ refl }

  pub send_all-Keeps :
      (message : ServerMessage) (sockets : List ℕ) → Keeps d (send_all message sockets)
  unfolding send_all
  send_all-Keeps message [] = search keeping
  send_all-Keeps message (s ∷ sockets) =
      >>=-Keeps d (send-Keeps s message) (λ a. send_all-Keeps message sockets)

  pub send_terminal-Keeps :
      (boot : BootRow) (sockets : List ℕ) → Keeps d (send_terminal boot sockets)
  unfolding send_terminal
  send_terminal-Keeps boot [] = search keeping
  send_terminal-Keeps boot (s ∷ sockets) =
      >>=-Keeps d (send-Keeps s (terminal_frame boot.status boot.id boot.terminal_reason)) (λ a.
        >>=-Keeps d (close-Keeps s (close_code terminal) "boot is terminal")
          (λ b. send_terminal-Keeps boot sockets))

  module _ (g : Guarded d) where
    pub audit-Keeps :
        (action : String) (boot : BootRow) (actor : String) (id : Option String)
        (metadata : List (String × AuditValue))
        → Keeps d (audit d action boot actor id metadata)
    unfolding audit
    audit-Keeps action boot actor id metadata = search keeping depth 8

    pub mirror-Keeps :
        (boot_id : String) (status : BootStatus) (stamp : Option String)
        → Keeps d (mirror d boot_id status stamp)
    unfolding mirror
    mirror-Keeps boot_id status stamp = search keeping depth 8

pub ruleset reporting = (
  keeping, send-Keeps, close-Keeps, attach-Keeps, attached_boot_id-Keeps, for_boot-Keeps,
  send_error-Keeps, send_all-Keeps, send_terminal-Keeps, audit-Keeps, mirror-Keeps,
)
