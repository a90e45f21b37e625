-- ===== src/Boot/Connection/Acknowledge.antt =====
-- `#handleReceived` of boot-session-core.ts, on every branch.
use keevault.Base.{
  ap, str_eq_iff, str_eq_refl, ◌≡◌, refl, ◌∙◌, ◌≢◌, ◌⊎◌, inl, inr, ℕ, String, true, Option, none,
  some, [], Bool-cases,
}
use keevault.Protocol.State.{
  BootStatus, pending, approved, delivered, consumed, declined, expired, canceled, consume, moved,
  refused, TransitionFailureReason, transition,
}
use keevault.Protocol.Messages.{ServerMessage, CloseCode, close_code, boot_consumed}
use keevault.Boot.{BootRow, World, Deps, ◌>>◌}
use keevault.Boot.Table.{select_boot, update_boots, update_boot, read_boot, apply, recompute_alarm}
use keevault.Boot.Table.Laws.{select_boot-id, select_boot-update_self, update_boots-update}
use keevault.Boot.Report.{send, close, audit, mirror, attached_to, attached_boot_id, send_error}
use keevault.Boot.Quiet.{Quiet, Still, still, audit-Still}
use keevault.Boot.Connection.Received.{
  consume_moved, receive_boot, handle_received, digest_matches, owns,
}

consume-refused :
    (s : BootStatus)
    → s ≢ delivered
    → (r : TransitionFailureReason) × (transition s consume ≡ refused r)
unfolding transition
consume-refused delivered n = elim (n refl) [ ]
consume-refused pending n = (_, refl)
consume-refused approved n = (_, refl)
consume-refused consumed n = (_, refl)
consume-refused declined n = (_, refl)
consume-refused expired n = (_, refl)
consume-refused canceled n = (_, refl)

consume-moved : (s : BootStatus) → s ≡ delivered → transition s consume ≡ moved consumed
unfolding transition
consume-moved s e = rw e refl

module _ (d : Deps) where
  -- The acknowledgement is one that must be refused: the socket does not own the boot, the boot is
  -- unknown, its payload has another digest, or it is not DELIVERED.
  abbrev pub Refusable : World → ℕ → String → String → Type 0
  Refusable w socket boot_id payload_digest =
      (attached_to socket w.sockets ≢ some boot_id)
      ⊎ (select_boot boot_id w.boots ≡ none)
      ⊎ ((b : BootRow) × (select_boot boot_id w.boots ≡ some b)
          × ((b.payload_digest ≢ some payload_digest) ⊎ (b.status ≢ delivered)))

  owns-some : (o : Option String) (s : String) → owns d o s ≡ true → o ≡ some s
  owns-some none s h = cc
  owns-some (some t) s h = ap some ((str_eq_iff t s).0 h)

  some-owns : (o : Option String) (s : String) → o ≡ some s → owns d o s ≡ true
  some-owns o s e = rw e (str_eq_refl s)

  digest_matches-some : (o : Option String) (s : String) → digest_matches d o s ≡ true → o ≡ some s
  digest_matches-some none s h = cc
  digest_matches-some (some t) s h = ap some ((str_eq_iff t s).0 h)

  some-digest_matches : (o : Option String) (s : String) → o ≡ some s → digest_matches d o s ≡ true
  some-digest_matches o s e = rw e (str_eq_refl s)

  -- The row that an acknowledgement leaves.
  abbrev pub acknowledged : ℕ → BootRow → BootRow
  acknowledged now b = record b {
    status = consumed;
    delivered_frame = none;
    consumed_at = some now;
  }

  send_error-same :
      (socket : ℕ) (code : CloseCode) (message : String) (w : World)
      → (send_error socket code message w).1.boots ≡ w.boots
  unfolding send_error
  send_error-same socket code message w = refl

  receive_boot-refused :
      (socket : ℕ) (boot_id payload_digest : String) (w : World) (b : BootRow)
      → (b.payload_digest ≢ some payload_digest) ⊎ (b.status ≢ delivered)
      → (receive_boot d socket boot_id payload_digest (some b) w).1.boots ≡ w.boots
  unfolding receive_boot apply consume_moved
  receive_boot-refused socket boot_id payload_digest w b wrong =
      elim (Bool-cases (digest_matches d b.payload_digest payload_digest)) [
        | inr m ↦ rw m (send_error-same socket _ _ w)
        | inl m ↦
            rw m
              (rw ((consume-refused b.status (moved_on m wrong)).1) (send_error-same socket _ _ w))
      ]
    where
      moved_on :
          digest_matches d b.payload_digest payload_digest ≡ true
          → (b.payload_digest ≢ some payload_digest) ⊎ (b.status ≢ delivered)
          → b.status ≢ delivered
      moved_on m (inl n) = elim (n (digest_matches-some b.payload_digest payload_digest m)) [ ]
      moved_on m (inr n) = n

  handle_received-refused :
      (socket : ℕ) (boot_id payload_digest : String) (w : World)
      → Refusable w socket boot_id payload_digest
      → (handle_received d socket boot_id payload_digest w).1.boots ≡ w.boots
  unfolding handle_received attached_boot_id read_boot
  handle_received-refused socket boot_id payload_digest w wrong =
      elim (Bool-cases (owns d (attached_to socket w.sockets) boot_id)) [
        | inr m ↦ rw m (send_error-same socket _ _ w)
        | inl m ↦ rw m (unowned (owned m wrong))
      ]
    where
      Rest : Type 0
      Rest =
          (select_boot boot_id w.boots ≡ none)
          ⊎ ((b : BootRow) × (select_boot boot_id w.boots ≡ some b)
              × ((b.payload_digest ≢ some payload_digest) ⊎ (b.status ≢ delivered)))

      owned :
          owns d (attached_to socket w.sockets) boot_id ≡ true
          → Refusable w socket boot_id payload_digest
          → Rest
      owned m (inl n) = elim (n (owns-some (attached_to socket w.sockets) boot_id m)) [ ]
      owned m (inr rest) = rest

      unowned :
          Rest
          → (receive_boot d socket boot_id payload_digest (select_boot boot_id w.boots) w).1.boots
            ≡ w.boots
      unowned (inl missing) = rw missing (send_error-same socket _ _ w)
      unowned (inr (b, found, h)) =
          rw found (receive_boot-refused socket boot_id payload_digest w b h)

  module _ (q : Quiet d) where
    mirror-Still :
        (boot_id : String) (status : BootStatus) (stamp : Option String)
        → Still d (mirror d boot_id status stamp)
    unfolding mirror
    mirror-Still boot_id status stamp = search (still, q) depth 10

    send-Still : (socket : ℕ) (message : ServerMessage) → Still d (send socket message)
    unfolding send
    send-Still socket message = record { from = λ w. refl }

    close-Still : (socket code : ℕ) (reason : String) → Still d (close socket code reason)
    unfolding close
    close-Still socket code reason = record { from = λ w. refl }

    recompute_alarm-Still : Still d recompute_alarm
    unfolding recompute_alarm
    recompute_alarm-Still = record { from = λ w. refl }

    tell_consumed-Still :
        (socket : ℕ) (boot_id : String) (b : BootRow)
        → Still d (do
          mirror d boot_id consumed (some "consumed")
          audit d "boot.consumed" b "boot" (some boot_id) []
          send socket (boot_consumed boot_id)
          close socket (close_code CloseCode.normal) "boot consumed"
          recompute_alarm)
    tell_consumed-Still socket boot_id b =
        search (still, mirror-Still, audit-Still, send-Still, close-Still, recompute_alarm-Still, q)
          depth 16

    receive_boot-acknowledged :
        (socket : ℕ) (boot_id payload_digest : String) (w : World) (b : BootRow)
        → b.id ≡ boot_id
        → digest_matches d b.payload_digest payload_digest ≡ true
        → b.status ≡ delivered
        → (receive_boot d socket boot_id payload_digest (some b) w).1.boots
          ≡ update_boots boot_id (acknowledged w.clock) w.boots
    unfolding receive_boot apply consume_moved update_boot
    receive_boot-acknowledged socket boot_id payload_digest w b same m s = rw m (
        rw (consume-moved b.status s) (
          (tell_consumed-Still socket boot_id b).from _
          ∙ rw same (update_boots-update boot_id _ _ w.boots (λ c. refl))))

    -- While nobody else changes a row: an acknowledgement from the socket that owns a DELIVERED boot,
    -- with the digest of its payload, leaves that boot CONSUMED now and without its payload; any other
    -- acknowledgement leaves the table as it is.
    pub handle_received-acknowledged :
        (socket : ℕ) (boot_id payload_digest : String) (w : World)
        → (Refusable w socket boot_id payload_digest
            → (handle_received d socket boot_id payload_digest w).1.boots ≡ w.boots)
          × ((b : BootRow)
              → attached_to socket w.sockets ≡ some boot_id
              → select_boot boot_id w.boots ≡ some b
              → b.payload_digest ≡ some payload_digest
              → b.status ≡ delivered
              → select_boot boot_id (handle_received d socket boot_id payload_digest w).1.boots
                ≡ some (acknowledged w.clock b))
    unfolding handle_received attached_boot_id read_boot
    handle_received-acknowledged socket boot_id payload_digest w = (
      handle_received-refused socket boot_id payload_digest w,
      λ b own found m s. rw (some-owns (attached_to socket w.sockets) boot_id own) (
          rw found (
            rw
              (receive_boot-acknowledged socket boot_id payload_digest w b
                (select_boot-id boot_id w.boots found)
                (some-digest_matches b.payload_digest payload_digest m) s)
              (select_boot-update_self boot_id (acknowledged w.clock) w.boots (λ c. refl) found))),
    )
