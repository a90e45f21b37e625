-- ===== src/Boot/Connection/Safe.antt =====
-- How the frame handlers of boot-session-core.ts that start from the row as it is, `boot.resume` and
-- `boot.received`, act on the table `boots`.
use mathlib.Core.Path.{subst}
use keevault.Base.{
  ◌≡◌, refl, sym, ℕ, String, Option, none, some, not, str_eq, Bool-cases, inl, inr, arith, List, [],
  ◌∷◌, any,
}
use keevault.Protocol.State.{BootStatus, consumed, consume, moved, transition}
use keevault.Protocol.Messages.{CloseCode, close_code, boot_consumed, BootHello}
use keevault.Provenance.{VerifierInput, VerificationResult, ProvenanceMode}
use keevault.Store.{EnvironmentRow}
use keevault.Boot.{BootRow, ChallengeRow, BootIdentity, ProvenanceVerifier, World, Deps, ◌>>◌}
use keevault.Boot.Table.{
  select_boot, update_boots, read_boot, update_boot, insert_boot, has_id, recompute_alarm,
  delete_challenges, insert_challenge,
}
use keevault.Boot.Table.Laws.{select_boot-id, select_boot_self}
use keevault.Boot.Report.{send, close, audit, mirror}
use keevault.Boot.Report.Safe.{reporting, send_error-Keeps, attached_boot_id-Keeps}
use keevault.Boot.Lifecycle.{expire_if_due, send_terminal_once}
use keevault.Boot.Lifecycle.Safe.{
  apply_cases, expire_if_due-Safe, recompute_alarm-Keeps, read_boot-Keeps,
}
use keevault.Boot.Connection.{get_token, read_environment, load_provenance_context, run_verifiers}
use keevault.Boot.Connection.Hello.{audit_requested, new_boot, open_boot, hello_environment}
use keevault.Boot.Connection.Resume.{resume_boot, handle_resume}
use keevault.Boot.Connection.Received.{receive_boot, handle_received, digest_matches, owns}
use keevault.Boot.Safe.{
  Safe, SafeRows, Guarded, RowSound, SafeRows-insert, SafeRows-settle, Safe-same, Safe-trans,
  Safe-then, Keeps, pure-Keeps, >>=-Keeps, if-Keeps, pause-Keeps, keeping,
}

consume-consumed : (s t : BootStatus) → transition s consume ≡ moved t → t ≡ consumed
unfolding transition
consume-consumed s t m = ground arith

module _ (d : Deps) where
  pub delete_challenges-Keeps : (boot_id : String) → Keeps d (delete_challenges boot_id)
  unfolding delete_challenges
  delete_challenges-Keeps boot_id = record { from = λ w. Safe-same d w _ refl }

  insert_challenge-Keeps : (row : ChallengeRow) → Keeps d (insert_challenge row)
  unfolding insert_challenge
  insert_challenge-Keeps row = record { from = λ w. Safe-same d w _ refl }

  pub send_terminal_once-Keeps :
      (boot : BootRow) (socket : ℕ) → Keeps d (send_terminal_once d boot socket)
  unfolding send_terminal_once
  send_terminal_once-Keeps boot socket = search reporting depth 8

  -- The acknowledgement consumes the row and clears its payload in one step.
  consume-SafeRows :
      (w : World) (b : BootRow) (t : BootStatus) (now : ℕ)
      → select_boot b.id w.boots ≡ some b
      → transition b.status consume ≡ moved t
      → SafeRows d w.boots (
          update_boots b.id
            (λ c. record c { delivered_frame = none; consumed_at = some now })
            (update_boots b.id (λ c. record c { status = t }) w.boots))
  consume-SafeRows w b t now found m =
      SafeRows-settle d w.boots b consume t
        (λ c. record c { delivered_frame = none; consumed_at = some now }) found m
        (λ c. (refl, refl)) (λ n. refl) (λ s. consumed_sound b t (consume-consumed b.status t m))
        (λ c. refl)
    where
      consumed_sound :
          (b : BootRow) (t : BootStatus)
          → t ≡ consumed
          → RowSound d (record b { status = t; delivered_frame = none; consumed_at = some now })
      consumed_sound b t e =
          subst
            (λ u.
              RowSound d (record b { status = u; delivered_frame = none; consumed_at = some now }))
            (sym e) (refl, (now, refl))

  module _ (g : Guarded d) where
    resume_boot-Safe :
        (socket : ℕ) (identity : BootIdentity) (boot_id : String) (w : World) (row : Option BootRow)
        → select_boot boot_id w.boots ≡ row
        → Safe d w (resume_boot d socket identity boot_id row w).1
    unfolding resume_boot
    resume_boot-Safe socket identity boot_id w none e = (send_error-Keeps d _ _ _).from w
    resume_boot-Safe socket identity boot_id w (some boot) e =
        elim (Bool-cases (not (str_eq identity.token_id boot.token_id))) [
          | inl h ↦ rw h ((send_error-Keeps d _ _ _).from w)
          | inr h ↦ rw h (
              Safe-then d (expire_if_due d boot) _ w
                (expire_if_due-Safe d g boot w (select_boot_self boot_id w.boots e))
                (λ current.
                  search
                    (
                      reporting, send_terminal_once-Keeps, delete_challenges-Keeps,
                      insert_challenge-Keeps,
                    )
                    depth 16))
        ]

    pub handle_resume-Keeps :
        (socket : ℕ) (identity : BootIdentity) (boot_id : String)
        → Keeps d (handle_resume d socket identity boot_id)
    unfolding handle_resume read_boot
    handle_resume-Keeps socket identity boot_id = record {
      from = λ w. resume_boot-Safe socket identity boot_id w (select_boot boot_id w.boots) refl;
    }

    tell_consumed-Keeps :
        (socket : ℕ) (boot : BootRow)
        → Keeps d (do
          mirror d boot.id consumed (some "consumed")
          audit d "boot.consumed" boot "boot" (some boot.id) []
          send socket (boot_consumed boot.id)
          close socket (close_code CloseCode.normal) "boot consumed"
          recompute_alarm)
    tell_consumed-Keeps socket boot = search (reporting, recompute_alarm-Keeps, g) depth 16

    receive_boot-Safe :
        (socket : ℕ) (boot_id payload_digest : String) (w : World) (row : Option BootRow)
        → select_boot boot_id w.boots ≡ row
        → Safe d w (receive_boot d socket boot_id payload_digest row w).1
    unfolding receive_boot update_boot
    receive_boot-Safe socket boot_id payload_digest w none e = (send_error-Keeps d _ _ _).from w
    receive_boot-Safe socket boot_id payload_digest w (some boot) e =
        elim (Bool-cases (not (digest_matches d boot.payload_digest payload_digest))) [
          | inl h ↦ rw h ((send_error-Keeps d _ _ _).from w)
          | inr h ↦ rw h (
              apply_cases d boot consume _ w ((send_error-Keeps d _ _ _).from w) λ t m.
                rw (← select_boot-id boot_id w.boots e) (
                  Safe-trans d w _ _
                    (record {
                      rows =
                          consume-SafeRows w boot t w.clock (select_boot_self boot_id w.boots e) m;
                    })
                    ((tell_consumed-Keeps socket boot).from _)))
        ]

    pub handle_received-Keeps :
        (socket : ℕ) (boot_id payload_digest : String)
        → Keeps d (handle_received d socket boot_id payload_digest)
    unfolding handle_received read_boot
    handle_received-Keeps socket boot_id payload_digest =
        >>=-Keeps d (attached_boot_id-Keeps d socket) (λ attached.
          if-Keeps d (not (owns d attached boot_id))
            (send_error-Keeps d socket CloseCode.unknown_boot "This socket does not own that boot.")
            (record {
              from = λ w.
                  receive_boot-Safe socket boot_id payload_digest w (select_boot boot_id w.boots)
                    refl;
            }))

    audit_requested-Keeps :
        (boot_id : String) (items : ℕ) (row : Option BootRow)
        → Keeps d (audit_requested d boot_id items row)
    unfolding audit_requested
    audit_requested-Keeps boot_id items none = pure-Keeps d tt
    audit_requested-Keeps boot_id items (some boot) = search (reporting, g)

    insert_boot-Safe : (row : BootRow) (w : World) → RowSound d row → Safe d w (insert_boot row w).1
    unfolding insert_boot
    insert_boot-Safe row w ok = elim (Bool-cases (any (has_id row.id) w.boots)) [
      | inl h ↦ rw h (Safe-same d w w refl)
      | inr h ↦ rw h (record { rows = SafeRows-insert d w.boots row ok })
    ]

    pub get_token-Keeps : (token_id : String) → Keeps d (get_token d token_id)
    unfolding get_token
    get_token-Keeps token_id = search (keeping, g) depth 8

    pub read_environment-Keeps :
        (environment_id : String) → Keeps d (read_environment d environment_id)
    unfolding read_environment
    read_environment-Keeps environment_id = search (keeping, g) depth 8

    pub load_provenance_context-Keeps :
        (environment_id : String) (mode : ProvenanceMode)
        → Keeps d (load_provenance_context d environment_id mode)
    unfolding load_provenance_context
    load_provenance_context-Keeps environment_id mode = search (keeping, g) depth 12

    pub run_verifiers-Keeps :
        (verifiers : List ProvenanceVerifier) (input : VerifierInput)
        → Keeps d (run_verifiers d verifiers input)
    unfolding run_verifiers
    run_verifiers-Keeps [] input = pure-Keeps d []
    run_verifiers-Keeps (v ∷ verifiers) input =
        >>=-Keeps d (pause-Keeps d g)
          (λ a. >>=-Keeps d (run_verifiers-Keeps verifiers input) (λ results. pure-Keeps d _))

    insert_new_boot-Keeps :
        (identity : BootIdentity) (h : BootHello) (environment : EnvironmentRow)
        (results : List VerificationResult) (boot_id : String) (created_at : ℕ)
        → Keeps d (insert_boot (new_boot d identity h environment results boot_id created_at))
    insert_new_boot-Keeps identity h environment results boot_id created_at = record {
      from = λ w. insert_boot-Safe _ w ((_, refl), refl, refl);
    }

    open_boot-Keeps :
        (socket : ℕ) (identity : BootIdentity) (h : BootHello) (environment : EnvironmentRow)
        → Keeps d (open_boot d socket identity h environment)
    unfolding open_boot
    open_boot-Keeps socket identity h environment =
        search
          (
            reporting, load_provenance_context-Keeps, run_verifiers-Keeps, insert_new_boot-Keeps,
            read_boot-Keeps, audit_requested-Keeps, recompute_alarm-Keeps, g,
          )
          depth 40

    pub hello_environment-Keeps :
        (socket : ℕ) (identity : BootIdentity) (h : BootHello) (environment : Option EnvironmentRow)
        → Keeps d (hello_environment d socket identity h environment)
    unfolding hello_environment
    hello_environment-Keeps socket identity h none = send_error-Keeps d _ _ _
    hello_environment-Keeps socket identity h (some environment) =
        open_boot-Keeps socket identity h environment
