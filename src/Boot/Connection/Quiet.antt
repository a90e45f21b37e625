-- ===== src/Boot/Connection/Quiet.antt =====
-- `#handleChallengeResponse` of boot-session-core.ts, which reads the row once, before several
-- awaits, and the hypothesis that nobody else changes a row meanwhile.
use mathlib.Core.Path.{subst}
use mathlib.Core.Option.{some-injective}
use keevault.Base.{
  ◌≡◌, refl, sym, ◌∙◌, ap, ℕ, String, Bool, true, false, Option, none, some, [], ◌∷◌, not,
  Bool-cases, if◌then◌else◌, inl, inr, str_eq, leb,
}
use keevault.Protocol.State.{is_terminal}
use keevault.Protocol.Messages.{CloseCode}
use keevault.Boot.{
  BootRow, ChallengeRow, BootIdentity, World, Deps, pure, pause, settle, ◌>>=◌, ◌>>◌,
}
use keevault.Boot.Table.{
  select_boot, read_boot, is_pending, recompute_alarm, delete_challenges, read_challenge,
}
use keevault.Boot.Table.Laws.{select_boot_self}
use keevault.Boot.Report.{send, send_error, attach, audit}
use keevault.Boot.Report.Safe.{reporting, send_error-Keeps, audit-Keeps}
use keevault.Boot.Lifecycle.{expire, expiry_event, row_or, expire_if_due, cancel_one}
use keevault.Boot.Lifecycle.Safe.{
  expire_if_due-Safe, deliver_to-Safe, cancel_one-Safe, recompute_alarm-Keeps,
}
use keevault.Boot.Connection.{get_token}
use keevault.Boot.Connection.Challenge.{
  token_still_valid, send_resumed, attach_resumed, reattach, check_token, check_challenge,
  answer_boot, handle_challenge_response,
}
use keevault.Boot.Connection.Safe.{send_terminal_once-Keeps, get_token-Keeps}
use keevault.Boot.Approval.Snapshot.{bind-inv}
use keevault.Boot.Quiet.{Quiet, Quiet-Guarded, Still, after, pause-Still, still, audit-Still}
use keevault.Boot.Safe.{
  Safe, Sound, Evolves, Guarded, Safe-same, Safe-trans, Safe-bind, Safe-then, Keeps, pause-Keeps,
  keeping,
}

module _ (d : Deps) (q : Quiet d) where
  token_still_valid-Still : (token_id : String) → Still d (token_still_valid d token_id)
  unfolding token_still_valid get_token
  token_still_valid-Still token_id = search (still, q) depth 12

  g : Guarded d
  g = Quiet-Guarded d q

  -- The row that `#expireIfDue` returns is the one in the table.
  expire_if_due-found :
      (boot : BootRow) (w w' : World) (current : BootRow)
      → select_boot boot.id w.boots ≡ some boot
      → Evolves w.boots w'.boots
      → expire_if_due d boot w ≡ (some current, w')
      → select_boot current.id w'.boots ≡ some current
  unfolding expire_if_due read_boot
  expire_if_due-found boot w w' current found evolves h = go _ h
    where
      go :
          (early : Bool)
          → (if early then pure boot else do
            expire d boot (expiry_event boot.status)
            recompute_alarm
            row ← read_boot boot.id
            pure (row_or boot row))
              w
            ≡ (some current, w')
          → select_boot current.id w'.boots ≡ some current
      go true k = cc
      go false k =
          let (a, u, e, l) = bind-inv (expire d boot (expiry_event boot.status)) _ w w' k in
          let (b, v, e', r) = bind-inv recompute_alarm _ u w' l in
          let (c, there, advance) = evolves boot.id boot found in
          let same : v.boots ≡ w'.boots = ap (λ r. r.1.boots) r in
          let row : c ≡ current =
            sym (ap (row_or boot) (ap (select_boot boot.id) same ∙ there))
            ∙ some-injective _ _ (ap (λ r. r.0) r) in
          subst (λ x. select_boot x.id w'.boots ≡ some x) row
            (select_boot_self boot.id w'.boots there)

  -- A part of a method may take the table to be sound where the method starts.
  Safe-given : (w w' : World) → (Sound d w.boots → Safe d w w') → Safe d w w'
  Safe-given w w' f = record { rows = λ s. (f s).rows s }

  send_resumed-Safe :
      (socket : ℕ) (boot_id : String) (current : BootRow) (w : World)
      → select_boot current.id w.boots ≡ some current
      → Safe d w (send_resumed d socket boot_id current w).1
  unfolding send_resumed send
  send_resumed-Safe socket boot_id current w found = elim (Bool-cases (is_pending current.status)) [
    | inl p ↦ rw p (Safe-same d w _ refl)
    | inr p ↦ rw p (record { rows = (deliver_to-Safe d g current (socket ∷ []) _ found).rows })
  ]

  attach_resumed-Safe :
      (socket : ℕ) (boot_id : String) (current : BootRow) (w : World)
      → select_boot current.id w.boots ≡ some current
      → Safe d w (attach_resumed d socket boot_id current w).1
  unfolding attach_resumed attach
  attach_resumed-Safe socket boot_id current w found = Safe-trans d w _ _ (Safe-same d w _ refl) (
      Safe-bind d (audit d "boot.reconnected" current "boot" (some boot_id) []) _ _
        ((audit-Keeps d g "boot.reconnected" current "boot" (some boot_id) []).from _)
        (λ a v e. send_resumed-Safe socket boot_id current v (
          ap (select_boot current.id)
            (after d (audit-Still d q "boot.reconnected" current "boot" (some boot_id) []) e)
          ∙ found)))

  reattach-Safe :
      (socket : ℕ) (boot_id : String) (boot : BootRow) (w : World)
      → select_boot boot.id w.boots ≡ some boot
      → Safe d w (reattach d socket boot_id boot w).1
  unfolding reattach
  reattach-Safe socket boot_id boot w found = Safe-given w _ λ sound.
      Safe-bind d (expire_if_due d boot) _ w (expire_if_due-Safe d g boot w found) (λ current v e.
        elim (Bool-cases (is_terminal current.status)) [
          | inl t ↦ rw t ((send_terminal_once-Keeps d current socket).from v)
          | inr t ↦ rw t (
              attach_resumed-Safe socket boot_id current v (
                expire_if_due-found boot w v current found
                  (subst (λ r. Evolves w.boots r.1.boots) e
                    ((expire_if_due-Safe d g boot w found).rows sound).1)
                  e))
        ])

  token_still_valid-Keeps : (token_id : String) → Keeps d (token_still_valid d token_id)
  unfolding token_still_valid
  token_still_valid-Keeps token_id = search (keeping, get_token-Keeps, g) depth 8

  check_valid-Safe :
      (socket : ℕ) (boot_id : String) (boot : BootRow) (valid : Bool) (v : World)
      → select_boot boot.id v.boots ≡ some boot
      → Safe d v
          ((if valid then reattach d socket boot_id boot else do
            done ← cancel_one d boot "bootstrap token revoked" none
            recompute_alarm
            send_error socket CloseCode.forbidden
                "The bootstrap token for that boot is no longer valid.")
            v).1
  check_valid-Safe socket boot_id boot true v found = reattach-Safe socket boot_id boot v found
  check_valid-Safe socket boot_id boot false v found =
      Safe-then d (cancel_one d boot "bootstrap token revoked" none) _ v
        (cancel_one-Safe d g boot "bootstrap token revoked" none v found)
        (λ done. search (reporting, recompute_alarm-Keeps) depth 8)

  check_token-Safe :
      (socket : ℕ) (identity : BootIdentity) (boot_id : String) (boot : BootRow) (w : World)
      → select_boot boot.id w.boots ≡ some boot
      → Safe d w (check_token d socket identity boot_id boot w).1
  unfolding check_token
  check_token-Safe socket identity boot_id boot w found =
      elim (Bool-cases (not (str_eq identity.token_id boot.token_id))) [
        | inl h ↦ rw h ((send_error-Keeps d _ _ _).from w)
        | inr h ↦ rw h (
            Safe-bind d (token_still_valid d boot.token_id) _ w
              ((token_still_valid-Keeps boot.token_id).from w)
              (λ valid v e. check_valid-Safe socket boot_id boot valid v (
                ap (select_boot boot.id) (after d (token_still_valid-Still boot.token_id) e)
                ∙ found)))
      ]

  -- After the verification, also where it throws.
  verdict-Safe :
      (socket : ℕ) (identity : BootIdentity) (boot_id : String) (boot : BootRow) (u : World)
      (verdict : Option Bool)
      → select_boot boot.id u.boots ≡ some boot
      → Safe d u
          ((do
            valid ← settle verdict
            if not valid
                then send_error socket CloseCode.protocol_error "The resume proof did not verify."
                else check_token d socket identity boot_id boot)
            u).1
  verdict-Safe socket identity boot_id boot u none found = Safe-same d u u refl
  verdict-Safe socket identity boot_id boot u (some true) found =
      check_token-Safe socket identity boot_id boot u found
  verdict-Safe socket identity boot_id boot u (some false) found = (send_error-Keeps d _ _ _).from u

  check_challenge-Safe :
      (socket : ℕ) (identity : BootIdentity) (boot_id signature : String) (boot : BootRow)
      (challenge : Option ChallengeRow) (w : World)
      → select_boot boot.id w.boots ≡ some boot
      → Safe d w (check_challenge d socket identity boot_id signature boot challenge w).1
  unfolding check_challenge delete_challenges
  check_challenge-Safe socket identity boot_id signature boot none w found =
      (send_error-Keeps d _ _ _).from w
  check_challenge-Safe socket identity boot_id signature boot (some c) w found =
      Safe-trans d w _ _ (Safe-same d w _ refl) (verify-Safe (leb c.expires_at w.clock) _ found)
    where
      verify-Safe :
          (late : Bool) (v : World)
          → select_boot boot.id v.boots ≡ some boot
          → Safe d v
              ((if late
                  then send_error socket CloseCode.protocol_error "The challenge expired."
                  else do
                    pause d
                    valid ← settle (d.verify_resume boot.signing_pk boot_id c.challenge signature)
                    if not valid
                        then send_error socket CloseCode.protocol_error
                            "The resume proof did not verify."
                        else check_token d socket identity boot_id boot)
                v).1
      verify-Safe true v found = (send_error-Keeps d _ _ _).from v
      verify-Safe false v found = Safe-bind d (pause d) _ v ((pause-Keeps d g).from v) (λ a u e.
          verdict-Safe socket identity boot_id boot u
            (d.verify_resume boot.signing_pk boot_id c.challenge signature)
            (ap (select_boot boot.id) (after d (pause-Still d q) e) ∙ found))

  answer_boot-Safe :
      (socket : ℕ) (identity : BootIdentity) (boot_id signature : String) (w : World)
      (row : Option BootRow)
      → select_boot boot_id w.boots ≡ row
      → Safe d w (answer_boot d socket identity boot_id signature row w).1
  unfolding answer_boot read_challenge
  answer_boot-Safe socket identity boot_id signature w none e = (send_error-Keeps d _ _ _).from w
  answer_boot-Safe socket identity boot_id signature w (some boot) e =
      check_challenge-Safe socket identity boot_id signature boot _ w
        (select_boot_self boot_id w.boots e)

  -- While nobody else changes a row, the answer to a challenge keeps a sound table sound, and each
  -- of its rows advances.
  pub handle_challenge_response-Safe :
      (socket : ℕ) (identity : BootIdentity) (boot_id signature : String) (w : World)
      → Safe d w (handle_challenge_response d socket identity boot_id signature w).1
  unfolding handle_challenge_response read_boot
  handle_challenge_response-Safe socket identity boot_id signature w =
      answer_boot-Safe socket identity boot_id signature w (select_boot boot_id w.boots) refl
