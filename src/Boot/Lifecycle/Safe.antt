-- ===== src/Boot/Lifecycle/Safe.antt =====
-- How delivery, expiry and cancellation of boot-session-core.ts act on the table `boots` when they
-- start from the row as it is.
use mathlib.Core.Path.{subst}
use keevault.Base.{
  ◌≡◌, refl, ◌≢◌, inl, inr, ℕ, String, Bool, true, false, Option, none, some, List, [], ◌∷◌, arith,
  ◌||◌, not, Bool-cases, if◌then◌else◌,
}
use keevault.Protocol.State.{
  BootStatus, pending, approved, delivered, consumed, declined, expired, canceled, BootEvent,
  deliver, redeliver, decline, expire_pending, expire_payload, cancel, moved, refused,
  TransitionResult, is_terminal, transition,
}
use keevault.Protocol.State.Reach.{Reach_one}
use keevault.Protocol.Messages.{ServerMessage}
use keevault.Boot.{BootRow, World, Deps, M, ◌>>=◌, ◌>>◌}
use keevault.Boot.Table.{
  select_boot, update_boots, read_boot, update_boot, apply, apply_result, deadline_of,
  recompute_alarm,
}
use keevault.Boot.Report.{send_all}
use keevault.Boot.Report.Safe.{
  send_all-Keeps, audit-Keeps, mirror-Keeps, send_terminal-Keeps, for_boot-Keeps, reporting,
}
use keevault.Boot.Lifecycle.{
  due, is_approved, expiry_reason, expiry_event, ended, tell_row, tell_ended, record_delivery,
  deliver_moved, deliver_payload, deliver_to, expire, expire_if_due, cancel_one,
}
use keevault.Boot.Safe.{
  Safe, SafeRows, Guarded, RowSound, RowSoundAt, Safe-same, Safe-trans, SafeRows-update,
  SafeRows-settle, Safe-then, Keeps, pure-Keeps, >>=-Keeps, keeping,
}

-- The statuses in which a boot ends without having been used.
abbrev pub is_ending : BootStatus → Bool
is_ending declined = true
is_ending expired = true
is_ending canceled = true
is_ending _ = false

-- The events that end a boot so.
abbrev pub ends_by : BootEvent → Bool
ends_by decline = true
ends_by expire_pending = true
ends_by expire_payload = true
ends_by cancel = true
ends_by _ = false

pub ends_by-is_ending :
    (s t : BootStatus) (e : BootEvent)
    → ends_by e ≡ true
    → transition s e ≡ moved t
    → is_ending t ≡ true
unfolding transition
ends_by-is_ending s t e h m = ground arith

expiry_ends : (s : BootStatus) → ends_by (expiry_event s) ≡ true
expiry_ends s = ground arith

module _ (d : Deps) where
  -- `#apply` either refuses, or moves the row that it was given and goes on.
  pub apply_cases :
      {B : Type 0} (boot : BootRow) (e : BootEvent) (k : Option BootStatus → M B) (w : World)
      → Safe d w (k none w).1
      → ((t : BootStatus)
          → transition boot.status e ≡ moved t
          → Safe d w
              (k (some t) (record w {
                boots = update_boots boot.id (λ b. record b { status = t }) w.boots;
              })).1)
      → Safe d w ((apply boot e >>= k) w).1
  unfolding apply update_boot
  apply_cases boot e k w refuse move = go (transition boot.status e) refl
    where
      go :
          (r : TransitionResult)
          → transition boot.status e ≡ r
          → Safe d w ((apply_result boot r >>= k) w).1
      go (refused reason) m = refuse
      go (moved t) m = move t m

  deliver_keeps :
      (b : BootRow) (s t : BootStatus)
      → transition s (if is_approved s then deliver else redeliver) ≡ moved t
      → RowSoundAt d s b
      → RowSoundAt d t (record b { status = t })
  unfolding transition
  deliver_keeps b approved t m c =
      subst (λ u. RowSoundAt d u (record b { status = u })) {x = delivered} (cc) c
  deliver_keeps b delivered t m c =
      subst (λ u. RowSoundAt d u (record b { status = u })) {x = delivered} (cc) c
  deliver_keeps b pending t m c = cc
  deliver_keeps b consumed t m c = cc
  deliver_keeps b declined t m c = cc
  deliver_keeps b expired t m c = cc
  deliver_keeps b canceled t m c = cc

  delivers_only_ready :
      (s t : BootStatus)
      → transition s (if is_approved s then deliver else redeliver) ≡ moved t
      → s ≢ pending
  unfolding transition
  delivers_only_ready s t m p = ground arith

  ended_keeps :
      (reason : String) (b : BootRow) (t : BootStatus)
      → is_ending t ≡ true
      → RowSound d (ended reason (record b { status = t }))
  ended_keeps reason b declined h = (refl, (reason, refl))
  ended_keeps reason b expired h = (refl, (reason, refl))
  ended_keeps reason b canceled h = (refl, (reason, refl))
  ended_keeps reason b pending h = cc
  ended_keeps reason b approved h = cc
  ended_keeps reason b delivered h = cc
  ended_keeps reason b consumed h = cc

  -- The row moves to an end, its payload is cleared and its reason recorded.
  pub end-SafeRows :
      (boots : List BootRow) (b : BootRow) (e : BootEvent) (t : BootStatus) (reason : String)
      → select_boot b.id boots ≡ some b
      → transition b.status e ≡ moved t
      → is_ending t ≡ true
      → SafeRows d boots (
          update_boots b.id (ended reason) (update_boots b.id (λ c. record c { status = t }) boots))
  end-SafeRows boots b e t reason found m ending =
      SafeRows-settle d boots b e t (ended reason) found m (λ c. (refl, refl)) (λ n. refl)
        (λ s. ended_keeps reason b t ending) (λ c. refl)

  tell_row-Keeps : (boot_id : String) (row : Option BootRow) → Keeps d (tell_row boot_id row)
  unfolding tell_row
  tell_row-Keeps boot_id none = pure-Keeps d tt
  tell_row-Keeps boot_id (some row) =
      >>=-Keeps d (for_boot-Keeps d boot_id) (λ sockets. send_terminal-Keeps d row sockets)

  pub read_boot-Keeps : (boot_id : String) → Keeps d (read_boot boot_id)
  unfolding read_boot
  read_boot-Keeps boot_id = search keeping

  pub tell_ended-Keeps : (boot_id : String) → Keeps d (tell_ended boot_id)
  unfolding tell_ended
  tell_ended-Keeps boot_id =
      >>=-Keeps d (read_boot-Keeps boot_id) (λ row. tell_row-Keeps boot_id row)

  pub recompute_alarm-Keeps : Keeps d recompute_alarm
  unfolding recompute_alarm
  recompute_alarm-Keeps = record { from = λ w. Safe-same d w _ refl }

  module _ (g : Guarded d) where
    record_delivery-Keeps : (boot : BootRow) (first : Bool) → Keeps d (record_delivery d boot first)
    unfolding record_delivery
    record_delivery-Keeps boot true =
        >>=-Keeps d (mirror-Keeps d g _ _ _) (λ a. audit-Keeps d g _ _ _ _ _)
    record_delivery-Keeps boot false = audit-Keeps d g _ _ _ _ _

    deliver_payload-Safe :
        (boot : BootRow) (sockets : List ℕ) (payload : Option ServerMessage) (w : World)
        → select_boot boot.id w.boots ≡ some boot
        → Safe d w (deliver_payload d boot sockets payload w).1
    unfolding deliver_moved
    deliver_payload-Safe boot sockets none w found = Safe-same d w w refl
    deliver_payload-Safe boot [] (some payload) w found = Safe-same d w w refl
    deliver_payload-Safe boot (s ∷ sockets) (some payload) w found =
        apply_cases boot _ _ w (Safe-same d w w refl) λ t m.
          Safe-trans d w _ _
            (record {
              rows =
                  SafeRows-update d w.boots boot (λ c. record c { status = t }) found (λ c. refl)
                    (deliver_keeps boot boot.status t m)
                    (record { path = Reach_one _ m; same_keys = refl; same_grant = λ n. refl });
            })
            (Safe-then d (send_all payload (s ∷ sockets)) _ _
              ((send_all-Keeps d payload (s ∷ sockets)).from _) (λ a. record_delivery-Keeps boot _))

    pub deliver_to-Safe :
        (boot : BootRow) (sockets : List ℕ) (w : World)
        → select_boot boot.id w.boots ≡ some boot
        → Safe d w (deliver_to d boot sockets w).1
    unfolding deliver_to
    deliver_to-Safe boot sockets w found = deliver_payload-Safe boot sockets _ w found

    -- An ending: the event moves the row, which is closed in the same step, and the rest follows.
    pub end_boot-Safe :
        {A : Type 0} (boot : BootRow) (e : BootEvent) (reason : String)
        (k : Option BootStatus → M A) (rest : M A) (w : World)
        → ends_by e ≡ true
        → select_boot boot.id w.boots ≡ some boot
        → Keeps d (k none)
        → ((t : BootStatus) → k (some t) ≡ (update_boot boot.id (ended reason) >> rest))
        → Keeps d rest
        → Safe d w ((apply boot e >>= k) w).1
    unfolding update_boot
    end_boot-Safe boot e reason k rest w h found refuse shape after =
        apply_cases boot e k w (refuse.from w) λ t m. rw (shape t) (
          Safe-trans d w _ _
            (record {
              rows =
                  end-SafeRows w.boots boot e t reason found m
                    (ends_by-is_ending boot.status t e h m);
            })
            (after.from _))

    pub expire-Safe :
        (boot : BootRow) (e : BootEvent) (w : World)
        → ends_by e ≡ true
        → select_boot boot.id w.boots ≡ some boot
        → Safe d w (expire d boot e w).1
    unfolding expire
    expire-Safe boot e w h found =
        end_boot-Safe boot e (expiry_reason e) _ _ w h found (pure-Keeps d tt) (λ t. refl)
          (search (reporting, tell_ended-Keeps, g) depth 8)

    pub cancel_one-Safe :
        (boot : BootRow) (reason : String) (actor_id : Option String) (w : World)
        → select_boot boot.id w.boots ≡ some boot
        → Safe d w (cancel_one d boot reason actor_id w).1
    unfolding cancel_one
    cancel_one-Safe boot reason actor_id w found =
        end_boot-Safe boot cancel reason _ _ w refl found (pure-Keeps d false) (λ t. refl)
          (search (reporting, tell_ended-Keeps, g) depth 8)

    pub expire_if_due-Safe :
        (boot : BootRow) (w : World)
        → select_boot boot.id w.boots ≡ some boot
        → Safe d w (expire_if_due d boot w).1
    unfolding expire_if_due
    expire_if_due-Safe boot w found =
        elim (Bool-cases (is_terminal boot.status || not (due (deadline_of boot) w.clock))) [
          | inl h ↦ rw h (Safe-same d w w refl)
          | inr h ↦ rw h (
              Safe-then d (expire d boot (expiry_event boot.status)) _ w
                (expire-Safe boot (expiry_event boot.status) w (expiry_ends boot.status) found)
                (λ a. search (keeping, recompute_alarm-Keeps, read_boot-Keeps) depth 8))
        ]
