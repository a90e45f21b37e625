-- ===== src/Boot/Table/Deadlines.antt =====
-- `#recomputeAlarm` of boot-session-core.ts with `#scheduleAlarm` of environment-session.ts: which
-- deadline the alarm is set for.
use keevault.Base.{
  ◌≡◌, refl, ℕ, ◌≤◌, Bool, true, false, Option, none, some, List, [], ◌∷◌, All, if◌then◌else◌,
  arith,
}
use keevault.Protocol.State.{BootStatus}
use keevault.Boot.{BootRow, World}
use keevault.Boot.Table.{
  is_live, deadline_of, min_deadline, earlier, schedule_alarm, recompute_alarm,
}

-- `o` is a time, and not later than `t`.
abbrev pub By : Option ℕ → ℕ → Type 0
By none t = ⊥
By (some a) t = a ≤ t

-- Every live boot with a deadline is met by `o`.
abbrev pub Covers : Option ℕ → List BootRow → Type 0
Covers o boots =
    All (λ b. (t : ℕ) → is_live b.status ≡ true → deadline_of b ≡ some t → By o t) boots

earlier-left : (a b : Option ℕ) (t : ℕ) → By a t → By (earlier a b) t
earlier-left none b t h = elim h [ ]
earlier-left (some a) none t h = h
earlier-left (some a) (some b) t h = ground arith

earlier-right : (a b : Option ℕ) (t : ℕ) → By b t → By (earlier a b) t
earlier-right none b t h = h
earlier-right (some a) none t h = elim h [ ]
earlier-right (some a) (some b) t h = ground arith

schedule-left : (at current : Option ℕ) (t : ℕ) → By at t → By (schedule_alarm at current) t
schedule-left none current t h = elim h [ ]
schedule-left (some a) none t h = h
schedule-left (some a) (some b) t h = ground arith

Covers-mono :
    (o p : Option ℕ) (boots : List BootRow)
    → ((t : ℕ) → By o t → By p t)
    → Covers o boots
    → Covers p boots
Covers-mono o p [] f h = tt
Covers-mono o p (b ∷ boots) f (h, rest) = (λ t l e. f t (h t l e), Covers-mono o p boots f rest)

cons-Covers :
    (b : BootRow) (boots : List BootRow) (o : Option ℕ) (l : Bool)
    → is_live b.status ≡ l
    → Covers o boots
    → Covers (if l then earlier (deadline_of b) o else o) (b ∷ boots)
cons-Covers b boots o true live rest = (
  λ t l e. earlier-left (deadline_of b) o t (rw e (omega arith)),
  Covers-mono _ _ boots (λ t. earlier-right (deadline_of b) o t) rest,
)
cons-Covers b boots o false ended rest = (λ t l e. elim (live-ended b.status l ended) [ ], rest)
  where
    live-ended : (s : BootStatus) → is_live s ≡ true → is_live s ≡ false → ⊥
    live-ended s l e = cc

min_deadline-Covers : (boots : List BootRow) → Covers (min_deadline boots) boots
unfolding min_deadline
min_deadline-Covers [] = tt
min_deadline-Covers (b ∷ boots) =
    cons-Covers b boots (min_deadline boots) (is_live b.status) refl (min_deadline-Covers boots)

-- After `#recomputeAlarm` an alarm is set, at or before the deadline of every boot that is live and
-- has one.
pub recompute_alarm-Covers : (w : World) → Covers ((recompute_alarm w).1).alarm w.boots
unfolding recompute_alarm
recompute_alarm-Covers w =
    Covers-mono _ _ w.boots (λ t. schedule-left (min_deadline w.boots) w.alarm t)
      (min_deadline-Covers w.boots)
