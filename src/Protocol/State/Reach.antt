-- ===== src/Protocol/State/Reach.antt =====
-- Which status a boot of packages/protocol/src/state.ts can reach from which, by any events.
use keevault.Base.{◌≡◌, refl, sym, ◌↔◌, ◌⊎◌, inl, inr, true, false, arith}
use keevault.Protocol.State.{
  BootStatus, BootEvent, pending, approved, delivered, consumed, approve, deliver, consume,
  terminal, moved, refused, is_terminal, transition,
}

pub data Reach : BootStatus → BootStatus → Type 0 where
  here : {s : BootStatus} → Reach s s
  step : {s t u : BootStatus} (e : BootEvent) → transition s e ≡ moved t → Reach t u → Reach s u

pub Reach-trans : {s t u : BootStatus} → Reach s t → Reach t u → Reach s u
Reach-trans here r = r
Reach-trans (step e h q) r = step e h (Reach-trans q r)

pub Reach_one : {s t : BootStatus} (e : BootEvent) → transition s e ≡ moved t → Reach s t
Reach_one e h = step e h here

refused_of_terminal :
    (s : BootStatus) (e : BootEvent) → is_terminal s ≡ true → transition s e ≡ refused terminal
unfolding transition is_terminal
refused_of_terminal s e h = ground arith

terminal_of_refused :
    (s : BootStatus) → ((e : BootEvent) → transition s e ≡ refused terminal) → is_terminal s ≡ true
unfolding transition is_terminal
terminal_of_refused pending h = cc (h approve)
terminal_of_refused approved h = cc (h deliver)
terminal_of_refused delivered h = cc (h consume)
terminal_of_refused _ h = refl

-- A status is terminal exactly when every event is refused in it as terminal.
pub is_terminal_iff :
    (s : BootStatus)
    → (is_terminal s ≡ true) ↔ ((e : BootEvent) → transition s e ≡ refused terminal)
is_terminal_iff s = (λ h e. refused_of_terminal s e h, terminal_of_refused s)

moved_ne_terminal :
    (s : BootStatus) (e : BootEvent) {t : BootStatus}
    → transition s e ≡ moved t
    → is_terminal s ≡ false
unfolding transition is_terminal
moved_ne_terminal s e h = ground arith

-- No sequence of events leaves a terminal status.
pub Reach-terminal : {s t : BootStatus} → is_terminal s ≡ true → Reach s t → t ≡ s
Reach-terminal h here = refl
Reach-terminal h (step {s} e m r) = cc (moved_ne_terminal s e m)

-- The path passes through a status.
abbrev pub Visits : BootStatus → {s t : BootStatus} → Reach s t → Type 0
Visits m (here {s}) = m ≡ s
Visits m (step {s} e h r) = (m ≡ s) ⊎ Visits m r

before_consumed : (s : BootStatus) (e : BootEvent) → transition s e ≡ moved consumed → delivered ≡ s
unfolding transition is_terminal
before_consumed s e h = ground arith

before_delivered :
    (s : BootStatus) (e : BootEvent)
    → transition s e ≡ moved delivered
    → (approved ≡ s) ⊎ (s ≡ delivered)
unfolding transition is_terminal
before_delivered s e h = ground arith

Visits-delivered : {s : BootStatus} (r : Reach s consumed) → (s ≡ consumed) ⊎ Visits delivered r
Visits-delivered here = inl refl
Visits-delivered (step {s} e h r) = elim (Visits-delivered r) [
  | inl last ↦ inr (inl (before_consumed s e (rw last at h)))
  | inr v ↦ inr (inr v)
]

abbrev Late : BootStatus → Type 0
Late s = (s ≡ delivered) ⊎ (s ≡ consumed)

before-Late :
    (s t : BootStatus) (e : BootEvent) → transition s e ≡ moved t → Late t → (approved ≡ s) ⊎ Late s
before-Late s t e h (inl d) = elim (before_delivered s e (rw d at h)) [
  | inl a ↦ inl a
  | inr d' ↦ inr (inl d')
]
before-Late s t e h (inr c) = inr (inl (sym (before_consumed s e (rw c at h))))

Visits-approved : {s t : BootStatus} (r : Reach s t) → Late t → Late s ⊎ Visits approved r
Visits-approved here l = inl l
Visits-approved (step {s} {t} e h r) l = elim (Visits-approved r l) [
  | inl l' ↦ elim (before-Late s t e h l') [ inl a ↦ inr (inl a) | inr m ↦ inl m ]
  | inr v ↦ inr (inr v)
]

-- A boot that goes from PENDING to CONSUMED has been APPROVED and DELIVERED on the way, whatever
-- the events.
pub consumed-Visits : (r : Reach pending consumed) → Visits approved r × Visits delivered r
consumed-Visits r = (
  elim (Visits-approved r (inr refl)) [ inl l ↦ elim l [ inl a ↦ cc | inr b ↦ cc ] | inr v ↦ v ],
  elim (Visits-delivered r) [ inl e ↦ cc | inr v ↦ v ],
)
