-- ===== src/Protocol/State/Tests.antt =====
-- The theorems on packages/protocol/src/state.ts at concrete statuses.
use keevault.Base.{◌≡◌, refl, ◌↔◌, true}
use keevault.Protocol.State.{
  BootEvent, pending, approved, delivered, consumed, canceled, approve, deliver, redeliver, consume,
  terminal, refused, is_terminal, transition,
}
use keevault.Protocol.State.Reach.{
  Reach, here, step, Visits, is_terminal_iff, Reach-terminal, consumed-Visits,
}

-- Approved, delivered twice and acknowledged.
life : Reach pending consumed
unfolding transition
life = step approve refl (step deliver refl (step redeliver refl (step consume refl here)))

consumed-Visits_example : Visits approved life × Visits delivered life
consumed-Visits_example = consumed-Visits life

is_terminal_iff_example :
    (is_terminal canceled ≡ true) ↔ ((e : BootEvent) → transition canceled e ≡ refused terminal)
is_terminal_iff_example = is_terminal_iff canceled

Reach-terminal_example : canceled ≡ canceled
unfolding is_terminal
Reach-terminal_example = Reach-terminal {s = canceled} {t = canceled} refl here
