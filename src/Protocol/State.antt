-- ===== src/Protocol/State.antt =====
-- The boot state machine of packages/protocol/src/state.ts.
pub mod Reach
mod Tests
use keevault.Base.{Bool, true, false, List, [], ◌∷◌}

-- `BOOT_STATUSES`.
pub data BootStatus : Type 0 where
  pending approved delivered consumed declined expired canceled : BootStatus

-- `BOOT_EVENTS`.
pub data BootEvent : Type 0 where
  approve decline expire_pending cancel deliver redeliver consume expire_payload : BootEvent

-- `TransitionFailureReason` and `TransitionResult`.
pub data TransitionFailureReason : Type 0 where
  conflict terminal : TransitionFailureReason

pub data TransitionResult : Type 0 where
  moved : BootStatus → TransitionResult
  refused : TransitionFailureReason → TransitionResult

-- The set `TERMINAL_STATUSES` as its membership test.
unfoldable pub is_terminal : BootStatus → Bool
is_terminal consumed = true
is_terminal declined = true
is_terminal expired = true
is_terminal canceled = true
is_terminal _ = false

abbrev failure_reason : Bool → TransitionFailureReason
failure_reason true = terminal
failure_reason false = conflict

-- The table `TRANSITIONS` and the lookup in it, row by row.
unfoldable pub transition : BootStatus → BootEvent → TransitionResult
unfolding is_terminal
transition pending approve = moved approved
transition pending decline = moved declined
transition pending expire_pending = moved expired
transition pending cancel = moved canceled
transition approved deliver = moved delivered
transition approved cancel = moved canceled
transition approved expire_payload = moved expired
transition delivered redeliver = moved delivered
transition delivered consume = moved consumed
transition delivered expire_payload = moved expired
transition from event = refused (failure_reason (is_terminal from))
