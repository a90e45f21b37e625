-- ===== src/Boot/Result.antt =====
-- The results of the administrative actions of boot-session-core.ts: `BOOT_ACTION_FAILURES`,
-- `BootActionResult` and `failure`.
use Prim.Native.String.{◌++◌ as text_append}
use keevault.Base.{String, Bool, true, false, List, [], ◌∷◌}
use keevault.Boot.{M, pure}
use keevault.Protocol.State.{BootStatus, pending, approved, delivered, consumed, declined, canceled}

pub data BootActionFailure : Type 0 where
  not_found conflict terminal expired token_invalid policy_blocked evidence_mismatch key_error
        cold_key_required release_mismatch :
      BootActionFailure

pub data Outcome (A : Type 0) : Type 0 where
  ok : A → Outcome A
  failure : BootActionFailure → (message : String) → Outcome A

-- `if (refuse) return failure(reason, message);` before the rest of a method.
unfoldable pub return_if :
    {A : Type 0} → Bool → BootActionFailure → String → M (Outcome A) → M (Outcome A)
return_if true reason message rest = pure (failure reason message)
return_if false reason message rest = rest

-- `boot.status.toLowerCase()`.
unfoldable pub status_name : BootStatus → String
status_name pending = "pending"
status_name approved = "approved"
status_name delivered = "delivered"
status_name consumed = "consumed"
status_name declined = "declined"
status_name BootStatus.expired = "expired"
status_name canceled = "canceled"

unfoldable pub already : BootStatus → String
unfolding status_name
already status = text_append "That boot is already " (text_append (status_name status) ".")

-- `Array.prototype.join`.
unfoldable pub join : String → List String → String
join separator [] = ""
join separator (x ∷ []) = x
join separator (x ∷ y ∷ rest) = text_append x (text_append separator (join separator (y ∷ rest)))
