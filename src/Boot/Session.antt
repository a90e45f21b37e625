-- ===== src/Boot/Session.antt =====
-- Runs of one boot session of boot-session-core.ts: any interleaving of frames, of the dashboard's
-- actions and of what the rest of the system does.
use keevault.Base.{◌≡◌, refl, ℕ, String, Option, some, []}
use keevault.Protocol.Messages.{BootHello}
use keevault.Store.{EnvironmentRow}
use keevault.Boot.{BootIdentity, World, Deps}
use keevault.Boot.Table.{select_boot}
use keevault.Boot.Connection.Hello.{hello_environment}
use keevault.Boot.Connection.Resume.{handle_resume}
use keevault.Boot.Connection.Received.{handle_received}
use keevault.Boot.Connection.Safe.{
  hello_environment-Keeps, handle_resume-Keeps, handle_received-Keeps,
}
use keevault.Boot.Approval.{ApproveBootInput, CompleteInput}
use keevault.Boot.Approval.Prepare.{prepare_approval}
use keevault.Boot.Approval.Complete.{complete_approval}
use keevault.Boot.Approval.Safe.{prepare_approval-Keeps, complete_approval-Keeps}
use keevault.Boot.Admin.{DeclineBootInput, CancelBootInput, decline_boot, cancel_boot}
use keevault.Boot.Admin.Safe.{decline_boot-Keeps, cancel_boot-Keeps}
use keevault.Boot.Safe.{Safe, Sound, Guarded, Safe-same, Safe-trans}

-- One method from start to end, whether it returns or rejects, or a step of the rest of the system.
-- A hello is here from the point where it has been admitted.
pub data Step (d : Deps) : World → World → Type 0 where
  hello :
      {w : World} (socket : ℕ) (identity : BootIdentity) (h : BootHello)
      (environment : Option EnvironmentRow)
      → Step d w (hello_environment d socket identity h environment w).1
  resume :
      {w : World} (socket : ℕ) (identity : BootIdentity) (boot_id : String)
      → Step d w (handle_resume d socket identity boot_id w).1
  received :
      {w : World} (socket : ℕ) (boot_id payload_digest : String)
      → Step d w (handle_received d socket boot_id payload_digest w).1
  prepare : {w : World} (input : ApproveBootInput) → Step d w (prepare_approval d input w).1
  complete : {w : World} (input : CompleteInput) → Step d w (complete_approval d input w).1
  decline : {w : World} (input : DeclineBootInput) → Step d w (decline_boot d input w).1
  cancel : {w : World} (input : CancelBootInput) → Step d w (cancel_boot d input w).1
  other : {w w' : World} → d.others w ≡ some w' → Step d w w'

pub data Run (d : Deps) : World → World → Type 0 where
  done : {w : World} → Run d w w
  next : {u v w : World} → Step d u v → Run d v w → Run d u w

module _ (d : Deps) (g : Guarded d) where
  -- A step keeps a sound table sound, and each of its rows advances.
  pub Step-Safe : {w w' : World} → Step d w w' → Safe d w w'
  Step-Safe (hello {w} socket identity h environment) =
      (hello_environment-Keeps d g socket identity h environment).from w
  Step-Safe (resume {w} socket identity boot_id) =
      (handle_resume-Keeps d g socket identity boot_id).from w
  Step-Safe (received {w} socket boot_id payload_digest) =
      (handle_received-Keeps d g socket boot_id payload_digest).from w
  Step-Safe (prepare {w} input) = (prepare_approval-Keeps d g input).from w
  Step-Safe (complete {w} input) = (complete_approval-Keeps d g input).from w
  Step-Safe (decline {w} input) = (decline_boot-Keeps d g input).from w
  Step-Safe (cancel {w} input) = (cancel_boot-Keeps d g input).from w
  Step-Safe (other {w} {w'} e) = g w w' e

  Run-Safe : {w w' : World} → Run d w w' → Safe d w w'
  Run-Safe (done {w}) = Safe-same d w w refl
  Run-Safe (next {u} {v} {w} s r) = Safe-trans d u v w (Step-Safe s) (Run-Safe r)

  -- Every table that a run reaches from the empty one is sound.
  pub Run-Sound : {w w' : World} → w.boots ≡ [] → Run d w w' → Sound d w'.boots
  unfolding select_boot
  Run-Sound {w} {w'} e r = ((Run-Safe r).rows (λ i b h. cc)).0
