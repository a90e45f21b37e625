-- ===== src/Boot/Admin/Safe.antt =====
-- How decline and cancel of boot-session-core.ts act on the table `boots`.
use keevault.Base.{◌≡◌, refl, Option, none, some}
use keevault.Protocol.State.{decline}
use keevault.Boot.{BootRow, World, Deps}
use keevault.Boot.Table.{select_boot, read_boot}
use keevault.Boot.Table.Laws.{select_boot_self}
use keevault.Boot.Report.Safe.{reporting}
use keevault.Boot.Lifecycle.{cancel_one}
use keevault.Boot.Lifecycle.Safe.{
  end_boot-Safe, cancel_one-Safe, tell_ended-Keeps, recompute_alarm-Keeps,
}
use keevault.Boot.Admin.{
  DeclineBootInput, CancelBootInput, decline_row, decline_boot, cancel_row, cancel_boot,
}
use keevault.Boot.Safe.{Safe, Guarded, Safe-same, Safe-then, Keeps, pure-Keeps, keeping}

module _ (d : Deps) (g : Guarded d) where
  decline_row-Safe :
      (input : DeclineBootInput) (w : World) (row : Option BootRow)
      → select_boot input.boot_id w.boots ≡ row
      → Safe d w (decline_row d input row w).1
  unfolding decline_row
  decline_row-Safe input w none e = Safe-same d w w refl
  decline_row-Safe input w (some boot) e =
      end_boot-Safe d g boot decline input.reason _ _ w refl
        (select_boot_self input.boot_id w.boots e) (pure-Keeps d _) (λ t. refl)
        (search (reporting, tell_ended-Keeps, recompute_alarm-Keeps, g) depth 10)

  pub decline_boot-Keeps : (input : DeclineBootInput) → Keeps d (decline_boot d input)
  unfolding decline_boot read_boot
  decline_boot-Keeps input = record {
    from = λ w. decline_row-Safe input w (select_boot input.boot_id w.boots) refl;
  }

  cancel_row-Safe :
      (input : CancelBootInput) (w : World) (row : Option BootRow)
      → select_boot input.boot_id w.boots ≡ row
      → Safe d w (cancel_row d input row w).1
  unfolding cancel_row
  cancel_row-Safe input w none e = Safe-same d w w refl
  cancel_row-Safe input w (some boot) e =
      Safe-then d (cancel_one d boot input.reason (some input.actor_user_id)) _ w
        (cancel_one-Safe d g boot input.reason (some input.actor_user_id) w
          (select_boot_self input.boot_id w.boots e))
        (λ done. search (keeping, recompute_alarm-Keeps) depth 8)

  pub cancel_boot-Keeps : (input : CancelBootInput) → Keeps d (cancel_boot d input)
  unfolding cancel_boot read_boot
  cancel_boot-Keeps input = record {
    from = λ w. cancel_row-Safe input w (select_boot input.boot_id w.boots) refl;
  }
