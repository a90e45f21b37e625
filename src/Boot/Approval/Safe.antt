-- ===== src/Boot/Approval/Safe.antt =====
-- How `prepareApproval` and `completeApproval` of boot-session-core.ts act on the table `boots`.
use mathlib.Core.Path.{subst}
use keevault.Base.{
  ◌≡◌, refl, sym, ℕ, String, Bool, true, false, Option, none, some, List, not, Bool-cases,
  if◌then◌else◌, inl, inr, arith, is_empty, any, str_eq,
}
use keevault.Protocol.State.{
  BootStatus, pending, approved, expire_pending, approve, moved, transition,
}
use keevault.Protocol.Messages.{ServerMessage}
use keevault.Provenance.{VerificationResult, PolicyEvaluation}
use keevault.Provenance.Policy.{evaluate_policy}
use keevault.Store.{EnvironmentRow, BootstrapTokenRow}
use keevault.Boot.{
  BootRow, PreparedBootApproval, ApprovalContextRow, World, Deps, M, pure, ◌>>=◌, ◌>>◌,
}
use keevault.Boot.Table.{
  is_pending, select_boot, update_boots, read_boot, update_boot, apply, recompute_alarm,
  delete_expired_contexts, delete_contexts_of, insert_context, read_context,
}
use keevault.Boot.Table.Laws.{select_boot-id, select_boot_self}
use keevault.Boot.Report.Safe.{reporting}
use keevault.Boot.Lifecycle.{expire}
use keevault.Boot.Lifecycle.Safe.{
  apply_cases, expire-Safe, deliver_to-Safe, recompute_alarm-Keeps, read_boot-Keeps,
}
use keevault.Boot.Connection.Safe.{
  get_token-Keeps, read_environment-Keeps, load_provenance_context-Keeps, run_verifiers-Keeps,
}
use keevault.Boot.Connection.{get_token}
use keevault.Boot.Result.{Outcome, ok, failure, BootActionFailure, return_if}
use keevault.Boot.Approval.{ApproveBootInput, CompleteInput, ApprovalState}
use keevault.Boot.Approval.State.{
  snapshot, check_evidence, check_environment, check_token, expire_overdue, check_boot,
  approval_state,
}
use keevault.Boot.Approval.Prepare.{store_context, prepare_state, prepare_approval}
use keevault.Boot.Approval.Complete.{
  granted, deliver_stored, approved_rest, status_or, approve_moved, approve_current, release,
  check_context, complete_state, complete_approval,
}
use keevault.Boot.Safe.{
  Safe, SafeRows, Guarded, RowSound, SafeRows-settle, Safe-same, Safe-trans, Safe-then, Keeps,
  pure-Keeps, >>=-Keeps, keeping,
}

waits : (s : BootStatus) → not (is_pending s) ≡ false → s ≡ pending
waits s h = ground arith

approve-approved : (s t : BootStatus) → transition s approve ≡ moved t → t ≡ approved
unfolding transition
approve-approved s t m = ground arith

module _ (d : Deps) where
  -- The approval of a PENDING row stores the payload, its digest and both times at once.
  grant-SafeRows :
      (boots : List BootRow) (boot_id : String) (b : BootRow) (t : BootStatus) (at : ℕ)
      (request : PreparedBootApproval) (payload : ServerMessage) (results : List VerificationResult)
      → select_boot b.id boots ≡ some b
      → b.status ≡ pending
      → transition b.status approve ≡ moved t
      → b.id ≡ boot_id
      → SafeRows d boots (
          update_boots boot_id
            (granted d at request payload (d.digest_frame payload) results)
            (update_boots b.id (λ c. record c { status = t }) boots))
  grant-SafeRows boots boot_id b t at request payload results found p m same = rw (← same) (
      SafeRows-settle d boots b approve t
        (granted d at request payload (d.digest_frame payload) results) found m (λ c. (refl, refl))
        (λ n. elim (n p) [ ])
        (λ s.
          subst
            (λ u. RowSound d (
              granted d at request payload (d.digest_frame payload) results
                (record b { status = u })))
            (sym (approve-approved b.status t m))
            (payload, refl, refl, (request.payload_expires_at, refl), (at, refl)))
        (λ c. refl))

  delete_expired_contexts-Keeps : (now : ℕ) → Keeps d (delete_expired_contexts now)
  unfolding delete_expired_contexts
  delete_expired_contexts-Keeps now = record { from = λ w. Safe-same d w _ refl }

  delete_contexts_of-Keeps : (boot_id : String) → Keeps d (delete_contexts_of boot_id)
  unfolding delete_contexts_of
  delete_contexts_of-Keeps boot_id = record { from = λ w. Safe-same d w _ refl }

  insert_context-Keeps : (row : ApprovalContextRow) → Keeps d (insert_context row)
  unfolding insert_context
  insert_context-Keeps row = record {
    from = λ w.
        elim (Bool-cases
          (any (λ (c : ApprovalContextRow). str_eq c.context_id row.context_id) w.contexts)) [
            | inl h ↦ rw h (Safe-same d w w refl)
            | inr h ↦ rw h (Safe-same d w _ refl)
          ];
  }

  read_context-Keeps : (context_id boot_id : String) → Keeps d (read_context context_id boot_id)
  unfolding read_context
  read_context-Keeps context_id boot_id = record { from = λ w. Safe-same d w _ refl }

  return_if-Keeps :
      {A : Type 0} (refuse : Bool) (reason : BootActionFailure) (message : String)
      {rest : M (Outcome A)}
      → Keeps d rest
      → Keeps d (return_if refuse reason message rest)
  unfolding return_if
  return_if-Keeps true reason message keeps = pure-Keeps d _
  return_if-Keeps false reason message keeps = keeps

  return_if-Safe :
      {A : Type 0} (refuse : Bool) (reason : BootActionFailure) (message : String)
      (rest : M (Outcome A)) (w : World)
      → (refuse ≡ false → Safe d w (rest w).1)
      → Safe d w (return_if refuse reason message rest w).1
  unfolding return_if
  return_if-Safe true reason message rest w safe = Safe-same d w w refl
  return_if-Safe false reason message rest w safe = safe refl

  module _ (g : Guarded d) where
    snapshot-Keeps :
        (boot : BootRow) (environment : EnvironmentRow) (results : List VerificationResult)
        → Keeps d (snapshot d boot environment results)
    unfolding snapshot
    snapshot-Keeps boot environment results = search (keeping, return_if-Keeps, g) depth 12

    check_evidence-Keeps :
        (input : ApproveBootInput) (boot : BootRow) (environment : EnvironmentRow)
        (results : List VerificationResult) (evaluation : PolicyEvaluation)
        → Keeps d (check_evidence d input boot environment results evaluation)
    unfolding check_evidence
    check_evidence-Keeps input boot environment results evaluation =
        search (keeping, return_if-Keeps, snapshot-Keeps, g) depth 12

    check_environment-Keeps :
        (input : ApproveBootInput) (boot : BootRow) (environment : Option EnvironmentRow)
        → Keeps d (check_environment d input boot environment)
    unfolding check_environment
    check_environment-Keeps input boot none = pure-Keeps d _
    check_environment-Keeps input boot (some environment) =
        >>=-Keeps d (load_provenance_context-Keeps d g _ _) (λ context.
          >>=-Keeps d (run_verifiers-Keeps d g _ _) (λ results.
            check_evidence-Keeps input boot environment results
              (evaluate_policy context.mode results context.policies)))

    check_token-Keeps :
        (input : ApproveBootInput) (boot : BootRow) (now : ℕ) (token : Option BootstrapTokenRow)
        → Keeps d (check_token d input boot now token)
    unfolding check_token
    check_token-Keeps input boot now none = pure-Keeps d _
    check_token-Keeps input boot now (some token) =
        search (keeping, return_if-Keeps, read_environment-Keeps, check_environment-Keeps) depth 12

    expire_overdue-Safe :
        (boot : BootRow) (w : World)
        → select_boot boot.id w.boots ≡ some boot
        → Safe d w (expire_overdue d boot w).1
    unfolding expire_overdue
    expire_overdue-Safe boot w found =
        Safe-then d (expire d boot expire_pending) _ w
          (expire-Safe d g boot expire_pending w refl found)
          (λ a. search (keeping, recompute_alarm-Keeps) depth 8)

    check_live-Safe :
        (input : ApproveBootInput) (boot : BootRow) (w : World) (overdue : Bool)
        → select_boot boot.id w.boots ≡ some boot
        → Safe d w
            ((if overdue
                then expire_overdue d boot
                else do token ← get_token d boot.token_id; check_token d input boot w.clock token)
              w).1
    check_live-Safe input boot w true found = expire_overdue-Safe boot w found
    check_live-Safe input boot w false found =
        (>>=-Keeps d (get_token-Keeps d g boot.token_id)
            (λ token. check_token-Keeps input boot w.clock token)).from
          w

    check_boot-Safe :
        (input : ApproveBootInput) (w : World) (row : Option BootRow)
        → select_boot input.boot_id w.boots ≡ row
        → Safe d w (check_boot d input row w).1
    unfolding check_boot
    check_boot-Safe input w none e = Safe-same d w w refl
    check_boot-Safe input w (some boot) e = return_if-Safe _ _ _ _ w λ t.
        return_if-Safe _ _ _ _ w
          λ p. check_live-Safe input boot w _ (select_boot_self input.boot_id w.boots e)

    approval_state-Keeps : (input : ApproveBootInput) → Keeps d (approval_state d input)
    unfolding approval_state read_boot
    approval_state-Keeps input = record {
      from = λ w. check_boot-Safe input w (select_boot input.boot_id w.boots) refl;
    }

    store_context-Keeps :
        (input : ApproveBootInput) (request : PreparedBootApproval) (now : ℕ)
        (current : Option BootRow)
        → Keeps d (store_context d input request now current)
    unfolding store_context
    store_context-Keeps input request now current =
        search (keeping, return_if-Keeps, delete_expired_contexts-Keeps, insert_context-Keeps) depth
          12

    prepare_state-Keeps :
        (input : ApproveBootInput) (state : Outcome ApprovalState)
        → Keeps d (prepare_state d input state)
    unfolding prepare_state
    prepare_state-Keeps input (failure reason message) = pure-Keeps d _
    prepare_state-Keeps input (ok s) =
        search (keeping, return_if-Keeps, read_boot-Keeps, store_context-Keeps, g) depth 16

    pub prepare_approval-Keeps : (input : ApproveBootInput) → Keeps d (prepare_approval d input)
    unfolding prepare_approval
    prepare_approval-Keeps input =
        >>=-Keeps d (approval_state-Keeps input) (λ state. prepare_state-Keeps input state)

    deliver_stored-Safe :
        (boot_id : String) (attached : List ℕ) (w : World) (row : Option BootRow)
        → select_boot boot_id w.boots ≡ row
        → Safe d w (deliver_stored d row attached w).1
    unfolding deliver_stored
    deliver_stored-Safe boot_id attached w none e = Safe-same d w w refl
    deliver_stored-Safe boot_id attached w (some boot) e = elim (Bool-cases (is_empty attached)) [
      | inl h ↦ rw h (Safe-same d w w refl)
      | inr h ↦ rw h (deliver_to-Safe d g boot attached w (select_boot_self boot_id w.boots e))
    ]

    finish_approval-Keeps :
        (boot_id : String) (attached : List ℕ)
        → Keeps d (do
          stored ← read_boot boot_id
          deliver_stored d stored attached
          recompute_alarm
          final ← read_boot boot_id
          pure (ok (status_or d final)))
    unfolding read_boot
    finish_approval-Keeps boot_id attached = record {
      from = λ w.
          Safe-then d (deliver_stored d (select_boot boot_id w.boots) attached) _ w
            (deliver_stored-Safe boot_id attached w (select_boot boot_id w.boots) refl)
            (λ a. search (keeping, recompute_alarm-Keeps) depth 8);
    }

    -- What follows the row's update.
    approved_rest-Keeps :
        (input : CompleteInput) (s : ApprovalState) (request : PreparedBootApproval) (at : ℕ)
        → Keeps d (approved_rest d input s request at)
    unfolding approved_rest
    approved_rest-Keeps input s request at =
        search (reporting, delete_contexts_of-Keeps, finish_approval-Keeps, g) depth 20

    apply_approval-Safe :
        (input : CompleteInput) (s : ApprovalState) (request : PreparedBootApproval)
        (payload : ServerMessage) (at : ℕ) (w : World) (current : BootRow)
        → select_boot s.boot.id w.boots ≡ some current
        → current.status ≡ pending
        → Safe d w
            ((do next ← apply current approve; approve_moved d input s request payload at next) w).1
    unfolding approve_moved update_boot
    apply_approval-Safe input s request payload at w current e p =
        apply_cases d current approve _ w (Safe-same d w _ refl) λ t m.
          Safe-trans d w _ _
            (record {
              rows =
                  grant-SafeRows w.boots s.boot.id current t at request payload s.results
                    (select_boot_self s.boot.id w.boots e) p m (select_boot-id s.boot.id w.boots e);
            })
            ((approved_rest-Keeps input s request at).from _)

    approve_current-Safe :
        (input : CompleteInput) (s : ApprovalState) (request : PreparedBootApproval)
        (payload : ServerMessage) (at : ℕ) (w : World) (row : Option BootRow)
        → select_boot s.boot.id w.boots ≡ row
        → Safe d w (approve_current d input s request payload at row w).1
    unfolding approve_current
    approve_current-Safe input s request payload at w none e = Safe-same d w w refl
    approve_current-Safe input s request payload at w (some current) e =
        return_if-Safe _ _ _ _ w λ p.
          return_if-Safe _ _ _ _ w
            λ h. apply_approval-Safe input s request payload at w current e (waits current.status p)

    approve_row-Keeps :
        (input : CompleteInput) (s : ApprovalState) (request : PreparedBootApproval)
        (payload : ServerMessage) (at : ℕ)
        → Keeps d
            (do current ← read_boot s.boot.id; approve_current d input s request payload at current)
    unfolding read_boot
    approve_row-Keeps input s request payload at = record {
      from = λ w.
          approve_current-Safe input s request payload at w (select_boot s.boot.id w.boots) refl;
    }

    release-Keeps :
        (input : CompleteInput) (s : ApprovalState) (request : PreparedBootApproval)
        → Keeps d (release d input s request)
    unfolding release
    release-Keeps input s request =
        search (keeping, return_if-Keeps, get_token-Keeps, approve_row-Keeps, g) depth 20

    check_context-Keeps :
        (input : CompleteInput) (s : ApprovalState) (context : Option ApprovalContextRow)
        → Keeps d (check_context d input s context)
    unfolding check_context
    check_context-Keeps input s none = pure-Keeps d _
    check_context-Keeps input s (some context) = search (keeping, return_if-Keeps, release-Keeps)

    complete_state-Keeps :
        (input : CompleteInput) (state : Outcome ApprovalState)
        → Keeps d (complete_state d input state)
    unfolding complete_state
    complete_state-Keeps input (failure reason message) = pure-Keeps d _
    complete_state-Keeps input (ok s) =
        search (keeping, return_if-Keeps, read_context-Keeps, check_context-Keeps)

    pub complete_approval-Keeps : (input : CompleteInput) → Keeps d (complete_approval d input)
    unfolding complete_approval
    complete_approval-Keeps input =
        >>=-Keeps d (approval_state-Keeps input.approval)
          (λ state. complete_state-Keeps input state)
