-- ===== src/Boot/Approval/Snapshot.antt =====
-- What `#approvalState` of boot-session-core.ts has established when it returns a state.
pub mod Inverse
pub mod Evidence
use mathlib.Core.Path.{subst}
use mathlib.Core.Option.{some-injective}
use keevault.Base.{
  ◌<◌, ◌≡◌, refl, sym, ◌∙◌, ap, ℕ, String, Bool, true, false, Option, none, some, List, any, map,
  not, ◌==◌, str_eq_iff, if◌then◌else◌, arith,
}
use keevault.Protocol.State.{BootStatus, pending, expire_pending}
use keevault.Protocol.Messages.{SecretRecord}
use keevault.Provenance.{VerificationResult, PolicyEvaluation, ProvenanceMode}
use keevault.Provenance.Context.{ProvenanceContext, usable_signers, policy_entries}
use keevault.Provenance.Policy.{evaluate_policy}
use keevault.Store.{EnvironmentRow, BootstrapTokenRow}
use keevault.Store.Queries.{
  get_environment, get_bootstrap_token_by_token_id, list_secrets_for_delivery,
}
use keevault.Boot.{BootRow, World, Deps, M, pure, pause, asks, continue, ◌>>=◌, ◌>>◌}
use keevault.Boot.Table.{is_pending, select_boot, read_boot, recompute_alarm}
use keevault.Boot.Lifecycle.{due, expire}
use keevault.Boot.Connection.{
  is_some, bare_token_id, get_token, read_environment, load_provenance_context, run_verifiers,
}
use keevault.Boot.Result.{BootActionFailure, Outcome, ok, return_if}
use keevault.Boot.Approval.{ApproveBootInput, ApprovalState, secret_record}
use keevault.Boot.Approval.State.{
  snapshot, check_evidence, check_environment, check_token, expire_overdue, check_boot,
  approval_state,
}
pub use keevault.Boot.Approval.Snapshot.Inverse.{
  bind-inv, guard-inv, ok-injective, not-false, Awaits, waits, Ahead, due-Ahead, none_of_some,
  read-inv,
}
use keevault.Boot.Approval.Snapshot.Evidence.{Assessed, check_environment-ok}

-- What a run of `#approvalState` from `w` to `w'` has established when it returns `s`. Each world
-- between is the one that the run has reached after one more await.
pub record Established (d : Deps) (input : ApproveBootInput) (w : World) (s : ApprovalState)
    (w' : World) : Type 0 where
  -- The row, when the method starts.
  pub found : select_boot input.boot_id w.boots ≡ some s.boot
  pub waiting : s.boot.status ≡ pending
  pub in_time : Ahead w.clock s.boot.pending_expires_at
  -- The token of the boot in D1.
  pub at_token : World
  pub token_awaited : Awaits d w at_token
  pub token : BootstrapTokenRow
  pub token_found :
      get_bootstrap_token_by_token_id at_token.db (bare_token_id s.boot.token_id) ≡ some token
  pub unrevoked : token.revoked_at ≡ none
  pub token_in_time : Ahead w.clock token.expires_at
  -- The environment, its signers and its policies.
  pub at_environment : World
  pub environment_awaited : Awaits d at_token at_environment
  pub environment_found :
      get_environment at_environment.db s.boot.environment_id ≡ some s.environment
  pub at_signers : World
  pub signers_awaited : Awaits d at_environment at_signers
  pub at_policies : World
  pub policies_awaited : Awaits d at_signers at_policies
  -- The verifiers, and the policy on their results.
  pub at_results : World
  pub verified :
      run_verifiers d d.verifiers
        (record {
          environment_id = s.boot.environment_id;
          claims = s.boot.claims;
          evidence = s.boot.evidence;
          signers = usable_signers at_signers.db s.boot.environment_id;
        })
        at_policies
      ≡ (some s.results, at_results)
  pub approvable :
      (evaluate_policy s.environment.provenance_mode s.results
        (policy_entries at_policies.db s.boot.environment_id)).approvable
      ≡ true
  pub at_digest : World
  pub digest_awaited : Awaits d at_results at_digest
  pub reviewed : d.digest_summary s.results ≡ input.evidence_digest
  -- The secrets.
  pub at_secrets : World
  pub secrets_awaited : Awaits d at_digest at_secrets
  pub listed :
      s.secrets ≡ map secret_record (list_secrets_for_delivery at_secrets.db s.boot.environment_id)
  pub current_key :
      any
        (λ (r : SecretRecord). not (r.env_key_version == s.environment.current_env_key_version))
        s.secrets
      ≡ false
  pub digested : s.secrets_digest ≡ d.digest_secrets s.secrets
  pub returned : Awaits d at_secrets w'

module _ (d : Deps) (input : ApproveBootInput) where
  -- From the token on; `now` is the time at which the row was read.
  record Authorized (boot : BootRow) (now : ℕ) (w : World) (s : ApprovalState) (w' : World)
      : Type 0 where
    token : BootstrapTokenRow
    token_found : get_bootstrap_token_by_token_id w.db (bare_token_id boot.token_id) ≡ some token
    unrevoked : token.revoked_at ≡ none
    token_in_time : Ahead now token.expires_at
    at_environment : World
    environment_awaited : Awaits d w at_environment
    environment : EnvironmentRow
    environment_found : get_environment at_environment.db boot.environment_id ≡ some environment
    assessed : Assessed d input boot environment at_environment s w'

  check_token-missing :
      {X : Type 0} (boot : BootRow) (now : ℕ) (w w' : World) {s : ApprovalState}
      → check_token d input boot now none w ≡ (some (ok s), w')
      → X
  unfolding check_token
  check_token-missing boot now w w' h = cc

  check_token-found :
      (boot : BootRow) (now : ℕ) (token : BootstrapTokenRow) (w w' : World) {s : ApprovalState}
      → get_bootstrap_token_by_token_id w.db (bare_token_id boot.token_id) ≡ some token
      → check_token d input boot now (some token) w ≡ (some (ok s), w')
      → Authorized boot now w s w'
  unfolding check_token read_environment
  check_token-found boot now token w w' t h =
      let (kept, k) = guard-inv _ _ _ _ w w' h in
      let (fresh, l) = guard-inv _ _ _ _ w w' k in
      let (u, e, q) =
        read-inv d (λ x. get_environment x.db boot.environment_id) (check_environment d input boot)
          w w' l in
      let (environment, there, assessed) = check_environment-ok d input boot _ u w' q in
      record {
        token = token;
        token_found = t;
        unrevoked = none_of_some token.revoked_at kept;
        token_in_time = due-Ahead token.expires_at now fresh;
        at_environment = u;
        environment_awaited = e;
        environment = environment;
        environment_found = there;
        assessed = assessed;
      }

  check_token-ok :
      (boot : BootRow) (now : ℕ) (found : Option BootstrapTokenRow) (w w' : World)
      {s : ApprovalState}
      → get_bootstrap_token_by_token_id w.db (bare_token_id boot.token_id) ≡ found
      → check_token d input boot now found w ≡ (some (ok s), w')
      → Authorized boot now w s w'
  check_token-ok boot now none w w' t h = check_token-missing boot now w w' h
  check_token-ok boot now (some token) w w' t h = check_token-found boot now token w w' t h

  -- The parts of a run are those of its result.
  established :
      (boot : BootRow) (w at_token w' : World) {s : ApprovalState}
      → select_boot input.boot_id w.boots ≡ some boot
      → boot.status ≡ pending
      → Ahead w.clock boot.pending_expires_at
      → Awaits d w at_token
      → Authorized boot w.clock at_token s w'
      → Established d input w s w'
  established boot w at_token w' found waiting in_time awaited a =
      let b = a.assessed in
      let r = b.review in
      subst (λ x. Established d input w x w') r.made
        (record {
          found = found;
          waiting = waiting;
          in_time = in_time;
          at_token = at_token;
          token_awaited = awaited;
          token = a.token;
          token_found = a.token_found;
          unrevoked = a.unrevoked;
          token_in_time = a.token_in_time;
          at_environment = a.at_environment;
          environment_awaited = a.environment_awaited;
          environment_found = a.environment_found;
          at_signers = b.at_signers;
          signers_awaited = b.signers_awaited;
          at_policies = b.at_policies;
          policies_awaited = b.policies_awaited;
          at_results = b.at_results;
          verified = b.verified;
          approvable = b.approvable;
          at_digest = r.at_digest;
          digest_awaited = r.digest_awaited;
          reviewed = r.reviewed;
          at_secrets = r.at_secrets;
          secrets_awaited = r.secrets_awaited;
          listed = refl;
          current_key = r.current_key;
          digested = refl;
          returned = r.returned;
        })

  expire_overdue-fails :
      {X : Type 0} (boot : BootRow) (w w' : World) {s : ApprovalState}
      → expire_overdue d boot w ≡ (some (ok s), w')
      → X
  unfolding expire_overdue
  expire_overdue-fails boot w w' h =
      let (a, u, e', k) = bind-inv (expire d boot expire_pending) _ w w' h in
      let (b, v, e'', l) = bind-inv recompute_alarm _ u w' k in cc l

  token-ok :
      (boot : BootRow) (w w' : World) {s : ApprovalState}
      → (get_token d boot.token_id >>= check_token d input boot w.clock) w ≡ (some (ok s), w')
      → (at_token : World) × Awaits d w at_token × Authorized boot w.clock at_token s w'
  unfolding get_token
  token-ok boot w w' h =
      let (u, e, k) =
        read-inv d (λ x. get_bootstrap_token_by_token_id x.db (bare_token_id boot.token_id))
          (check_token d input boot w.clock) w w' h in
      (u, e, check_token-ok boot w.clock _ u w' refl k)

  check_live-ok :
      (boot : BootRow) (overdue : Bool) (w w' : World) {s : ApprovalState}
      → due boot.pending_expires_at w.clock ≡ overdue
      → (if overdue
            then expire_overdue d boot
            else get_token d boot.token_id >>= check_token d input boot w.clock)
          w
        ≡ (some (ok s), w')
      → (due boot.pending_expires_at w.clock ≡ false)
        × (at_token : World) × Awaits d w at_token
        × Authorized boot w.clock at_token s w'
  check_live-ok boot true w w' e h = expire_overdue-fails boot w w' h
  check_live-ok boot false w w' e h = let (u, f, a) = token-ok boot w w' h in (e, u, f, a)

  check_boot-missing :
      {X : Type 0} (w w' : World) {s : ApprovalState}
      → check_boot d input none w ≡ (some (ok s), w')
      → X
  unfolding check_boot
  check_boot-missing w w' h = cc

  check_boot-found :
      (boot : BootRow) (w w' : World) {s : ApprovalState}
      → select_boot input.boot_id w.boots ≡ some boot
      → check_boot d input (some boot) w ≡ (some (ok s), w')
      → Established d input w s w'
  unfolding check_boot
  check_boot-found boot w w' found h =
      let (live, k) = guard-inv _ _ _ _ w w' h in
      let (waiting, l) = guard-inv _ _ _ _ w w' k in
      let (overdue, u, e, authorized) = check_live-ok boot _ w w' refl l in
      established boot w u w' found (waits boot.status waiting)
        (due-Ahead boot.pending_expires_at w.clock overdue) e authorized

  check_boot-ok :
      (row : Option BootRow) (w w' : World) {s : ApprovalState}
      → select_boot input.boot_id w.boots ≡ row
      → check_boot d input row w ≡ (some (ok s), w')
      → Established d input w s w'
  check_boot-ok none w w' found h = check_boot-missing w w' h
  check_boot-ok (some boot) w w' found h = check_boot-found boot w w' found h

  -- What `#approvalState` returns was found at once PENDING and not overdue. After one await its token
  -- was neither revoked nor, at the time of the start, expired; after the next ones the environment,
  -- its usable signers and its policies were read, the verifiers ran on these signers, and the policy
  -- in the mode of the environment approves their results, which are what the approver reviewed. Then
  -- the secrets were read, and each is under the key of the environment.
  pub approval_state-ok :
      (w w' : World) {s : ApprovalState}
      → approval_state d input w ≡ (some (ok s), w')
      → Established d input w s w'
  unfolding approval_state read_boot
  approval_state-ok w w' h = check_boot-ok (select_boot input.boot_id w.boots) w w' refl h
