-- ===== src/Boot/Approval/Snapshot/Evidence.antt =====
-- What `#approvalState` of boot-session-core.ts has established from the environment on.
use mathlib.Core.Path.{subst}
use keevault.Base.{
  ◌≡◌, refl, ap, true, false, Option, none, some, List, any, map, not, ◌==◌, str_eq_iff,
}
use keevault.Protocol.Messages.{SecretRecord}
use keevault.Provenance.{VerificationResult, PolicyEvaluation}
use keevault.Provenance.Context.{ProvenanceContext, usable_signers, policy_entries}
use keevault.Provenance.Policy.{evaluate_policy}
use keevault.Store.{EnvironmentRow}
use keevault.Store.Queries.{list_secrets_for_delivery}
use keevault.Boot.{BootRow, World, Deps, M, pause, ◌>>=◌}
use keevault.Boot.Connection.{load_provenance_context, run_verifiers}
use keevault.Boot.Result.{Outcome, ok}
use keevault.Boot.Approval.{ApproveBootInput, ApprovalState, secret_record}
use keevault.Boot.Approval.State.{snapshot, check_evidence, check_environment}
use keevault.Boot.Approval.Snapshot.Inverse.{
  bind-inv, guard-inv, ok-injective, not-false, Awaits, load-inv,
}

-- The snapshot of a boot, taken of the secrets in a world.
abbrev pub taken : Deps → BootRow → EnvironmentRow → List VerificationResult → World → ApprovalState
taken d boot environment results u =
    let secrets = map secret_record (list_secrets_for_delivery u.db boot.environment_id) in
    record {
      boot = boot;
      environment = environment;
      results = results;
      secrets = secrets;
      secrets_digest = d.digest_secrets secrets;
    }

module _ (d : Deps) (input : ApproveBootInput) where
  -- From the results on.
  pub record Reviewed (boot : BootRow) (environment : EnvironmentRow)
      (results : List VerificationResult) (w : World) (s : ApprovalState) (w' : World)
      : Type 0 where
    pub at_digest : World
    pub digest_awaited : Awaits d w at_digest
    pub reviewed : d.digest_summary results ≡ input.evidence_digest
    pub at_secrets : World
    pub secrets_awaited : Awaits d at_digest at_secrets
    pub current_key :
        any
          (λ (r : SecretRecord). not (r.env_key_version == environment.current_env_key_version))
          (taken d boot environment results at_secrets).secrets
        ≡ false
    pub returned : Awaits d at_secrets w'
    pub made : taken d boot environment results at_secrets ≡ s

  check_evidence-ok :
      (boot : BootRow) (environment : EnvironmentRow) (results : List VerificationResult)
      (evaluation : PolicyEvaluation) (w w' : World) {s : ApprovalState}
      → check_evidence d input boot environment results evaluation w ≡ (some (ok s), w')
      → (evaluation.approvable ≡ true) × Reviewed boot environment results w s w'
  unfolding check_evidence snapshot
  check_evidence-ok boot environment results evaluation w w' h =
      let (good, k) = guard-inv _ _ _ _ w w' h in
      let (a, u, e, l) = bind-inv (pause d) _ w w' k in
      let (same, q) = guard-inv _ _ _ _ u w' l in
      let (b, v, e', r) = bind-inv (pause d) _ u w' q in
      let (keys, t) = guard-inv _ _ _ _ v w' r in
      let (c, x, e'', y) = bind-inv (pause d) _ v w' t in
      (
        not-false _ good,
        record {
          at_digest = u;
          digest_awaited = e;
          reviewed = (str_eq_iff _ _).0 (not-false _ same);
          at_secrets = v;
          secrets_awaited = e';
          current_key = keys;
          returned = subst (λ z. Awaits d v z) (ap (λ r. r.1) y) e'';
          made = ok-injective y;
        },
      )

  -- From the environment on.
  pub record Assessed (boot : BootRow) (environment : EnvironmentRow) (w : World)
      (s : ApprovalState) (w' : World) : Type 0 where
    pub at_signers : World
    pub signers_awaited : Awaits d w at_signers
    pub at_policies : World
    pub policies_awaited : Awaits d at_signers at_policies
    pub results : List VerificationResult
    pub at_results : World
    pub verified :
        run_verifiers d d.verifiers
          (record {
            environment_id = boot.environment_id;
            claims = boot.claims;
            evidence = boot.evidence;
            signers = usable_signers at_signers.db boot.environment_id;
          })
          at_policies
        ≡ (some results, at_results)
    pub approvable :
        (evaluate_policy environment.provenance_mode results
          (policy_entries at_policies.db boot.environment_id)).approvable
        ≡ true
    pub review : Reviewed boot environment results at_results s w'

  -- What `check_environment` does with the context that it has loaded.
  from_context : BootRow → EnvironmentRow → ProvenanceContext → M (Outcome ApprovalState)
  from_context boot environment context = do
    results ← run_verifiers d d.verifiers (record {
      environment_id = boot.environment_id;
      claims = boot.claims;
      evidence = boot.evidence;
      signers = context.signers;
    })
    check_evidence d input boot environment results
        (evaluate_policy context.mode results context.policies)

  assess :
      (boot : BootRow) (environment : EnvironmentRow) (w u v w' : World) {s : ApprovalState}
      → Awaits d w u
      → Awaits d u v
      → from_context boot environment
          (record {
            mode = environment.provenance_mode;
            signers = usable_signers u.db boot.environment_id;
            policies = policy_entries v.db boot.environment_id;
          })
          v
        ≡ (some (ok s), w')
      → Assessed boot environment w s w'
  unfolding from_context
  assess boot environment w u v w' first second h =
      let (results, x, e, q) = bind-inv (run_verifiers d d.verifiers _) _ v w' h in
      let (good, review) = check_evidence-ok boot environment results _ x w' q in
      record {
        at_signers = u;
        signers_awaited = first;
        at_policies = v;
        policies_awaited = second;
        results = results;
        at_results = x;
        verified = e;
        approvable = good;
        review = review;
      }

  loaded-ok :
      (boot : BootRow) (environment : EnvironmentRow) (w w' : World) {s : ApprovalState}
      → (load_provenance_context d boot.environment_id environment.provenance_mode
            >>= from_context boot environment)
          w
        ≡ (some (ok s), w')
      → Assessed boot environment w s w'
  loaded-ok boot environment w w' h =
      let (u, v, e, f, k) =
        load-inv d boot.environment_id environment.provenance_mode (from_context boot environment) w
          w' h in
      assess boot environment w u v w' e f k

  check_environment-missing :
      {X : Type 0} (boot : BootRow) (w w' : World) {s : ApprovalState}
      → check_environment d input boot none w ≡ (some (ok s), w')
      → X
  unfolding check_environment
  check_environment-missing boot w w' h = cc

  check_environment-found :
      (boot : BootRow) (environment : EnvironmentRow) (w w' : World) {s : ApprovalState}
      → check_environment d input boot (some environment) w ≡ (some (ok s), w')
      → Assessed boot environment w s w'
  unfolding check_environment from_context
  check_environment-found boot environment w w' h = loaded-ok boot environment w w' h

  pub check_environment-ok :
      (boot : BootRow) (found : Option EnvironmentRow) (w w' : World) {s : ApprovalState}
      → check_environment d input boot found w ≡ (some (ok s), w')
      → (environment : EnvironmentRow) × (found ≡ some environment)
        × Assessed boot environment w s w'
  check_environment-ok boot none w w' h = check_environment-missing boot w w' h
  check_environment-ok boot (some environment) w w' h =
      (environment, refl, check_environment-found boot environment w w' h)
