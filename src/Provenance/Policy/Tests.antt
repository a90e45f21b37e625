-- ===== src/Provenance/Policy/Tests.antt =====
-- The theorems on apps/control-plane/src/server/provenance/policy.ts at concrete results.
use keevault.Base.{◌≡◌, ◌≢◌, ◌↔◌, ◌⊎◌, true, false, some, List, [], ◌∷◌, All}
use keevault.Provenance.{verified, failed, VerificationResult, ProvenancePolicyEntry, required}
use keevault.Provenance.Policy.{required_of, evaluate_policy}
use keevault.Provenance.Policy.Laws.{Satisfied, Fallback, approvable-required_iff}

-- A verified manifest whose commit contradicts the claim, and one failed verifier.
abbrev two_results : List VerificationResult
two_results =
    record {
      verifier = "signed-build-manifest-v1";
      status = verified;
      facts = record { key = "commit"; value = "abc"; matches_claim = some false } ∷ [];
      warnings = [];
    }
    ∷ record { verifier = "claims-only"; status = failed; facts = []; warnings = [] }
    ∷ []

abbrev one_policy : List ProvenancePolicyEntry
one_policy =
    record { verifier_type = "signed-build-manifest-v1"; required = true; enabled = true } ∷ []

approvable-required_iff_example :
    ((evaluate_policy required two_results one_policy).approvable ≡ true) ↔ (
      (required_of one_policy ≡ []) × Fallback two_results
      ⊎ (required_of one_policy ≢ []) × All (Satisfied two_results) (required_of one_policy))
approvable-required_iff_example = approvable-required_iff two_results one_policy
