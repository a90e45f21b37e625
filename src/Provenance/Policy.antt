-- ===== src/Provenance/Policy.antt =====
-- evaluatePolicy of apps/control-plane/src/server/provenance/policy.ts.
pub mod Laws
mod Tests
use Prim.Native.String.{◌++◌ as text_append}
use keevault.Base.{
  String, Bool, true, false, Option, none, some, List, [], ◌∷◌, ◌++◌, ◌&&◌, filter, find, is_empty,
  str_eq, if◌then◌else◌,
}
use keevault.Provenance.{
  VerificationStatus, verified, unverified, failed, unavailable, VerificationFact,
  VerificationResult, ProvenancePolicyEntry, PolicyEvaluation, ProvenanceMode, off, advisory,
  required,
}

abbrev pub is_verified : VerificationStatus → Bool
is_verified verified = true
is_verified _ = false

abbrev pub is_failed : VerificationStatus → Bool
is_failed failed = true
is_failed _ = false

-- The text of a status in a blocker.
status_text : VerificationStatus → String
status_text verified = "VERIFIED"
status_text unverified = "UNVERIFIED"
status_text failed = "FAILED"
status_text unavailable = "UNAVAILABLE"

-- `result.matchesClaim === false`.
abbrev pub contradicts : VerificationFact → Bool
contradicts fact = elim fact.matches_claim [ none ↦ false | some b ↦ if b then false else true ]

abbrev is_required : ProvenancePolicyEntry → Bool
is_required policy = policy.enabled && policy.required

unfoldable pub required_of : List ProvenancePolicyEntry → List ProvenancePolicyEntry
required_of policies = filter is_required policies

unfoldable pub result_for : List VerificationResult → String → Option VerificationResult
result_for results name = find (λ r. str_eq r.verifier name) results

-- The blockers of the loop over `results` when no policy row is required.
failed_blockers : List VerificationResult → List String
failed_blockers [] = []
failed_blockers (r ∷ results) =
    let rest = failed_blockers results in
    if is_failed r.status then text_append r.verifier " reported FAILED" ∷ rest else rest

fallback_blockers : List VerificationResult → List String
unfolding failed_blockers
fallback_blockers results =
    (if is_empty (filter (λ (r : VerificationResult). is_verified r.status) results)
      then "no verifier reported VERIFIED and this environment requires provenance" ∷ []
      else [])
    ++ failed_blockers results

-- One round of the loop over the required policies.
policy_blocker : Option VerificationResult → String → List String
unfolding status_text
policy_blocker none name = text_append name " is required but did not run" ∷ []
policy_blocker (some r) name =
    if is_verified r.status
    then []
    else text_append name (text_append " is required and reported " (status_text r.status)) ∷ []

policy_blockers : List VerificationResult → List ProvenancePolicyEntry → List String
unfolding policy_blocker
policy_blockers results [] = []
policy_blockers results (p ∷ policies) =
    policy_blocker (result_for results p.verifier_type) p.verifier_type
    ++ policy_blockers results policies

-- The results whose facts are compared: `required.flatMap(…)`.
abbrev option_list : Option VerificationResult → List VerificationResult
option_list none = []
option_list (some r) = r ∷ []

checked_of : List VerificationResult → List ProvenancePolicyEntry → List VerificationResult
checked_of results [] = []
checked_of results (p ∷ policies) =
    option_list (result_for results p.verifier_type) ++ checked_of results policies

fact_blockers : String → List VerificationFact → List String
fact_blockers name [] = []
fact_blockers name (f ∷ facts) =
    let rest = fact_blockers name facts in
    if contradicts f
    then text_append name
        (text_append ": " (text_append f.key " does not match the workload claim"))
      ∷ rest
    else rest

mismatch_blockers : List VerificationResult → List String
unfolding fact_blockers
mismatch_blockers [] = []
mismatch_blockers (r ∷ results) = fact_blockers r.verifier r.facts ++ mismatch_blockers results

-- All blockers in the order in which the code pushes them.
blockers_of : List VerificationResult → List ProvenancePolicyEntry → List String
unfolding fallback_blockers policy_blockers checked_of mismatch_blockers
blockers_of results [] = fallback_blockers results ++ mismatch_blockers results
blockers_of results (p ∷ policies) =
    policy_blockers results (p ∷ policies) ++ mismatch_blockers (checked_of results (p ∷ policies))

abbrev evaluation : List String → PolicyEvaluation
evaluation blockers = record { approvable = is_empty blockers; blockers = blockers }

unfoldable pub evaluate_policy :
    ProvenanceMode → List VerificationResult → List ProvenancePolicyEntry → PolicyEvaluation
unfolding blockers_of required_of
evaluate_policy required results policies = evaluation (blockers_of results (required_of policies))
evaluate_policy _ results policies = record { approvable = true; blockers = [] }
