-- ===== src/Provenance/Policy/Laws.antt =====
-- When apps/control-plane/src/server/provenance/policy.ts lets an approval proceed.
use mathlib.Core.Path.{subst}
use mathlib.Core.Option.{some-injective}
use keevault.Base.{
  sym, ◌≢◌, ◌≡◌, refl, ◌↔◌, ◌⊎◌, inl, inr, String, true, false, Option, none, some, List, [], ◌∷◌,
  ◌++◌, All, any, filter, is_empty, arith, Bool-cases,
}
use keevault.Provenance.{
  VerificationStatus, verified, VerificationFact, VerificationResult, ProvenancePolicyEntry,
  required,
}
use keevault.Provenance.Policy.{
  is_verified, is_failed, contradicts, required_of, result_for, failed_blockers, fallback_blockers,
  policy_blocker, policy_blockers, checked_of, option_list, fact_blockers, mismatch_blockers,
  blockers_of, evaluate_policy,
}

-- No fact of the result contradicts a claim.
abbrev pub NoMismatch : VerificationResult → Type 0
NoMismatch r = All (λ f. contradicts f ≡ false) r.facts

-- What a required policy row asks of the results.
abbrev pub Satisfied : List VerificationResult → ProvenancePolicyEntry → Type 0
Satisfied results p =
    (r : VerificationResult) × (result_for results p.verifier_type ≡ some r)
    × (r.status ≡ verified)
    × NoMismatch r

-- What the fallback rule asks when no row is required.
abbrev pub Fallback : List VerificationResult → Type 0
Fallback results =
    (any (λ r. is_verified r.status) results ≡ true)
    × All (λ r. is_failed r.status ≡ false) results
    × All NoMismatch results

status-cases : (s : VerificationStatus) → (s ≡ verified) ⊎ (is_verified s ≡ false)
status-cases s = ground arith

is_verified_iff : (s : VerificationStatus) → (is_verified s ≡ true) ↔ (s ≡ verified)
is_verified_iff s = ground arith

verified-ne_other : (s : VerificationStatus) → is_verified s ≡ false → s ≢ verified
verified-ne_other s h e = ground arith

is_empty-append :
    (xs ys : List String)
    → (is_empty (xs ++ ys) ≡ true) ↔ ((is_empty xs ≡ true) × (is_empty ys ≡ true))
is_empty-append [] ys = (λ h. (refl, h), λ h. h.1)
is_empty-append (x ∷ xs) ys = (λ h. cc, λ h. cc)

fact_blockers_iff :
    (name : String) (facts : List VerificationFact)
    → (is_empty (fact_blockers name facts) ≡ true) ↔ All (λ f. contradicts f ≡ false) facts
unfolding fact_blockers
fact_blockers_iff name [] = (λ h. tt, λ h. refl)
fact_blockers_iff name (f ∷ facts) = elim (Bool-cases (contradicts f)) [
  | inl e ↦ rw e (λ h. cc, λ h. cc h.0)
  | inr e ↦
      rw e
        (λ h. (refl, (fact_blockers_iff name facts).0 h), λ h. (fact_blockers_iff name facts).1 h.1)
]

mismatch_blockers_iff :
    (results : List VerificationResult)
    → (is_empty (mismatch_blockers results) ≡ true) ↔ All NoMismatch results
unfolding mismatch_blockers
mismatch_blockers_iff [] = (λ h. tt, λ h. refl)
mismatch_blockers_iff (r ∷ results) =
    let (split, join) =
      is_empty-append (fact_blockers r.verifier r.facts) (mismatch_blockers results) in
    let (facts_ok, facts_no) = fact_blockers_iff r.verifier r.facts in
    let (rest_ok, rest_no) = mismatch_blockers_iff results in
    (λ h. (facts_ok (split h).0, rest_ok (split h).1), λ h. join (facts_no h.0, rest_no h.1))

-- One required row, whatever the blockers and the results of the later rows.
policy_step_iff :
    (o : Option VerificationResult) (name : String) (later : List String)
    (checked : List VerificationResult)
    → ((is_empty (policy_blocker o name ++ later) ≡ true)
        × All NoMismatch (option_list o ++ checked))
      ↔ (((r : VerificationResult) × (o ≡ some r) × (r.status ≡ verified) × NoMismatch r)
          × (is_empty later ≡ true)
          × All NoMismatch checked)
unfolding policy_blocker
policy_step_iff none name later checked = (λ h. cc h.0, λ h. cc h.0.1)
policy_step_iff (some r) name later checked = elim (status-cases r.status) [
  | inl e ↦
      let v = is_verified_iff r.status in
      rw (v.1 e) (
        λ h. ((r, refl, e, h.1.0), h.0, h.1.1),
        λ h. (h.1, (subst NoMismatch (sym (some-injective _ _ h.0.1)) h.0.3, h.2)),
      )
  | inr e ↦ rw e (
    λ h. cc h.0,
    λ h. absurd (
        verified-ne_other r.status e
          (subst (λ x. x.status ≡ verified) (sym (some-injective _ _ h.0.1)) h.0.2)),
  )
]

required_iff :
    (results : List VerificationResult) (policies : List ProvenancePolicyEntry)
    → ((is_empty (policy_blockers results policies) ≡ true)
        × All NoMismatch (checked_of results policies))
      ↔ All (Satisfied results) policies
unfolding policy_blockers checked_of
required_iff results [] = (λ h. tt, λ h. (refl, tt))
required_iff results (p ∷ policies) =
    let (to, from) =
      policy_step_iff (result_for results p.verifier_type) p.verifier_type
        (policy_blockers results policies) (checked_of results policies) in
    let (rest_to, rest_from) = required_iff results policies in
    (
      λ h. ((to h).0, rest_to ((to h).1, (to h).2)),
      λ h. from (h.0, (rest_from h.1).0, (rest_from h.1).1),
    )

failed_blockers_iff :
    (results : List VerificationResult)
    → (is_empty (failed_blockers results) ≡ true) ↔ All (λ r. is_failed r.status ≡ false) results
unfolding failed_blockers
failed_blockers_iff [] = (λ h. tt, λ h. refl)
failed_blockers_iff (r ∷ results) = elim (Bool-cases (is_failed r.status)) [
  | inl e ↦ rw e (λ h. cc, λ h. cc h.0)
  | inr e ↦
      rw e
        (λ h. (refl, (failed_blockers_iff results).0 h), λ h. (failed_blockers_iff results).1 h.1)
]

any_verified_iff :
    (results : List VerificationResult)
    → (is_empty (filter (λ (r : VerificationResult). is_verified r.status) results) ≡ false)
      ↔ (any (λ r. is_verified r.status) results ≡ true)
any_verified_iff [] = (λ h. cc, λ h. cc)
any_verified_iff (r ∷ results) = elim (Bool-cases (is_verified r.status)) [
  | inl e ↦ rw e (λ h. refl, λ h. refl)
  | inr e ↦ rw e (any_verified_iff results)
]

Fallback-iff :
    (results : List VerificationResult)
    → (is_empty (fallback_blockers results ++ mismatch_blockers results) ≡ true) ↔ Fallback results
unfolding fallback_blockers
Fallback-iff results =
    let failures = failed_blockers_iff results in
    let mismatches = mismatch_blockers_iff results in
    let verifications = any_verified_iff results in
    elim (Bool-cases
      (is_empty (filter (λ (r : VerificationResult). is_verified r.status) results))) [
        | inl e ↦ rw e (λ h. cc, λ h. cc (verifications.1 h.0))
        | inr e ↦
            let (split, join) =
              is_empty-append (failed_blockers results) (mismatch_blockers results) in
            rw e (
              λ h. (verifications.0 e, failures.0 (split h).0, mismatches.0 (split h).1),
              λ h. join (failures.1 h.1, mismatches.1 h.2),
            )
      ]

blockers_iff :
    (results : List VerificationResult) (policies : List ProvenancePolicyEntry)
    → (is_empty (blockers_of results policies) ≡ true)
      ↔ ((policies ≡ []) × Fallback results ⊎ (policies ≢ []) × All (Satisfied results) policies)
unfolding blockers_of
blockers_iff results [] =
    let (to, from) = Fallback-iff results in
    (λ h. inl (refl, to h), elim [ inl (e, f) ↦ from f | inr (n, a) ↦ absurd (n refl) ])
blockers_iff results (p ∷ policies) =
    let (split, join) =
      is_empty-append (policy_blockers results (p ∷ policies))
        (mismatch_blockers (checked_of results (p ∷ policies))) in
    let (to, from) = required_iff results (p ∷ policies) in
    let mismatches = mismatch_blockers_iff (checked_of results (p ∷ policies)) in
    (
      λ h. inr (λ e. cc, to ((split h).0, mismatches.0 (split h).1)),
      elim [ inl (e, f) ↦ cc | inr (n, a) ↦ join ((from a).0, mismatches.1 (from a).1) ],
    )

-- In mode REQUIRED an approval may proceed exactly when every enabled required row is satisfied,
-- or, with no such row, when some result is VERIFIED, none FAILED and no fact contradicts a claim.
pub approvable-required_iff :
    (results : List VerificationResult) (policies : List ProvenancePolicyEntry)
    → ((evaluate_policy required results policies).approvable ≡ true) ↔ (
        (required_of policies ≡ []) × Fallback results
        ⊎ (required_of policies ≢ []) × All (Satisfied results) (required_of policies))
unfolding evaluate_policy
approvable-required_iff results policies = blockers_iff results (required_of policies)
