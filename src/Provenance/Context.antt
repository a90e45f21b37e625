-- ===== src/Provenance/Context.antt =====
-- loadProvenanceContext of apps/control-plane/src/server/provenance/context.ts: what the verifiers
-- and the policy check read from D1.
pub mod Usable
mod Tests
use keevault.Base.{String, Bool, true, false, none, some, List, ◌&&◌, map, filter}
use keevault.Provenance.{ProvenanceMode, TrustedSigner, ProvenancePolicyEntry}
use keevault.Store.{TrustedSignerRow, ProvenancePolicyRow, VaultDatabase}
use keevault.Store.Queries.{
  list_trusted_signers_for_environment, list_provenance_policies_by_environment,
}

pub record ProvenanceContext : Type 0 where
  pub mode : ProvenanceMode
  pub signers : List TrustedSigner
  pub policies : List ProvenancePolicyEntry

-- `row.enabled && row.revokedAt === null`.
abbrev is_active : TrustedSignerRow → Bool
is_active row = row.enabled && elim row.revoked_at [ none ↦ true | some at ↦ false ]

abbrev signer_of : TrustedSignerRow → TrustedSigner
signer_of row = record {
  id = row.id;
  label = row.label;
  public_key = row.public_key;
  fingerprint = row.fingerprint;
  type = row.type;
}

abbrev entry_of : ProvenancePolicyRow → ProvenancePolicyEntry
entry_of row = record {
  verifier_type = row.verifier_type;
  required = row.required;
  enabled = row.enabled;
}

unfoldable pub usable_signers : VaultDatabase → String → List TrustedSigner
unfolding list_trusted_signers_for_environment
usable_signers db environment_id =
    map signer_of (filter is_active (list_trusted_signers_for_environment db environment_id))

unfoldable pub policy_entries : VaultDatabase → String → List ProvenancePolicyEntry
unfolding list_provenance_policies_by_environment
policy_entries db environment_id =
    map entry_of (list_provenance_policies_by_environment db environment_id)
