-- ===== src/Store/Queries.antt =====
-- The SELECT statements of packages/vault-store/src/repositories that the boot session runs.
use Prim.Native.String.{◌++◌ as text_append}
use keevault.Base.{
  String, Bool, false, Option, none, some, List, ◌&&◌, ◌||◌, filter, find, sort_by, str_eq, str_le,
  ltb, ◌==◌,
}
use keevault.Store.{
  EnvironmentRow, BootstrapTokenRow, SecretDeliveryRow, TrustedSignerRow, ProvenancePolicyRow,
  VaultDatabase,
}

unfoldable pub get_environment : VaultDatabase → String → Option EnvironmentRow
get_environment db environment_id = find (λ row. str_eq row.id environment_id) db.environments

-- The row id is the presented id behind the prefix `tok_`.
unfoldable pub get_bootstrap_token_by_token_id : VaultDatabase → String → Option BootstrapTokenRow
get_bootstrap_token_by_token_id db token_id =
    find (λ row. str_eq row.id (text_append "tok_" token_id)) db.tokens

unfoldable pub list_secrets_for_delivery : VaultDatabase → String → List SecretDeliveryRow
list_secrets_for_delivery db environment_id =
    sort_by (λ a b. str_le a.name b.name)
      (filter (λ row. str_eq row.environment_id environment_id) db.secrets)

-- `project_id = (SELECT project_id FROM environments WHERE id = ?1)`, which no row equals if there
-- is no such environment, nor one that has no project.
abbrev pub in_project : Option EnvironmentRow → Option String → Bool
in_project none project_id = false
in_project (some environment) none = false
in_project (some environment) (some project_id) = str_eq project_id environment.project_id

abbrev pub usable_by : VaultDatabase → String → TrustedSignerRow → Bool
usable_by db environment_id row = elim row.environment_id [
  | some own ↦ str_eq own environment_id
  | none ↦ in_project (get_environment db environment_id) row.project_id
]

abbrev pub signer_le : TrustedSignerRow → TrustedSignerRow → Bool
signer_le a b = ltb a.created_at b.created_at || (a.created_at == b.created_at && str_le a.id b.id)

unfoldable pub list_trusted_signers_for_environment : VaultDatabase → String → List TrustedSignerRow
unfolding get_environment
list_trusted_signers_for_environment db environment_id =
    sort_by signer_le (filter (usable_by db environment_id) db.signers)

unfoldable pub list_provenance_policies_by_environment :
    VaultDatabase → String → List ProvenancePolicyRow
list_provenance_policies_by_environment db environment_id =
    sort_by (λ a b. str_le a.verifier_type b.verifier_type)
      (filter (λ row. str_eq row.environment_id environment_id) db.policies)
