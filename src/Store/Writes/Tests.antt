-- ===== src/Store/Writes/Tests.antt =====
-- The update of an index row of packages/vault-store at a concrete database.
use keevault.Base.{str_eq, ◌≡◌, refl, ◌≢◌, String, none, some, [], ◌∷◌}
use keevault.Protocol.State.{pending, approved}
use keevault.Store.{BootRequestRow, VaultDatabase}
use keevault.Store.Writes.{UpdateBootRequestStatusInput, update_boot_request_status}
use keevault.Store.Writes.Stamps.{request_of, Updates, update_boot_request_status-Updates}

abbrev waiting_row : String → BootRequestRow
waiting_row id = record {
  id = id;
  environment_id = "env_1";
  bootstrap_token_id = "tok_a";
  status = pending;
  source_ip = none;
  signing_public_key = "spk";
  encryption_public_key = "epk";
  claimed_git_repository = none;
  claimed_git_commit = none;
  claimed_oci_repository = none;
  claimed_oci_digest = none;
  provenance_summary = none;
  created_at = 1000;
  updated_at = 1000;
  approved_at = none;
  declined_at = none;
  delivered_at = none;
  consumed_at = none;
  expired_at = none;
  canceled_at = none;
}

abbrev two_requests : VaultDatabase
two_requests = record {
  projects = [];
  project_keys = [];
  environment_keys = [];
  environments = [];
  tokens = [];
  secrets = [];
  signers = [];
  policies = [];
  requests = waiting_row "boot_1" ∷ waiting_row "boot_2" ∷ [];
  approvals = [];
  audit = [];
}

abbrev approval_update : UpdateBootRequestStatusInput
approval_update = record {
  boot_id = "boot_2";
  status = approved;
  now = 2000;
  approved_at = some 2000;
  declined_at = none;
  delivered_at = none;
  consumed_at = none;
  expired_at = none;
  canceled_at = none;
}

abbrev approved_row : BootRequestRow
approved_row = record (waiting_row "boot_2") {
  status = approved;
  updated_at = 2000;
  approved_at = some 2000;
}

abbrev after_update : VaultDatabase
after_update = record two_requests { requests = waiting_row "boot_1" ∷ approved_row ∷ [] }

updates : update_boot_request_status approval_update two_requests ≡ some after_update
unfolding update_boot_request_status str_eq
updates = refl

update_boot_request_status-Updates_example :
    ((a : BootRequestRow)
      → request_of "boot_2" two_requests.requests ≡ some a
      → (b : BootRequestRow) × (request_of "boot_2" after_update.requests ≡ some b)
        × Updates approval_update a b)
    × ((id : String) (a : BootRequestRow)
        → id ≢ "boot_2"
        → request_of id two_requests.requests ≡ some a
        → request_of id after_update.requests ≡ some a)
update_boot_request_status-Updates_example =
    update_boot_request_status-Updates approval_update two_requests after_update updates
