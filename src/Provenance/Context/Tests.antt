-- ===== src/Provenance/Context/Tests.antt =====
-- The signers of apps/control-plane/src/server/provenance/context.ts at a concrete database.
use keevault.Base.{String, true, Option, none, some, ℕ, [], ◌∷◌, All}
use keevault.Provenance.{off}
use keevault.Store.{TrustedSignerRow, VaultDatabase, cloud}
use keevault.Provenance.Context.{usable_signers}
use keevault.Provenance.Context.Usable.{Usable, usable_signers-Usable}

abbrev signer_row : String → Option String → Option ℕ → TrustedSignerRow
signer_row id environment_id revoked_at = record {
  id = id;
  project_id = some "prj_1";
  environment_id = environment_id;
  label = "builder";
  public_key = "key";
  fingerprint = "fp";
  type = "ed25519";
  enabled = true;
  revoked_at = revoked_at;
  created_at = 1000;
}

-- One signer of the project, one of another environment, and one that is revoked.
abbrev three_signers : VaultDatabase
three_signers = record {
  projects = [];
  project_keys = [];
  environment_keys = [];
  environments =
      record {
        id = "env_1";
        project_id = "prj_1";
        key_mode = cloud;
        current_env_key_version = 1;
        provenance_mode = off;
        pending_ttl_seconds = 900;
        approved_ttl_seconds = 600;
      }
      ∷ [];
  tokens = [];
  secrets = [];
  signers =
      signer_row "sig_1" none none
      ∷ signer_row "sig_2" (some "env_2") none
      ∷ signer_row "sig_3" (some "env_1") (some 2000)
      ∷ [];
  policies = [];
  requests = [];
  approvals = [];
  audit = [];
}

usable_signers-Usable_example :
    All (Usable three_signers "env_1") (usable_signers three_signers "env_1")
usable_signers-Usable_example = usable_signers-Usable three_signers "env_1"
