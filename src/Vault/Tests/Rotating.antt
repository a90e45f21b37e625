-- ===== src/Vault/Tests/Rotating.antt =====
-- A rotation of apps/control-plane/src/server/vault/rotation.ts of an environment with one secret.
use mathlib.Core.List.{Memᴰ}
use keevault.Base.{
  ℕ, ◌+◌, ◌==◌, if◌then◌else◌, String, none, some, [], ◌∷◌, str_eq, str_eq_refl, sort_by, ◌≡◌, refl,
  arith,
}
use keevault.Provenance.{off}
use keevault.Store.{EnvironmentRow, SecretDeliveryRow, cloud, active, VaultDatabase}
use keevault.Store.Queries.{get_environment, list_secrets_for_delivery}
use keevault.Store.Writes.{append_audit_event}
use keevault.Store.Keys.{
  get_current_environment_key, get_current_project_key, find_project_key, insert_environment_key,
  reencrypt_row, build_reencrypt_secret_statement, build_switch_current_environment_key_statements,
  batch,
}
use keevault.Crypto.Text.{codes, index_of}
use keevault.Crypto.Encoding.{b64u_decode, b64u_value, b64u_loop, b64u_finish}
use keevault.Crypto.Aesgcm.{aes_gcm_encrypt, aes_gcm_decrypt}
use keevault.Crypto.Aad.{project_key_aad, environment_key_aad, secret_value_aad, canonical_integer}
use keevault.Crypto.Hierarchy.{
  unwrap_project_key, wrap_environment_key, unwrap_environment_key, encrypt_secret, decrypt_secret,
}
use keevault.Crypto.Tests.Sealing.{
  crypto, crypto-AesLaws, crypto-Utf8Laws, key, nonce, decode_units,
}
use keevault.Vault.Keys.{
  Outcome, ok, UnwrappedKey, require_cloud, unwrap_environment_dek, unwrap_project_key_version,
  unwrap_other, unwrap_listed, open_project_key, open_environment_key, unwrap_current_project_key,
}
use keevault.Vault.Rotation.{
  RotationContext, database_at, RotateEnvironmentKeyResult, read_secret, rewrite_secret,
  rewrite_secrets, prepare_rotation, report_rotation, commit_inserted, commit_rotation,
  rotate_environment_key,
}
use keevault.Vault.Rotation.Keeps.{rotate-keeps}

abbrev environment : EnvironmentRow
environment = record {
  id = "env_1";
  project_id = "proj_1";
  key_mode = cloud;
  current_env_key_version = 1;
  provenance_mode = off;
  pending_ttl_seconds = 1800;
  approved_ttl_seconds = 300;
}

-- The bytes of `key` with the tag.
abbrev wrapped : String
wrapped = "BwcHBwcHBwcHBwcHBwcHBwcHBwcHBwcHBwcHBwcHBwcAAAAAAAAAAAAAAAAAAAAA"

abbrev secret : SecretDeliveryRow
secret = record {
  id = "sec_1";
  environment_id = "env_1";
  name = "TOKEN";
  env_key_version = 1;
  secret_version = 1;
  nonce = "AAAAAAAAAAAAAAAA";
  ciphertext = "AGgAaQAAAAAAAAAAAAAAAAAAAAA";
}

abbrev db : VaultDatabase
db = record {
  projects = record { id = "proj_1"; current_project_key_version = 1 } ∷ [];
  project_keys =
      record {
        project_id = "proj_1";
        version = 1;
        master_key_version = 1;
        wrapped_key = wrapped;
        nonce = "AAAAAAAAAAAAAAAA";
        status = active;
        created_at = 0;
        retired_at = none;
      }
      ∷ [];
  environment_keys =
      record {
        environment_id = "env_1";
        version = 1;
        project_key_version = 1;
        wrapped_key = wrapped;
        nonce = "AAAAAAAAAAAAAAAA";
        status = active;
        created_at = 0;
        retired_at = none;
      }
      ∷ [];
  environments = environment ∷ [];
  tokens = [];
  secrets = secret ∷ [];
  signers = [];
  policies = [];
  requests = [];
  approvals = [];
  audit = [];
}

abbrev context : RotationContext
context = record {
  keyring = record { active_version = 1; keys = (1, key) ∷ [] };
  others = λ n x. x;
  next_dek = key;
  key_nonce = nonce;
  secret_nonce = λ row. nonce;
  audit_id = "aud_1";
  actor_type = "user";
  actor_id = some "user_1";
  now = 1000;
}

abbrev dek : UnwrappedKey
dek = record { project_id = "proj_1"; key = key; version = 1 }

abbrev result : RotateEnvironmentKeyResult
result = record {
  environment_id = "env_1";
  previous_version = 1;
  version = 2;
  secrets_reencrypted = 1;
}

abbrev after : VaultDatabase
after = (rotate_environment_key crypto context "env_1" db).1

-- Another writer stores a secret between the insertion of the new key and the batch.
abbrev late : SecretDeliveryRow
late = record {
  id = "sec_2";
  environment_id = "env_1";
  name = "LATE";
  env_key_version = 1;
  secret_version = 1;
  nonce = "AAAAAAAAAAAAAAAA";
  ciphertext = "AGgAaQAAAAAAAAAAAAAAAAAAAAA";
}

abbrev store_late : ℕ → VaultDatabase → VaultDatabase
store_late n x = if n == 9 then record x { secrets = late ∷ x.secrets } else x

abbrev raced : RotationContext
raced = record context { others = store_late }

abbrev after_race : VaultDatabase
after_race = (rotate_environment_key crypto raced "env_1" db).1

current :
    unwrap_environment_dek crypto (λ n. database_at context db (2 + n)) context.keyring "env_1"
    ≡ ok dek
unfolding database_at unwrap_environment_dek get_environment require_cloud
    get_current_environment_key unwrap_project_key_version unwrap_other unwrap_listed
    get_current_project_key find_project_key open_project_key keevault.Vault.Keys.key
    open_environment_key unwrap_project_key unwrap_environment_key aes_gcm_decrypt project_key_aad
    environment_key_aad canonical_integer b64u_decode b64u_value b64u_loop b64u_finish index_of
    str_eq
current = refl

found : get_environment (database_at context db 0) "env_1" ≡ some environment
unfolding database_at get_environment str_eq
found = refl

readable : read_secret crypto "proj_1" "env_1" key secret ≡ ok (codes "hi")
unfolding read_secret decrypt_secret aes_gcm_decrypt secret_value_aad canonical_integer b64u_decode
    b64u_value b64u_loop b64u_finish index_of decode_units
readable = refl

rotated : rotate_environment_key crypto context "env_1" db ≡ (ok result, after)
unfolding database_at rotate_environment_key prepare_rotation commit_rotation commit_inserted
    report_rotation rewrite_secrets rewrite_secret read_secret unwrap_environment_dek
    get_environment require_cloud get_current_environment_key unwrap_project_key_version
    unwrap_other unwrap_listed get_current_project_key find_project_key open_project_key
    keevault.Vault.Keys.key open_environment_key unwrap_current_project_key unwrap_project_key
    unwrap_environment_key wrap_environment_key encrypt_secret decrypt_secret aes_gcm_encrypt
    aes_gcm_decrypt project_key_aad environment_key_aad secret_value_aad canonical_integer
    b64u_decode b64u_value b64u_loop b64u_finish index_of str_eq list_secrets_for_delivery sort_by
    insert_environment_key append_audit_event batch build_reencrypt_secret_statement reencrypt_row
    build_switch_current_environment_key_statements decode_units
rotated = refl

rotate-keeps_example :
    (kept : SecretDeliveryRow) × Memᴰ kept after.secrets
    × (kept.id ≡ "sec_1")
    × (read_secret crypto "proj_1" "env_1" key kept ≡ ok (codes "hi"))
unfolding database_at
rotate-keeps_example =
    rotate-keeps crypto crypto-AesLaws crypto-Utf8Laws context (λ row. ground arith) "env_1" db
      after result environment dek secret (codes "hi") (λ n x h. refl) rotated found current
      (Memᴰ.head refl) (str_eq_refl "env_1") ((λ same. refl), tt) readable (ground arith)
