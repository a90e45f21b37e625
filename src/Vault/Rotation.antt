-- ===== src/Vault/Rotation.antt =====
-- apps/control-plane/src/server/vault/rotation.ts, `rotateEnvironmentKey`. The new key and the nonces
-- are the random values that it draws. Its accesses of D1 are numbered from 0; before each, other
-- writers may change the database (`others`), also between the listing of the secrets, access 7, and
-- the insertion, the batch and the audit event, accesses 8 to 10.
pub mod Rewrites
pub mod Keeps
use keevault.Base.{ℕ, zero, suc, ◌+◌, String, Option, none, some, List, [], ◌∷◌, ◌++◌, map, length}
use keevault.Store.{EnvironmentRow, SecretDeliveryRow, AuditEventRow, number, VaultDatabase}
use keevault.Store.Queries.{get_environment, list_secrets_for_delivery}
use keevault.Store.Writes.{append_audit_event}
use keevault.Store.Keys.{
  get_current_environment_key, insert_environment_key, ReencryptSecretInput,
  build_reencrypt_secret_statement, build_switch_current_environment_key_statements, batch,
}
use keevault.Crypto.Text.{Text, Bytes, codes, from_codes}
use keevault.Crypto.Encoding.{b64u_encode, b64u_decode}
use keevault.Crypto.WebCrypto.{WebCrypto}
use keevault.Crypto.Aesgcm.{SealedBytes}
use keevault.Crypto.Aad.{SecretValueAadInput}
use keevault.Crypto.Hierarchy.{wrap_environment_key, encrypt_secret, decrypt_secret}
use keevault.Vault.Keys.{
  Outcome, ok, throw, ◌>>=◌, or_throw, failed, input_error, key_error, environment_key_missing,
  MasterKeyring, UnwrappedKey, require_cloud, unwrap_environment_dek, unwrap_current_project_key,
}

-- What the call draws at random, what others do to D1 before its n-th access, and the actor and clock
-- of its context.
pub record RotationContext : Type 0 where
  pub keyring : MasterKeyring
  pub others : ℕ → VaultDatabase → VaultDatabase
  pub next_dek : Bytes
  pub key_nonce : Bytes
  pub secret_nonce : SecretDeliveryRow → Bytes
  pub audit_id : String
  pub actor_type : String
  pub actor_id : Option String
  pub now : ℕ

-- The database at the n-th access, as long as the call itself has written nothing.
unfoldable pub database_at : RotationContext → VaultDatabase → ℕ → VaultDatabase
database_at context db zero = context.others 0 db
database_at context db (suc n) = context.others (suc n) (database_at context db n)

pub record RotateEnvironmentKeyResult : Type 0 where
  pub environment_id : String
  pub previous_version : ℕ
  pub version : ℕ
  pub secrets_reencrypted : ℕ

-- The identity that a secret's value is bound to, under a key version.
abbrev pub secret_identity : String → String → SecretDeliveryRow → ℕ → SecretValueAadInput
secret_identity project_id environment_id secret version = record {
  project_id = codes project_id;
  environment_id = codes environment_id;
  secret_id = codes secret.id;
  secret_name = codes secret.name;
  secret_version = secret.secret_version;
  environment_key_version = version;
}

-- The value of a row under an environment's key.
unfoldable pub read_secret : WebCrypto → String → String → Bytes → SecretDeliveryRow → Outcome Text
read_secret c project_id environment_id dek secret = do
  nonce ← or_throw failed (b64u_decode (codes secret.nonce))
  ciphertext ← or_throw failed (b64u_decode (codes secret.ciphertext))
  or_throw failed (
      decrypt_secret c (record {
        identity = secret_identity project_id environment_id secret secret.env_key_version;
        environment_key = dek;
        nonce = nonce;
        ciphertext = ciphertext;
      }))

-- One round of the loop over the secrets.
unfoldable pub rewrite_secret :
    WebCrypto
    → RotationContext
    → String
    → String
    → Bytes
    → ℕ
    → SecretDeliveryRow
    → Outcome ReencryptSecretInput
unfolding read_secret
rewrite_secret c context project_id environment_id dek next_version secret = do
  value ← read_secret c project_id environment_id dek secret
  sealed ← or_throw failed (
      encrypt_secret c (context.secret_nonce secret) (record {
        identity = secret_identity project_id environment_id secret next_version;
        environment_key = context.next_dek;
        value = value;
      }))
  ok (record {
    id = secret.id;
    ciphertext = from_codes (b64u_encode sealed.ciphertext);
    nonce = from_codes (b64u_encode sealed.nonce);
    env_key_version = next_version;
  })

unfoldable pub rewrite_secrets :
    WebCrypto
    → RotationContext
    → String
    → String
    → Bytes
    → ℕ
    → List SecretDeliveryRow
    → Outcome (List ReencryptSecretInput)
unfolding rewrite_secret
rewrite_secrets c context project_id environment_id dek next_version [] = ok []
rewrite_secrets c context project_id environment_id dek next_version (secret ∷ secrets) = do
  rewrite ← rewrite_secret c context project_id environment_id dek next_version secret
  rewrites ← rewrite_secrets c context project_id environment_id dek next_version secrets
  ok (rewrite ∷ rewrites)

-- What is computed before the first write.
pub record PreparedRotation : Type 0 where
  pub environment : EnvironmentRow
  pub previous : UnwrappedKey
  pub project_key : UnwrappedKey
  pub sealed_key : SealedBytes
  pub secrets : List SecretDeliveryRow
  pub rewrites : List ReencryptSecretInput

unfoldable pub prepare_rotation :
    WebCrypto → RotationContext → String → VaultDatabase → Outcome PreparedRotation
unfolding database_at rewrite_secrets get_environment require_cloud get_current_environment_key
    unwrap_environment_dek unwrap_current_project_key list_secrets_for_delivery
prepare_rotation c context environment_id db = do
  found ←
      or_throw (input_error "environmentId")
        (get_environment (database_at context db 0) environment_id)
  environment ← require_cloud found
  current ←
      or_throw (key_error environment_key_missing)
        (get_current_environment_key (database_at context db 1) environment_id)
  previous ←
      unwrap_environment_dek c (λ n. database_at context db (2 + n)) context.keyring environment_id
  project_key ←
      unwrap_current_project_key c (database_at context db 6) context.keyring environment.project_id
  sealed_key ← or_throw failed (
      wrap_environment_key c context.key_nonce (record {
        identity = record {
          project_id = codes environment.project_id;
          environment_id = codes environment_id;
          environment_key_version = suc previous.version;
          project_key_version = project_key.version;
        };
        project_key = project_key.key;
        environment_key = context.next_dek;
      }))
  rewrites ←
      rewrite_secrets c context environment.project_id environment_id previous.key
        (suc previous.version) (list_secrets_for_delivery (database_at context db 7) environment_id)
  ok (record {
    environment = environment;
    previous = previous;
    project_key = project_key;
    sealed_key = sealed_key;
    secrets = list_secrets_for_delivery (database_at context db 7) environment_id;
    rewrites = rewrites;
  })

abbrev rotation_event : RotationContext → String → PreparedRotation → AuditEventRow
rotation_event context environment_id p = record {
  id = context.audit_id;
  timestamp = context.now;
  actor_type = context.actor_type;
  actor_id = context.actor_id;
  action = "environment-key.rotated";
  project_id = some p.environment.project_id;
  environment_id = some environment_id;
  boot_id = none;
  metadata =
      ("previousVersion", number p.previous.version)
      ∷ ("version", number (suc p.previous.version))
      ∷ ("projectKeyVersion", number p.project_key.version)
      ∷ ("secretsReencrypted", number (length p.secrets))
      ∷ [];
}

-- The audit event, after the batch. A rejected one leaves the batch in place.
unfoldable pub report_rotation :
    RotationContext
    → String
    → PreparedRotation
    → VaultDatabase
    → Option VaultDatabase
    → Outcome RotateEnvironmentKeyResult × VaultDatabase
report_rotation context environment_id p db none = (throw failed, db)
report_rotation context environment_id p db (some reported) = (
  ok (record {
    environment_id = environment_id;
    previous_version = p.previous.version;
    version = suc p.previous.version;
    secrets_reencrypted = length p.secrets;
  }),
  reported,
)

unfoldable pub commit_inserted :
    RotationContext
    → String
    → PreparedRotation
    → VaultDatabase
    → Option VaultDatabase
    → Outcome RotateEnvironmentKeyResult × VaultDatabase
unfolding report_rotation batch build_switch_current_environment_key_statements append_audit_event
    build_reencrypt_secret_statement
commit_inserted context environment_id p db none = (throw failed, db)
commit_inserted context environment_id p db (some inserted) =
    let switched =
      batch
        (map build_reencrypt_secret_statement p.rewrites
          ++ build_switch_current_environment_key_statements (record {
            environment_id = environment_id;
            previous_version = p.previous.version;
            next_version = suc p.previous.version;
            now = context.now;
          }))
        (context.others 9 inserted) in
    let audited = context.others 10 switched in
    report_rotation context environment_id p audited
      (append_audit_event (rotation_event context environment_id p) audited)

-- A call that throws before the insertion has written nothing; `db` is its database at the start.
unfoldable pub commit_rotation :
    RotationContext
    → String
    → Outcome PreparedRotation
    → VaultDatabase
    → Outcome RotateEnvironmentKeyResult × VaultDatabase
unfolding database_at commit_inserted insert_environment_key
commit_rotation context environment_id (throw e) db = (throw e, db)
commit_rotation context environment_id (ok p) db =
    let present = database_at context db 8 in
    commit_inserted context environment_id p present (
      insert_environment_key
        (record {
          environment_id = environment_id;
          version = suc p.previous.version;
          project_key_version = p.project_key.version;
          wrapped_key = from_codes (b64u_encode p.sealed_key.ciphertext);
          nonce = from_codes (b64u_encode p.sealed_key.nonce);
          now = context.now;
        })
        present)

unfoldable pub rotate_environment_key :
    WebCrypto
    → RotationContext
    → String
    → VaultDatabase
    → Outcome RotateEnvironmentKeyResult × VaultDatabase
unfolding prepare_rotation commit_rotation
rotate_environment_key c context environment_id db =
    commit_rotation context environment_id (prepare_rotation c context environment_id db) db
